-- ===== src/GuestManager/Start/Follows.antt =====
-- Code of lib/cuckoo/core/guest.py that sends the requests of a plan in their order, and stops at the
-- first that fails.
use capev.Base.{
  List, [], ◌∷◌, ◌++◌, append_assoc, append_empty, Option, none, some, ◌≡◌, refl, ◌∙◌, ap, sym,
}
use capev.Scheduler.Exec.{blocked, continue, Exc, external, ok, raised, Result}
use capev.GuestManager.Start.{Env, M, Options, Request, World, send}

-- Where the code returns, nothing is left of the plan, and the value is as given.
abbrev pub Returns : {A : Type 0} → (A → Type 0) → List Request → Result A → Type 0
Returns P todo (ok a) = (todo ≡ []) × P a
Returns P todo (raised x) = Unit
Returns P todo blocked = Unit

-- The requests that were sent are the first ones of the plan.
pub record Follows {A : Type 0} (P : A → Type 0) (w : World) (plan : List Request)
    (r : Result A × World) : Type 0 where
  pub done : List Request
  pub todo : List Request
  pub split : done ++ todo ≡ plan
  pub sent : r.1.sent ≡ w.sent ++ done
  pub kept : r.1.guests ≡ w.guests
  pub returns : Returns P todo r.0

abbrev pub Any : {A : Type 0} → A → Type 0
Any a = Unit {0}

module _ {A B : Type 0} (P : A → Type 0) (Q : B → Type 0) (w : World) (p q : List Request) where
  pub bind-Follows :
      (x : Result A × World) (k : A → M B)
      → Follows P w p x
      → ((a : A) (w' : World) → P a → Follows Q w' q (k a w'))
      → Follows Q w (p ++ q) (continue x k)
  bind-Follows (ok a, w') k f g =
      let h = g a w' f.returns.1 in
      let all : f.done ≡ p =
        sym (append_empty f.done) ∙ ap (λ t. f.done ++ t) (sym f.returns.0) ∙ f.split in
      record {
        done = p ++ h.done;
        todo = h.todo;
        split = append_assoc p h.done h.todo ∙ ap (λ t. p ++ t) h.split;
        sent =
            h.sent
            ∙ ap (λ t. t ++ h.done) (f.sent ∙ ap (λ t. w.sent ++ t) all)
            ∙ append_assoc w.sent p h.done;
        kept = h.kept ∙ f.kept;
        returns = h.returns;
      }
  bind-Follows (raised x, w') k f g = record {
    done = f.done;
    todo = f.todo ++ q;
    split = sym (append_assoc f.done f.todo q) ∙ ap (λ t. t ++ q) f.split;
    sent = f.sent;
    kept = f.kept;
    returns = tt;
  }
  bind-Follows (blocked, w') k f g = record {
    done = f.done;
    todo = f.todo ++ q;
    split = sym (append_assoc f.done f.todo q) ∙ ap (λ t. t ++ q) f.split;
    sent = f.sent;
    kept = f.kept;
    returns = tt;
  }

module _ {A : Type 0} (P : A → Type 0) (w : World) where
  pub pure-Follows : (a : A) → P a → Follows P w [] (ok a, w)
  pure-Follows a h = record {
    done = [];
    todo = [];
    split = refl;
    sent = sym (append_empty w.sent);
    kept = refl;
    returns = (refl, h);
  }

  pub raised-Follows : (x : Exc) → Follows P w [] (raised x, w)
  raised-Follows x = record {
    done = [];
    todo = [];
    split = refl;
    sent = sym (append_empty w.sent);
    kept = refl;
    returns = tt;
  }

pub external-Follows : (x : Option Exc) (w : World) → Follows Any w [] (external x w)
external-Follows none w = pure-Follows Any w tt tt
external-Follows (some x) w = raised-Follows Any w x

pub block-Follows : (w : World) → Follows (Any {A = Unit {0}}) w [] (blocked, w)
block-Follows w = record {
  done = [];
  todo = [];
  split = refl;
  sent = sym (append_empty w.sent);
  kept = refl;
  returns = tt;
}

pub send-Follows :
    (e : Env) (o : Options) (r : Request) (w : World) → Follows Any w (r ∷ []) (send e o r w)
unfolding send
send-Follows e o r w = answered (e.answer r)
  where
    answered :
        (x : Option Exc)
        → Follows Any w (r ∷ []) (external x (record w { sent = w.sent ++ (r ∷ []) }))
    answered none = record {
      done = r ∷ [];
      todo = [];
      split = refl;
      sent = refl;
      kept = refl;
      returns = (refl, tt);
    }
    answered (some x) = record {
      done = r ∷ [];
      todo = [];
      split = refl;
      sent = refl;
      kept = refl;
      returns = tt;
    }
