-- ===== src/Signatures/Evented/Once.antt =====
-- lib/cuckoo/core/plugins.py, `RunSignatures.run`: how often an evented signature matches.
use capev.Base.{
  arith, Bool-cases, if◌then◌else◌, inl, inr, List, [], ◌∷◌, ◌++◌, ℕ, ◌+◌, ◌≤◌, ◌∙◌, ◌≡◌, refl,
  true, false, map, ap, subst, map-append,
}
use capev.Base.Bytes.{same_bytes}
use capev.Signatures.Evented.{
  Answer, Call, Lists, Match, Methods, Signature, Text, Told, as_result, complete_all, completed,
  is_interested, leaves, offer, offer_all, run_evented, settle, stays, tell, nothing, answered,
  not_implemented, failed,
}
use capev.Signatures.Evented.Walk.{walk, walk_last, walk_leaves, walk_stays, offer-walk}

-- How often a name stands in a list of names.
abbrev pub count : Text → List Text → ℕ
count k [] = 0
count k (n ∷ ns) = (if same_bytes k n then 1 else 0) + count k ns

pub count-append : (k : Text) (xs ys : List Text) → count k (xs ++ ys) ≡ count k xs + count k ys
count-append k [] ys = omega arith
count-append k (x ∷ xs) ys = omega (arith, count-append k xs ys)

-- How many of the matches have the name.
abbrev pub matches : Text → List Match → ℕ
matches k ms = count k (map (λ (x : Match). x.name) ms)

pub matches-append :
    (k : Text) (xs ys : List Match) → matches k (xs ++ ys) ≡ matches k xs + matches k ys
matches-append k xs ys =
    ap (count k) (map-append (λ (x : Match). x.name) xs ys)
    ∙ count-append k (map (λ (x : Match). x.name) xs) (map (λ (x : Match). x.name) ys)

module _ {S : Type 0} where
  -- How many of the signatures have the name.
  abbrev pub signatures : Text → List (Signature S) → ℕ
  signatures k sigs = count k (map (λ (x : Signature S). x.name) sigs)

  module _ (m : Methods S) (k : Text) where
    abbrev total : Lists m → ℕ
    total l = signatures k l.evented_list + matches k l.matched

    abbrev told_total : Told m → ℕ
    told_total (stays sig) = signatures k (sig ∷ [])
    told_total (leaves found) = matches k found

    settle-le :
        (sig : Signature S) (s : S) (a : Answer)
        → told_total (settle m sig (s, a)) ≤ signatures k (sig ∷ [])
    unfolding as_result
    settle-le sig s nothing = omega arith
    settle-le sig s (answered true) = omega arith
    settle-le sig s (answered false) = omega arith
    settle-le sig s not_implemented = omega arith
    settle-le sig s failed = omega arith

    tell-le :
        (call : Call) (sig : Signature S) → told_total (tell m call sig) ≤ signatures k (sig ∷ [])
    unfolding tell
    tell-le call sig = elim (Bool-cases (is_interested sig call)) [
      | inl e ↦
          let answer : S × Answer = m.on_call sig.state call.process_name call.api call.category in
          rw e (settle-le sig answer.0 answer.1)
      | inr e ↦ rw e (omega arith)
    ]

    told-le :
        (call : Call) (sig : Signature S) (t : Told m)
        → tell m call sig ≡ t
        → told_total t ≤ signatures k (sig ∷ [])
    told-le call sig t e = subst (λ u. told_total u ≤ signatures k (sig ∷ [])) e (tell-le call sig)

    walk-le :
        (call : Call) (sigs : List (Signature S)) → total (walk m call sigs) ≤ signatures k sigs
    unfolding walk
    walk-le call [] = omega arith
    walk-le call (x ∷ []) = go (tell m call x) refl
      where
        go : (t : Told m) → tell m call x ≡ t → total (walk m call (x ∷ [])) ≤ signatures k (x ∷ [])
        go (stays x') e =
            rw (walk_stays m call x x' [] e) (omega (arith, told-le call x (stays x') e))
        go (leaves found) e =
            rw (walk_last m call x found e) (omega (arith, told-le call x (leaves found) e))
    walk-le call (x ∷ y ∷ ys) = go (tell m call x) refl (walk-le call (y ∷ ys)) (walk-le call ys)
      where
        go :
            (t : Told m)
            → tell m call x ≡ t
            → total (walk m call (y ∷ ys)) ≤ signatures k (y ∷ ys)
            → total (walk m call ys) ≤ signatures k ys
            → total (walk m call (x ∷ y ∷ ys)) ≤ signatures k (x ∷ y ∷ ys)
        go (stays x') e h g =
            rw (walk_stays m call x x' (y ∷ ys) e) (omega (arith, told-le call x (stays x') e))
        go (leaves found) e h g = rw (walk_leaves m call x y ys found e) (
            omega (
              arith,
              told-le call x (leaves found) e,
              matches-append k found (walk m call ys).matched,
            ))

    offer-le : (call : Call) (l : Lists m) → total (offer m call l) ≤ total l
    offer-le call l = rw (offer-walk m call l) (
        omega (
          arith,
          walk-le call l.evented_list,
          matches-append k l.matched (walk m call l.evented_list).matched,
        ))

    offer_all-le : (calls : List Call) (l : Lists m) → total (offer_all m calls l) ≤ total l
    unfolding offer_all
    offer_all-le [] l = omega arith
    offer_all-le (call ∷ calls) l =
        omega (arith, offer_all-le calls (offer m call l), offer-le call l)

    completed-le :
        (sig : Signature S) (s : S) (a : Answer)
        → matches k (completed m sig (s, a)) ≤ signatures k (sig ∷ [])
    unfolding as_result
    completed-le sig s nothing = omega arith
    completed-le sig s (answered true) = omega arith
    completed-le sig s (answered false) = omega arith
    completed-le sig s not_implemented = omega arith
    completed-le sig s failed = omega arith

    complete_all-le :
        (sigs : List (Signature S)) → matches k (complete_all m sigs) ≤ signatures k sigs
    unfolding complete_all
    complete_all-le [] = omega arith
    complete_all-le (sig ∷ sigs) =
        let answer : S × Answer = m.on_complete sig.state in
        omega (
          arith,
          matches-append k (completed m sig answer) (complete_all m sigs),
          completed-le sig answer.0 answer.1,
          complete_all-le sigs,
        )

    -- Whatever the signatures do, and for all calls, the number of matches with a name that the
    -- evented signatures leave is at most the number of evented signatures with that name: each one
    -- matches at most once, and nothing else does.
    pub run_evented-le :
        (calls : List Call) (sigs : List (Signature S))
        → matches k (run_evented m calls sigs) ≤ signatures k sigs
    unfolding run_evented
    run_evented-le calls sigs =
        let start : Lists m = record { evented_list = sigs; matched = [] } in
        let l : Lists m = offer_all m calls start in
        omega (
          arith,
          offer_all-le calls start,
          complete_all-le l.evented_list,
          matches-append k l.matched (complete_all m l.evented_list),
        )
