-- ===== src/ResultServer/Sessions/Cancel.antt =====
-- What `del_task` of lib/cuckoo/core/resultserver.py cancels.
use capev.Base.{
  ℕ, ◌==◌, String, ◌≡◌, refl, ◌⊎◌, inl, inr, Bool, true, false, not, ◌&&◌, Option, none, some, List,
  [], ◌∷◌, ◌++◌, map, keep, any, member, All, All-In, All-map, keep-All, In, arith, Bool-cases,
}
use capev.ResultServer.Sessions.{
  Session, Server, is_of, add_task, del_task, connect, accept, get_task, negotiated,
  register_session, find_session, leave_negotiation, is_task, give_up, finish, has_ctx, Step, adds,
  dels, connects, negotiates, gives_up, finishes, step, run, empty,
}

-- Whether a context is registered for a task.
abbrev pub registered : ℕ → ℕ → List (ℕ × ℕ) → Bool
registered task_id ctx hs = any (λ (e : ℕ × ℕ). e.0 == task_id && e.1 == ctx) hs

-- A running session is registered, or its context has been cancelled.
abbrev pub Tracked : List (ℕ × ℕ) → List ℕ → Session → Type 0
Tracked hs cancelled c = (member c.ctx cancelled ≡ true) ⊎ (registered c.task_id c.ctx hs ≡ true)

member-append_right : (i : ℕ) (xs ys : List ℕ) → member i ys ≡ true → member i (xs ++ ys) ≡ true
member-append_right i [] ys h = h
member-append_right i (x ∷ xs) ys h = ground (arith, member-append_right i xs ys h)

-- A registered context is cancelled with its task, or stays registered.
registered-del :
    (t task_id ctx : ℕ) (hs : List (ℕ × ℕ)) (cancelled : List ℕ)
    → registered task_id ctx hs ≡ true
    → (member ctx (map (λ (e : ℕ × ℕ). e.1) (keep (is_of t) hs) ++ cancelled) ≡ true)
      ⊎ (registered task_id ctx (keep (λ e. not (is_of t e)) hs) ≡ true)
registered-del t task_id ctx [] cancelled h = absurd (ground arith)
registered-del t task_id ctx (e ∷ es) cancelled h =
    ground (arith, registered-del t task_id ctx es cancelled)

registered-finish :
    (i task_id ctx : ℕ) (hs : List (ℕ × ℕ)) (cancelled : List ℕ)
    → registered task_id ctx hs ≡ true
    → (ctx ≡ i) ⊎ (registered task_id ctx (keep (λ (e : ℕ × ℕ). not (e.1 == i)) hs) ≡ true)
registered-finish i task_id ctx [] cancelled h = absurd (ground arith)
registered-finish i task_id ctx (e ∷ es) cancelled h =
    ground (arith, registered-finish i task_id ctx es cancelled)

abbrev pub IsTracked : Server → Type 0
IsTracked s = All (Tracked s.handlers s.cancelled) s.running

del_task-IsTracked : (t : ℕ) (ip : String) (s : Server) → IsTracked s → IsTracked (del_task t ip s)
unfolding del_task
del_task-IsTracked t ip s h =
    All-map _ _
      (λ c k. elim k [
        | inl q ↦ inl (
            member-append_right c.ctx (map (λ (e : ℕ × ℕ). e.1) (keep (is_of t) s.handlers))
              s.cancelled q)
        | inr q ↦ registered-del t c.task_id c.ctx s.handlers s.cancelled q
      ])
      s.running h

negotiated-IsTracked : (ctx : ℕ) (s : Server) → IsTracked s → IsTracked (negotiated ctx s)
unfolding negotiated
negotiated-IsTracked ctx s h = go (find_session ctx s.negotiating)
  where
    go : (o : Option Session) → IsTracked (register_session o (leave_negotiation ctx s))
    go none = h
    go (some c) = elim (Bool-cases (is_task c.task_id (get_task c.ip s.tasks))) [
      | inl q ↦ rw q (
        inr (ground arith),
        All-map _ _ (λ d k. elim k [ inl e ↦ inl e | inr e ↦ inr (ground arith) ]) s.running h,
      )
      | inr q ↦ rw q h
    ]

finish-IsTracked : (ctx : ℕ) (s : Server) → IsTracked s → IsTracked (finish ctx s)
unfolding finish
finish-IsTracked ctx s h =
    keep-All _ (λ c. not (has_ctx ctx c)) s.running
      (All-map _ _
        (λ c k. elim k [
          | inl e ↦ inl (ground arith)
          | inr e ↦ elim (registered-finish ctx c.task_id c.ctx s.handlers s.cancelled e) [
            | inl q ↦ inl (ground arith)
            | inr q ↦ inr q
          ]
        ])
        s.running h)

connect-IsTracked :
    (ctx : ℕ) (ip : String) (s : Server) → IsTracked s → IsTracked (connect ctx ip s)
unfolding connect
connect-IsTracked ctx ip s h = go (get_task ip s.tasks)
  where
    go : (o : Option ℕ) → IsTracked (accept ctx ip o s)
    go none = h
    go (some t) = elim (Bool-cases (t == 0)) [ inl q ↦ rw q h | inr q ↦ rw q h ]

step-IsTracked : (st : Step) (s : Server) → IsTracked s → IsTracked (step st s)
unfolding step add_task give_up
step-IsTracked (adds t ip) s h = h
step-IsTracked (dels t ip) s h = del_task-IsTracked t ip s h
step-IsTracked (connects ctx ip) s h = connect-IsTracked ctx ip s h
step-IsTracked (negotiates ctx) s h = negotiated-IsTracked ctx s h
step-IsTracked (gives_up ctx) s h = h
step-IsTracked (finishes ctx) s h = finish-IsTracked ctx s h

pub run-IsTracked : (sts : List Step) (s : Server) → IsTracked s → IsTracked (run sts s)
unfolding run
run-IsTracked [] s h = h
run-IsTracked (st ∷ sts) s h = run-IsTracked sts (step st s) (step-IsTracked st s h)

registered-keep :
    (t ctx : ℕ) (hs : List (ℕ × ℕ)) → registered t ctx (keep (λ e. not (is_of t e)) hs) ≡ false
registered-keep t ctx [] = refl
registered-keep t ctx (e ∷ es) = ground (arith, registered-keep t ctx es)

-- After any history of tasks and connections, once a task is deleted every connection whose
-- handler runs for it has been cancelled.
pub del_task-cancels :
    (sts : List Step) (t : ℕ) (ip : String) (c : Session)
    → In c (del_task t ip (run sts empty)).running
    → c.task_id ≡ t
    → member c.ctx (del_task t ip (run sts empty)).cancelled ≡ true
unfolding del_task
del_task-cancels sts t ip c i e =
    let s = run sts empty in
    elim (All-In (Tracked (del_task t ip s).handlers (del_task t ip s).cancelled) c s.running
      (del_task-IsTracked t ip s (run-IsTracked sts empty tt)) i) [
        | inl q ↦ q
        | inr q ↦ absurd (ground (arith, registered-keep t c.ctx s.handlers))
      ]
