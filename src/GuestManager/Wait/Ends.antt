-- ===== src/GuestManager/Wait/Ends.antt =====
-- lib/cuckoo/core/guest.py: how the loops of the guest manager end.
use capev.Base.{
  All, arith, Bool, Bool-cases, false, inl, inr, List, [], ltb, none, Option, refl, some, str_eq,
  String, true, ℕ, ◌++◌, ◌<◌, ◌∷◌, ◌≡◌, ◌≢◌, In, ◌≤◌, ap, ◌∙◌, eq_iff, sym, subst,
}
use capev.Database.Guests.{Guests, guest_set_status}
use capev.GuestManager.Wait.{
  Attempt, Availability, Completion, completed, connected, Connection, end_reached, failed, goes_on,
  not_yet, Poll, refused, stopped, waiting, wait_available, wait_for_completion, replied,
  attempt_with,
}

module _ (task_id end : ℕ) where
  -- A round after which the wait for the agent goes on.
  abbrev pub IsRefused : Attempt → Type 0
  IsRefused r =
      (goes_on r.faults task_id "starting" r.guests r.do_run ≡ true)
      × (r.connection ≡ refused)
      × (ltb end r.now ≡ false)

  pub wait_available-refused :
      (rs later : List Attempt)
      → All IsRefused rs
      → wait_available task_id end (rs ++ later) ≡ wait_available task_id end later
  unfolding wait_available
  wait_available-refused [] later h = refl
  wait_available-refused (r ∷ rs) later h =
      rw (h.0.0) (rw (h.0.1) (rw (h.0.2) (wait_available-refused rs later h.1)))

  -- A poll after which the wait for the end of the analysis goes on.
  abbrev pub IsSilent : Poll → Type 0
  IsSilent r =
      (goes_on r.faults task_id "running" r.guests r.do_run ≡ true)
      × (ltb end r.now ≡ false)
      × ((s : String)
          → r.reply ≡ some s
          → (str_eq s "complete" ≡ false) × (str_eq s "exception" ≡ false))

  replied-silent :
      (r : Poll) (o : Option String) (rest : Completion)
      → ((s : String) → o ≡ some s → (str_eq s "complete" ≡ false) × (str_eq s "exception" ≡ false))
      → replied task_id r o rest ≡ rest
  replied-silent r none rest h = refl
  replied-silent r (some s) rest h = let neither = h s refl in rw (neither.0) (rw (neither.1))

  wait_for_completion-silent :
      (rs later : List Poll)
      → All IsSilent rs
      → wait_for_completion task_id end (rs ++ later) ≡ wait_for_completion task_id end later
  unfolding wait_for_completion
  wait_for_completion-silent [] later h = refl
  wait_for_completion-silent (r ∷ rs) later h =
      rw (h.0.0)
        (rw (h.0.1) (replied-silent r r.reply _ h.0.2 ∙ wait_for_completion-silent rs later h.1))

  -- The poll at which the agent says the status, after polls that changed nothing; the result is
  -- written to the table.
  pub record Said (status result : String) (rs : List Poll) (g : Guests) : Type 0 where
    pub before : List Poll
    pub poll : Poll
    pub after : List Poll
    pub split : rs ≡ before ++ (poll ∷ after)
    pub silent : All IsSilent before
    pub running : goes_on poll.faults task_id "running" poll.guests poll.do_run ≡ true
    pub timely : ltb end poll.now ≡ false
    pub said : poll.reply ≡ some status
    pub written : g ≡ guest_set_status poll.faults task_id result poll.later

  -- What the task's guest has become.
  abbrev pub Concludes : List Poll → Completion → Type 0
  Concludes rs (completed g) = Said "complete" "complete" rs g
  Concludes rs (failed g) = Said "exception" "failed" rs g
  Concludes rs stopped = Unit
  Concludes rs end_reached = Unit
  Concludes rs waiting = All IsSilent rs

  later-Said :
      {status result : String} {g : Guests} (r : Poll) (rs : List Poll)
      → IsSilent r
      → Said status result rs g
      → Said status result (r ∷ rs) g
  later-Said r rs h s = record {
    before = r ∷ s.before;
    poll = s.poll;
    after = s.after;
    split = ap (◌∷◌ r) s.split;
    silent = (h, s.silent);
    running = s.running;
    timely = s.timely;
    said = s.said;
    written = s.written;
  }

  later-Concludes :
      (r : Poll) (rs : List Poll) (c : Completion)
      → IsSilent r
      → Concludes rs c
      → Concludes (r ∷ rs) c
  later-Concludes r rs (completed g) h s = later-Said r rs h s
  later-Concludes r rs (failed g) h s = later-Said r rs h s
  later-Concludes r rs stopped h c = tt
  later-Concludes r rs end_reached h c = tt
  later-Concludes r rs waiting h c = (h, c)

  module _ (r : Poll) (rs : List Poll)
      (runs : goes_on r.faults task_id "running" r.guests r.do_run ≡ true)
      (timely : ltb end r.now ≡ false) where
    now-Said :
        (status result s : String)
        → r.reply ≡ some s
        → str_eq s status ≡ true
        → Said status result (r ∷ rs) (guest_set_status r.faults task_id result r.later)
    now-Said status result s e h = record {
      before = [];
      poll = r;
      after = rs;
      split = refl;
      silent = tt;
      running = runs;
      timely = timely;
      said = e ∙ ap some ((eq_iff s status).0 h);
      written = refl;
    }

    replied-Concludes :
        (o : Option String)
        → r.reply ≡ o
        → (rest : Completion) → Concludes rs rest
        → Concludes (r ∷ rs) (replied task_id r o rest)
    replied-Concludes none e rest c = later-Concludes r rs rest (runs, timely, λ s d. cc) c
    replied-Concludes (some s) e rest c = elim (Bool-cases (str_eq s "complete")) [
      | inl h ↦ rw h (now-Said "complete" "complete" s e h)
      | inr h ↦ rw h (elim (Bool-cases (str_eq s "exception")) [
        | inl k ↦ rw k (now-Said "exception" "failed" s e k)
        | inr k ↦
            rw k (later-Concludes r rs rest (runs, timely, λ t d. neither t (sym e ∙ d) h k) c)
      ])
    ]
      where
        neither :
            (t : String)
            → some s ≡ some t
            → str_eq s "complete" ≡ false
            → str_eq s "exception" ≡ false
            → (str_eq t "complete" ≡ false) × (str_eq t "exception" ≡ false)
        neither t d h k =
            let same : s ≡ t = cc in
            (
              subst (λ x. str_eq x "complete" ≡ false) same h,
              subst (λ x. str_eq x "exception" ≡ false) same k,
            )

  -- The wait for the end of an analysis ends as completed, or as failed, only by a poll in time at
  -- which the guest was still running and the agent said complete, or exception, after polls that
  -- changed nothing; the table is then the one of that moment with the status complete, or failed.
  -- It is still waiting only if no poll was of another kind.
  pub wait_for_completion-Concludes :
      (rs : List Poll) → Concludes rs (wait_for_completion task_id end rs)
  unfolding wait_for_completion
  wait_for_completion-Concludes [] = tt
  wait_for_completion-Concludes (r ∷ rs) =
      elim (Bool-cases (goes_on r.faults task_id "running" r.guests r.do_run)) [
        | inl h ↦ rw h (elim (Bool-cases (ltb end r.now)) [
          | inl k ↦ rw k tt
          | inr k ↦
              rw k (replied-Concludes r rs h k r.reply refl _ (wait_for_completion-Concludes rs))
        ])
        | inr h ↦ rw h tt
      ]

  -- A poll after the end of the time is never passed.
  silent-now : (rs : List Poll) (r : Poll) → All IsSilent rs → In r rs → r.now ≤ end
  silent-now [] r h i = absurd i
  silent-now (p ∷ rs) r h (inl e) = rw e (ground (arith, h.0.1))
  silent-now (p ∷ rs) r h (inr i) = silent-now rs r h.1 i

  -- Among polls of which one comes after the end of the time, the wait for the end of an analysis
  -- does not go on waiting.
  wait_for_completion-waiting :
      (rs : List Poll) (r : Poll)
      → In r rs
      → end < r.now
      → wait_for_completion task_id end rs ≢ waiting
  wait_for_completion-waiting rs r i late e =
      let quiet : All IsSilent rs = subst (Concludes rs) e (wait_for_completion-Concludes rs) in
      absurd (omega (arith, silent-now rs r quiet i))

  attempt_with-not_yet :
      (b late : Bool) (c : Connection) (rest : Availability)
      → attempt_with task_id b c late rest ≡ not_yet
      → (b ≡ true) × (c ≡ refused) × (late ≡ false) × (rest ≡ not_yet)
  attempt_with-not_yet false late c rest e = cc
  attempt_with-not_yet true late connected rest e = cc
  attempt_with-not_yet true true refused rest e = cc
  attempt_with-not_yet true false refused rest e = (refl, refl, refl, e)

  pub wait_available-not_yet :
      (rs : List Attempt) (r : Attempt)
      → In r rs
      → end < r.now
      → wait_available task_id end rs ≢ not_yet
  unfolding wait_available
  wait_available-not_yet [] r i late e = absurd i
  wait_available-not_yet (p ∷ rs) r (inl same) late e =
      let now : r.now ≡ p.now = ap (λ x. x.now) same in
      let h = attempt_with-not_yet _ (ltb end p.now) p.connection _ e in
      absurd (ground (arith, h.2))
  wait_available-not_yet (p ∷ rs) r (inr i) late e =
      wait_available-not_yet rs r i late (attempt_with-not_yet _ (ltb end p.now) p.connection _ e).3
