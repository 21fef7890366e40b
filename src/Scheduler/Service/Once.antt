-- ===== src/Scheduler/Service/Once.antt =====
-- How many tasks the loop of `Scheduler.start` of lib/cuckoo/core/scheduler.py starts, and which.
use capev.Base.{
  ℕ, ◌≤◌, ◌==◌, ◌≡◌, ◌≢◌, refl, Bool, true, false, ◌&&◌, Option, none, some, List, [], ◌∷◌, length,
  if◌then◌else◌, arith, All, Distinct, is_empty,
}
use capev.Database.Machines.{Machine, get_available_machines}
use capev.Database.Tasks.{FetchFaults, Task, fetch}
use capev.Database.Tasks.Queue.{sound}
use capev.Database.Tasks.History.{Claimed, Handed}
use capev.Machinery.{availables}
use capev.Scheduler.Service.{
  Limits, Local, unbound, fetched, Service, Round, Turn, next, search, tried, process, hand_out,
  stop, is_full, raise_error, has_too_many, turn, meet, Ending, resume, serve, initial,
}

-- Both branches of a test, each with what the test says.
if-cases :
    {A : Type 0} (P : A → Type 0) (b : Bool) (x y : A)
    → (b ≡ true → P x)
    → (b ≡ false → P y)
    → P (if b then x else y)
if-cases P true x y h k = h refl
if-cases P false x y h k = k refl

module _ (P Q : Service → Type 0) (c : Limits) where
  -- A property of the state after a turn, and another one for an `UnboundLocalError`.
  abbrev After : Turn → Type 0
  After (next s) = P s
  After (Turn.unbound_local s) = Q s
  After (Turn.error s) = P s

  raise_error-After : (b : Bool) (t : Turn) → After t → After (raise_error b t)
  raise_error-After true (next s) h = h
  raise_error-After false (next s) h = h
  raise_error-After b (Turn.unbound_local s) h = h
  raise_error-After b (Turn.error s) h = h

  turn-After :
      (r : Round) (s : Service)
      → P s
      → P (stop s)
      → (is_full c s ≡ false → After (hand_out r s))
      → After (turn c r s)
  unfolding turn
  turn-After r s h k g =
      if-cases After r.lock_taken _ _ (λ _. h)
        (λ _.
          if-cases After (c.freespace && r.need_space) _ _ (λ _. h)
            (λ _.
              if-cases After (has_too_many c r) _ _ (λ _. h)
                (λ _.
                  if-cases After (availables r.faults r.at_availables == 0) _ _ (λ _. h)
                    (λ _.
                      if-cases After (is_full c s) _ _
                        (λ _.
                          raise_error-After r.has_error (next (if r.is_idle then stop s else s))
                            (if-cases P r.is_idle _ _ (λ _. k) (λ _. h)))
                        (λ e. raise_error-After r.has_error (hand_out r s) (g e))))))

  -- The same at the end of the loop.
  abbrev AtEnd : Ending × Service → Type 0
  AtEnd (Ending.unbound_local, s) = Q s
  AtEnd (Ending.stopped, s) = P s
  AtEnd (Ending.error, s) = P s
  AtEnd (Ending.waiting, s) = P s

  resume-AtEnd :
      (go : Service → Ending × Service) (t : Turn)
      → ((s : Service) → P s → AtEnd (go s))
      → After t
      → AtEnd (resume go t)
  resume-AtEnd go (next s) h k = h s k
  resume-AtEnd go (Turn.unbound_local s) h k = k
  resume-AtEnd go (Turn.error s) h k = k

  -- The rule for the loop, over rounds that are as `G` says.
  serve-AtEnd :
      (G : Round → Type 0)
      → ((r : Round) (s : Service) → G r → P s → P (meet r s))
      → ((r : Round) (s : Service) → G r → P s → After (turn c r s))
      → (rs : List Round) (s : Service) → All G rs
      → P s
      → AtEnd (serve c rs s)
  unfolding serve
  serve-AtEnd G met turned [] s g h = h
  serve-AtEnd G met turned (r ∷ rs) s g h =
      let h0 = met r s g.0 h in
      if-cases AtEnd (meet r s).running _ _
        (λ _.
          resume-AtEnd (serve c rs) (turn c r (meet r s))
            (λ s1 h1. serve-AtEnd G met turned rs s1 g.1 h1) (turned r (meet r s) g.0 h0))
        (λ _. h0)

-- `search` changes the variable and the table of the tasks only.
record SameCount (s s' : Service) : Type 0 where
  started : s'.started ≡ s.started
  total : s'.total_analysis_count ≡ s.total_analysis_count

search-SameCount :
    (f : FetchFaults) (now : ℕ) (ms : List Machine) (s : Service) → SameCount s (search f now ms s)
unfolding search
search-SameCount f now [] s = record { started = refl; total = refl }
search-SameCount f now (m ∷ ms) s =
    go (fetch f now m s.tasks).0 (search-SameCount f now ms (tried f now m s))
  where
    go :
        (o : Option Task)
        → SameCount (tried f now m s) (search f now ms (tried f now m s))
        → SameCount s
            (elim o [ none ↦ search f now ms (tried f now m s) | some t ↦ tried f now m s ])
    go none h = record { started = h.started; total = h.total }
    go (some t) h = record { started = refl; total = refl }

-- The count is the number of analyses that were started, and stays within the limit.
abbrev pub InBounds : Limits → Service → Type 0
InBounds c s =
    (length s.started ≡ s.total_analysis_count)
    × (c.maxcount ≢ 0 → s.total_analysis_count ≤ c.maxcount)

process-InBounds :
    (c : Limits) (o : Local) (s s' : Service)
    → is_full c s ≡ false
    → SameCount s s'
    → InBounds c s
    → After (InBounds c) (InBounds c) c (process o s')
process-InBounds c unbound s s' e k h = ground (arith, k.started, k.total)
process-InBounds c (fetched none) s s' e k h = ground (arith, k.started, k.total)
process-InBounds c (fetched (some t)) s s' e k h = ground (arith, k.started, k.total)

turn-InBounds :
    (c : Limits) (r : Round) (s : Service)
    → InBounds c s
    → After (InBounds c) (InBounds c) c (turn c r s)
unfolding hand_out
turn-InBounds c r s h =
    let machines = get_available_machines r.faults r.at_listing in
    let s' = search r.fetch_faults r.now machines s in
    turn-After (InBounds c) (InBounds c) c r s h h
      (λ e. process-InBounds c s'.task s s' e (search-SameCount r.fetch_faults r.now machines s) h)

-- Whatever the loop of Scheduler.start meets, total_analysis_count is the number of analyses that
-- were started, and is at most maxcount if that is not 0.
pub serve-InBounds :
    (c : Limits) (rs : List Round) (tasks : List Task) → InBounds c (serve c rs (initial tasks)).1
serve-InBounds c rs tasks = ended _ (
    serve-AtEnd (InBounds c) (InBounds c) c (λ r. Unit) (λ r s g h. h)
      (λ r s g h. turn-InBounds c r s h) rs (initial tasks) (units rs) (refl, λ e. omega arith))
  where
    units : (rs : List Round) → All {0, 0} (λ r. Unit) rs
    units [] = tt
    units (r ∷ rs) = (tt, units rs)

    ended : (x : Ending × Service) → AtEnd (InBounds c) (InBounds c) c x → InBounds c x.1
    ended (Ending.unbound_local, s) h = h
    ended (Ending.stopped, s) h = h
    ended (Ending.error, s) h = h
    ended (Ending.waiting, s) h = h

-- Nothing was started twice, and nothing that was started is pending.
abbrev IsOnce : Service → Type 0
IsOnce s = Distinct s.started × All (Claimed s.started) s.tasks

-- A round in which `get_available_machines` finds a machine, the queries of `fetch` do not fail, and
-- no task that was handed out is made pending again by others.
pub record IsCalm (r : Round) : Type 0 where
  pub listed : is_empty (get_available_machines r.faults r.at_listing) ≡ false
  pub healthy : r.fetch_faults ≡ sound
  pub kept :
      (got : List ℕ) (ts : List Task) → All (Claimed got) ts → All (Claimed got) (r.others ts)

-- What `search` leaves for `process`.
record Searched (got : List ℕ) (s : Service) : Type 0 where
  found : Option Task
  task : s.task ≡ fetched found
  handed : Handed got found s.tasks
  started : s.started ≡ got
