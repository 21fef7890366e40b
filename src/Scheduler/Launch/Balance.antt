-- ===== src/Scheduler/Launch/Balance.antt =====
-- The machine lock over one `launch_analysis` of lib/cuckoo/core/scheduler.py.
use capev.Base.{
  ℕ, suc, ◌≡◌, refl, ◌⊎◌, inr, Bool, true, false, ◌||◌, Option, none, some, ap, arith, ◌≢◌, ◌∙◌,
}
use capev.Database.Machines.{Machine}
use capev.Database.Guests.{guest_start}
use capev.Scheduler.Exec.{
  Exc, Result, ok, raised, blocked, handle, run_cleanup, continue, is_machine_error,
  is_network_error, is_guest_error,
}
use capev.Scheduler.World.{Task, World, Env}
use capev.Scheduler.Launch.Acquire.{Depths, acquire_machine-Depths, acquire_machine-unlocked}
use capev.Scheduler.Launch.{
  acquire_machine, register, start_up, analyse, guarded, handler, is_handled, leave, wind_down,
  cleanup, analysis, with_machine, launch_analysis, category_checks, init_storage, proceed, reset,
  found_machine, go_on,
}

-- The exceptions for which `launch_analysis` has a clause.
abbrev pub contained : Option Exc → Bool
contained none = true
contained (some x) = is_machine_error x || is_network_error x || is_guest_error x

-- The start-up calls raise nothing but what the `except` clauses name.
pub record IsContained (e : Env) : Type 0 where
  pub task_there : e.task_exists ≡ true
  pub start : contained e.start ≡ true
  pub route : contained e.route ≡ true

-- The lock and the flag after the start-up.
abbrev StartedUp : ℕ → Result (Unit {0}) × World → Type 0
StartedUp d (ok _, w) = (w.lock_depth ≡ d) × (w.unlocked ≡ true)
StartedUp d (raised x, w) =
    (w.lock_depth ≡ suc d) × (w.unlocked ≡ false) × (contained (some x) ≡ true)
StartedUp d (blocked, w) = ⊥

-- The lock after the `try` body: given back, or still held under an exception that is handled.
abbrev Guarded : ℕ → Result (Unit {0}) × World → Type 0
Guarded d (ok _, w) = w.lock_depth ≡ d
Guarded d (raised x, w) =
    ((w.lock_depth ≡ d) × (w.unlocked ≡ true))
    ⊎ ((w.lock_depth ≡ suc d) × (w.unlocked ≡ false) × (contained (some x) ≡ true))
Guarded d (blocked, w) = ⊥

start_up-StartedUp :
    (e : Env) (task : Task) (m : Machine) (d : ℕ) (w : World)
    → IsContained e
    → w.lock_depth ≡ suc d
    → w.unlocked ≡ false
    → StartedUp d (start_up e task m w)
unfolding start_up guest_start
start_up-StartedUp e task m d w c h u = ground arith

register-keeps :
    (e : Env) (task : Task) (m : Machine) (w : World)
    → ((register e task m w).0 ≡ ok tt)
      × ((register e task m w).1.lock_depth ≡ w.lock_depth)
      × ((register e task m w).1.unlocked ≡ w.unlocked)
unfolding register
register-keeps e task m w = ground arith

analyse-keeps :
    (e : Env) (task : Task) (w : World)
    → ((analyse e task w).1.lock_depth ≡ w.lock_depth)
      × ((analyse e task w).1.unlocked ≡ w.unlocked)
unfolding analyse
analyse-keeps e task w = ground arith

leave-keeps : (e : Env) (m : Machine) (w : World) → (leave e m w).1.lock_depth ≡ w.lock_depth
unfolding leave
leave-keeps e m w = ground arith

wind_down-keeps :
    (e : Env) (task : Task) (m : Machine) (w : World)
    → (wind_down e task m w).1.lock_depth ≡ w.lock_depth
unfolding wind_down
wind_down-keeps e task m w = ground arith

bind-keeps :
    {A B : Type 0} (r : Result A × World) (f : A → World → Result B × World) (d : ℕ)
    → r.1.lock_depth ≡ d
    → ((a : A) (v : World) → (f a v).1.lock_depth ≡ v.lock_depth)
    → (continue r f).1.lock_depth ≡ d
bind-keeps (ok a, v) f d h k = k a v ∙ h
bind-keeps (raised x, v) f d h k = h
bind-keeps (blocked, v) f d h k = h

cleanup-keeps :
    (e : Env) (task : Task) (m : Machine) (w : World)
    → (cleanup e task m w).1.lock_depth ≡ w.lock_depth
unfolding cleanup
cleanup-keeps e task m w =
    bind-keeps (wind_down e task m w) (λ _. leave e m) w.lock_depth (wind_down-keeps e task m w)
      (λ _ v. leave-keeps e m v)

analyse-Guarded :
    (e : Env) (task : Task) (d : ℕ) (w : World)
    → w.lock_depth ≡ d
    → w.unlocked ≡ true
    → Guarded d (analyse e task w)
unfolding analyse
analyse-Guarded e task d w h u = ground arith

guarded-Guarded :
    (e : Env) (task : Task) (m : Machine) (d : ℕ) (w : World)
    → StartedUp d (start_up e task m w)
    → Guarded d (guarded e task m w)
unfolding guarded
guarded-Guarded e task m d w h = go (start_up e task m w) h
  where
    go :
        (r : Result (Unit {0}) × World)
        → StartedUp d r
        → Guarded d (continue r (λ _. analyse e task))
    go (ok tt, v) h = analyse-Guarded e task d v h.0 h.1
    go (raised x, v) h = inr h
    go (blocked, v) h = absurd h

-- Once the handlers have run, the lock has been given back.
handled-lock :
    (r : Result (Unit {0}) × World) (d : ℕ)
    → Guarded d r
    → ((handle is_handled handler r).1.lock_depth ≡ d) × ((handle is_handled handler r).0 ≢ blocked)
unfolding handler is_handled
handled-lock (ok a, w) d h = (h, λ e. cc)
handled-lock (raised x, w) d h = (ground arith, ground arith)
handled-lock (blocked, w) d h = absurd h

cleanup-settle :
    (e : Env) (task : Task) (m : Machine) (d : ℕ) (r : Result (Unit {0}) × World)
    → r.1.lock_depth ≡ d
    → (run_cleanup (cleanup e task m) r).1.lock_depth ≡ d
cleanup-settle e task m d (ok a, w) h = ground (arith, cleanup-keeps e task m w)
cleanup-settle e task m d (raised x, w) h = ground (arith, cleanup-keeps e task m w)
cleanup-settle e task m d (blocked, w) h = h

analysis-lock :
    (e : Env) (task : Task) (m : Machine) (d : ℕ) (w : World)
    → w.lock_depth ≡ suc d
    → w.unlocked ≡ false
    → IsContained e
    → (analysis e task m w).1.lock_depth ≡ d
unfolding analysis
analysis-lock e task m d w h u c =
    cleanup-settle e task m d _
      (handled-lock (guarded e task m w) d
        (guarded-Guarded e task m d w (start_up-StartedUp e task m d w c h u))).0

with_machine-lock :
    (e : Env) (task : Task) (m : Machine) (d : ℕ) (w : World)
    → w.lock_depth ≡ suc d
    → w.unlocked ≡ false
    → IsContained e
    → e.build_options ≡ none
    → (with_machine e task m w).1.lock_depth ≡ d
unfolding with_machine
with_machine-lock e task m d w h u c b =
    let (done, depth, flag) = register-keeps e task m w in
    let a = analysis-lock e task m d (register e task m w).1 (depth ∙ h) (flag ∙ u) c in
    rw b (ground (arith, done, a))

proceed-lock :
    (e : Env) (task : Task) (early : Option Bool) (w : World)
    → w.unlocked ≡ false
    → IsContained e
    → e.build_options ≡ none
    → (proceed e task early w).1.lock_depth ≡ w.lock_depth
proceed-lock e task (some b) w u c o = refl
proceed-lock e task none w u c o =
    go (acquire_machine task e.rounds w) (acquire_machine-Depths task e.rounds w)
      (acquire_machine-unlocked task e.rounds w)
  where
    go :
        (r : Result Machine × World)
        → Depths (suc w.lock_depth) (suc w.lock_depth) w.lock_depth r
        → r.1.unlocked ≡ w.unlocked
        → (continue (found_machine r) (go_on e task)).1.lock_depth ≡ w.lock_depth
    go (ok m, v) h f = with_machine-lock e task m w.lock_depth v h (f ∙ u) c o
    go (raised x, v) h f = rw h.1 (rw h.0)
    go (blocked, v) h f = h

category_checks-keeps : (e : Env) (task : Task) (w : World) → (category_checks e task w).1 ≡ w
unfolding category_checks
category_checks-keeps e task w = ground arith

checked-lock :
    (e : Env) (task : Task) (w : World)
    → w.unlocked ≡ false
    → IsContained e
    → e.build_options ≡ none
    → (continue (category_checks e task w) (proceed e task)).1.lock_depth ≡ w.lock_depth
checked-lock e task w u c o = go (category_checks e task w) (category_checks-keeps e task w)
  where
    go :
        (r : Result (Option Bool) × World)
        → r.1 ≡ w
        → (continue r (proceed e task)).1.lock_depth ≡ w.lock_depth
    go (ok early, v) h =
        proceed-lock e task early v (ap (λ x. x.unlocked) h ∙ u) c o ∙ ap (λ x. x.lock_depth) h
    go (raised x, v) h = ap (λ x. x.lock_depth) h
    go (blocked, v) h = ap (λ x. x.lock_depth) h

-- If the start-up raises at most the exceptions that launch_analysis names and the options can be
-- built, the thread leaves machine_lock as it found it on every path.
pub launch_analysis-lock :
    (e : Env) (task : Task) (w : World)
    → IsContained e
    → e.build_options ≡ none
    → (launch_analysis e task w).1.lock_depth ≡ w.lock_depth
unfolding launch_analysis init_storage
launch_analysis-lock e task w c o = ground (
  arith,
  checked-lock e task (reset w) refl c o,
  checked-lock e task (record (reset w) { storage = true }) refl c o,
)

start_up-raises :
    (e : Env) (task : Task) (m : Machine) (d : ℕ) (w : World) (x : Exc)
    → w.lock_depth ≡ suc d
    → e.task_exists ≡ true
    → (e.start ≡ some x) ⊎ ((e.start ≡ none) × (e.route ≡ some x))
    → ((start_up e task m w).0 ≡ raised x) × ((start_up e task m w).1.lock_depth ≡ suc d)
unfolding start_up guest_start
start_up-raises e task m d w x h t raises = ground arith

unhandled :
    (e : Env) (task : Task) (x : Exc) (r : Result (Unit {0}) × World) (d : ℕ)
    → contained (some x) ≡ false
    → r.0 ≡ raised x
    → r.1.lock_depth ≡ d
    → (handle is_handled handler (continue r (λ _. analyse e task))).1.lock_depth ≡ d
unfolding is_handled
unhandled e task x (ok a, v) d c q h = cc
unhandled e task x (raised y, v) d c q h = ground arith
unhandled e task x (blocked, v) d c q h = cc

-- If the machine's start or the routing raises an exception that launch_analysis does not name,
-- the lock is still held at the end of the analysis.
start_up_error_keeps_lock :
    (e : Env) (task : Task) (m : Machine) (d : ℕ) (w : World) (x : Exc)
    → w.lock_depth ≡ suc d
    → w.unlocked ≡ false
    → e.task_exists ≡ true
    → contained (some x) ≡ false
    → (e.start ≡ some x) ⊎ ((e.start ≡ none) × (e.route ≡ some x))
    → (analysis e task m w).1.lock_depth ≡ suc d
unfolding analysis guarded
start_up_error_keeps_lock e task m d w x h u t c raises =
    let (r, k) = start_up-raises e task m d w x h t raises in
    cleanup-settle e task m (suc d) _ (unhandled e task x (start_up e task m w) (suc d) c r k)
