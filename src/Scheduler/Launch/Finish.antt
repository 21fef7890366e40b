-- ===== src/Scheduler/Launch/Finish.antt =====
-- The `finally` clause of `launch_analysis` of lib/cuckoo/core/scheduler.py: the machine, the guest's
-- row and the analysis folder.
use capev.Base.{ℕ, ◌≡◌, ◌⊎◌, true, false, ◌||◌, none, some, arith, if◌then◌else◌}
use capev.Database.Machines.{Machine}
use capev.Database.Guests.{Guest, get_guest, guest_stop}
use capev.Machinery.{release}
use capev.Scheduler.Exec.{
  Exc, Result, ok, raised, blocked, dead_machine, continue, is_machine_error, is_not_implemented,
}
use capev.Scheduler.World.{Task, World, Env, untrack}
use capev.Scheduler.Launch.{wind_down, leave, cleanup}

-- The calls of the `finally` clause raise only what it catches, and the guest's row is there.
pub record IsQuiet (e : Env) (w : World) : Type 0 where
  pub dump :
      (e.dump ≡ none)
      ⊎ ((x : Exc) × (e.dump ≡ some x) × ((is_not_implemented x || is_machine_error x) ≡ true))
  pub stop : (e.stop ≡ none) ⊎ ((x : Exc) × (e.stop ≡ some x) × (is_machine_error x ≡ true))
  pub guest :
      (i : ℕ) × (g : Guest) × (w.guest_log ≡ some (some i)) × (get_guest i w.guests.rows ≡ some g)
  pub unroute : e.unroute ≡ none
  pub rmtree : e.rmtree ≡ none

-- What the clause leaves, in terms of what it found.
pub record Finished (e : Env) (m : Machine) (w : World) (r : Result (Unit {0}) × World)
    : Type 0 where
  pub outcome : r.0 ≡ (if w.dead_machine then raised dead_machine else ok tt)
  pub machines :
      r.1.machines
      ≡ (if w.dead_machine then w.machines else release e.release e.now m.label w.machines)
  pub storage : r.1.storage ≡ (if w.dead_machine then false else w.storage)
  pub tracked : r.1.tracked ≡ (untrack m.ip w).tracked

wind_down-ok :
    (e : Env) (task : Task) (m : Machine) (w : World)
    → IsQuiet e w
    → ((wind_down e task m w).0 ≡ ok tt)
      × ((wind_down e task m w).1.machines ≡ w.machines)
      × ((wind_down e task m w).1.storage ≡ w.storage)
      × ((wind_down e task m w).1.dead_machine ≡ w.dead_machine)
      × ((wind_down e task m w).1.tracked ≡ (untrack m.ip w).tracked)
unfolding wind_down guest_stop
wind_down-ok e task m w q = ground arith

leave-Finished :
    (e : Env) (m : Machine) (w : World)
    → e.rmtree ≡ none
    → ((leave e m w).0 ≡ (if w.dead_machine then raised dead_machine else ok tt))
      × ((leave e m w).1.machines
          ≡ (if w.dead_machine then w.machines else release e.release e.now m.label w.machines))
      × ((leave e m w).1.storage ≡ (if w.dead_machine then false else w.storage))
      × ((leave e m w).1.tracked ≡ w.tracked)
unfolding leave
leave-Finished e m w r = ground arith

-- If its calls raise at most what it catches, the finally clause ends a dead machine's analysis
-- by CuckooDeadMachine, with the folder removed and the machine kept, and any other with the
-- machine released and the folder kept; the ResultServer forgets the address in both cases.
pub cleanup-Finished :
    (e : Env) (task : Task) (m : Machine) (w : World)
    → IsQuiet e w
    → Finished e m w (cleanup e task m w)
unfolding cleanup
cleanup-Finished e task m w q = go (wind_down e task m w) (wind_down-ok e task m w q)
  where
    go :
        (r : Result (Unit {0}) × World)
        → ((r.0 ≡ ok tt)
            × (r.1.machines ≡ w.machines)
            × (r.1.storage ≡ w.storage)
            × (r.1.dead_machine ≡ w.dead_machine)
            × (r.1.tracked ≡ (untrack m.ip w).tracked))
        → Finished e m w (continue r (λ _. leave e m))
    go (ok a, v) h =
        let f = leave-Finished e m v q.rmtree in
        record {
          outcome = ground arith;
          machines = ground arith;
          storage = ground arith;
          tracked = ground arith;
        }
    go (raised x, v) h = ground arith
    go (blocked, v) h = ground arith
