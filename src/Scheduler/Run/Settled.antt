-- ===== src/Scheduler/Run/Settled.antt =====
-- What `AnalysisManager.run` of lib/cuckoo/core/scheduler.py leaves.
use capev.Base.{ℕ, ◌+◌, ◌≡◌, refl, ◌≢◌, ◌∙◌, Bool, none, List, [], ◌∷◌, All, arith}
use capev.Database.Sql.{Faults}
use capev.Scheduler.Exec.{Exc, Result, ok, raised, blocked}
use capev.Scheduler.World.{World, Env, Task}
use capev.Scheduler.Launch.{launch_analysis}
use capev.Scheduler.Launch.Balance.{IsContained, launch_analysis-lock}
use capev.Scheduler.Run.{retry, launch_until, Program, conclude, run}

-- An attempt that keeps the machine lock balanced.
abbrev pub IsSafe : Env → Type 0
IsSafe e = IsContained e × (e.build_options ≡ none)

launch_until-lock :
    (es : List Env) (task : Task) (w : World)
    → All IsSafe es
    → (launch_until es task w).1.lock_depth ≡ w.lock_depth
unfolding launch_until
launch_until-lock [] task w h = refl
launch_until-lock (e ∷ es) task w h =
    go (launch_analysis e task w) (launch_analysis-lock e task w h.0.0 h.0.1)
      (λ v. launch_until-lock es task v h.1)
  where
    go :
        (r : Result Bool × World)
        → r.1.lock_depth ≡ w.lock_depth
        → ((v : World) → (launch_until es task v).1.lock_depth ≡ v.lock_depth)
        → (retry (launch_until es task) r).1.lock_depth ≡ w.lock_depth
    go (ok b, v) q more = q
    go (raised Exc.dead_machine, v) q more = more v ∙ q
    go (raised Exc.machine_error, v) q more = q
    go (raised Exc.network_error, v) q more = q
    go (raised Exc.guest_error, v) q more = q
    go (raised Exc.operational_error, v) q more = q
    go (raised Exc.critical_error, v) q more = q
    go (raised Exc.not_implemented, v) q more = q
    go (raised Exc.other_error, v) q more = q
    go (blocked, v) q more = q

-- If each attempt raises at most the exceptions that launch_analysis names and its options can be
-- built, and the attempts come to an end, then run leaves active_analysis_count and the machine
-- lock as it found them, whatever number of dead machines it meets.
pub run-settled :
    (es : List Env) (f : Faults) (now : ℕ) (task : Task) (p : Program)
    → All IsSafe es
    → (launch_until es task p.world).0 ≢ blocked
    → ((run es f now task p).active ≡ p.active)
      × ((run es f now task p).world.lock_depth ≡ p.world.lock_depth)
unfolding run
run-settled es f now task p h ends =
    go (launch_until es task p.world) ends (launch_until-lock es task p.world h)
  where
    go :
        (r : Result Bool × World)
        → r.0 ≢ blocked
        → r.1.lock_depth ≡ p.world.lock_depth
        → let q = conclude f now task r (record p { active = p.active + 1 }) in
          (q.active ≡ p.active) × (q.world.lock_depth ≡ p.world.lock_depth)
    go (ok b, w) n l = (omega arith, l)
    go (raised e, w) n l = (omega arith, l)
    go (blocked, w) n l = absurd (n refl)
