-- ===== src/Scheduler/Launch/Acquire.antt =====
-- The machine lock over the loop of `acquire_machine` of lib/cuckoo/core/scheduler.py.
use capev.Base.{
  ℕ, zero, suc, ◌≡◌, refl, inl, inr, true, Option, none, some, List, [], ◌∷◌, subst, ◌==◌,
  Bool-cases,
}
use capev.Database.Machines.{Machine}
use capev.Scheduler.Exec.{is_operational, Result, ok, raised, blocked, continue}
use capev.Scheduler.World.{Task, World, Round, release_at}
use capev.Machinery.{availables}
use capev.Database.Sql.{Outcome, operational_error as no_match, returned as got}
use capev.Scheduler.Launch.{settle_round, acquire_machine}

-- The lock after a step, for each way in which the step can end; an exception is one that
-- `except CuckooOperationalError` catches.
abbrev pub Depths {ℓ} : {A : Type ℓ} → ℕ → ℕ → ℕ → Result A × World → Type 0
Depths ok_depth exc_depth wait_depth (ok _, w) = w.lock_depth ≡ ok_depth
Depths ok_depth exc_depth wait_depth (raised x, w) =
    (w.lock_depth ≡ exc_depth) × (is_operational x ≡ true)
Depths ok_depth exc_depth wait_depth (blocked, w) = w.lock_depth ≡ wait_depth

settle_round-Depths :
    (again : World → Result Machine × World) (o : Outcome (Option Machine) × List Machine) (d : ℕ)
    (w : World)
    → w.lock_depth ≡ suc d
    → ((v : World) → v.lock_depth ≡ d → Depths (suc d) (suc d) d (again v))
    → Depths (suc d) (suc d) d (settle_round again o w)
unfolding settle_round
settle_round-Depths again (no_match, ms) d w h k = (h, refl)
settle_round-Depths again (got (some m), ms) d w h k = h
settle_round-Depths again (got none, ms) d w h k =
    rw h (k (record w { machines = ms; lock_depth = d }) refl)

-- A machine, or an exception, comes with the lock held once more; a wait goes on without the lock.
pub acquire_machine-Depths :
    (task : Task) (rs : List Round) (w : World)
    → Depths (suc w.lock_depth) (suc w.lock_depth) w.lock_depth (acquire_machine task rs w)
unfolding acquire_machine
acquire_machine-Depths task [] w = refl
acquire_machine-Depths task (r ∷ rs) w = elim (Bool-cases (availables r.count r.table == 0)) [
  | inl e ↦ rw e (acquire_machine-Depths task rs (record w { machines = r.table }))
  | inr e ↦ rw e (
      settle_round-Depths (acquire_machine task rs) _ w.lock_depth _ refl (λ v q.
        subst (λ d. Depths (suc d) (suc d) d (acquire_machine task rs v)) q
          (acquire_machine-Depths task rs v)))
]

-- What the loop hands over leaves the flag as it was.
settle_round-unlocked :
    (again : World → Result Machine × World) (o : Outcome (Option Machine) × List Machine)
    (w : World)
    → ((v : World) → (again v).1.unlocked ≡ v.unlocked)
    → (settle_round again o w).1.unlocked ≡ w.unlocked
unfolding settle_round
settle_round-unlocked again (no_match, ms) w k = refl
settle_round-unlocked again (got (some m), ms) w k = refl
settle_round-unlocked again (got none, ms) w k = go w.lock_depth
  where
    go :
        (d : ℕ)
        → (continue (release_at d (record w { machines = ms })) (λ _. again)).1.unlocked
          ≡ w.unlocked
    go zero = refl
    go (suc d) = k (record w { machines = ms; lock_depth = d })

pub acquire_machine-unlocked :
    (task : Task) (rs : List Round) (w : World)
    → (acquire_machine task rs w).1.unlocked ≡ w.unlocked
unfolding acquire_machine
acquire_machine-unlocked task [] w = refl
acquire_machine-unlocked task (r ∷ rs) w = elim (Bool-cases (availables r.count r.table == 0)) [
  | inl e ↦ rw e (acquire_machine-unlocked task rs (record w { machines = r.table }))
  | inr e ↦
      rw e (settle_round-unlocked (acquire_machine task rs) _ _ (acquire_machine-unlocked task rs))
]
