-- ===== src/Database/Tasks/Queue.antt =====
-- Which task `fetch` of lib/cuckoo/core/database.py returns to a machine.
use capev.Base.{
  ℕ, ◌==◌, ◌≡◌, refl, ◌≢◌, inl, inr, true, false, Option, none, some, List, [], ◌∷◌, arith, All, In,
  keep, In-keep, Bool-cases, All-In,
}
use capev.Database.Sql.{healthy}
use capev.Database.Machines.{Machine}
use capev.Database.Tasks.{
  Task, running, first_ordered, is_eligible, is_pinned_elsewhere, FetchFaults, fetch, get_task,
  set_status, set_task_vm, update_task, with_status,
}
use capev.Database.Tasks.Order.{IsFirst, first_ordered-IsFirst}

-- No fault in `fetch`.
abbrev pub sound : FetchFaults
sound = record { select = false; status = healthy; vm = healthy; refresh = false }

-- The row as `fetch` leaves it.
abbrev pub claimed : ℕ → Machine → Task → Task
claimed now m t = record t {
  status = running;
  started_on = some now;
  machine = some m.label;
  machine_id = some m.id;
}

get_task-update :
    (t : Task) (ts : List Task) (u : Task)
    → get_task t.id ts ≡ some u
    → get_task t.id (update_task t ts) ≡ some t
unfolding update_task
get_task-update t [] u e = cc
get_task-update t (r ∷ rs) u e = ground (arith, get_task-update t rs u)

pub get_task-In :
    (t : Task) (ts : List Task) → In t ts → (u : Task) × (get_task t.id ts ≡ some u) × (u.id ≡ t.id)
get_task-In t [] i = absurd i
get_task-In t (r ∷ rs) (inl e) = (r, ground arith, ground arith)
get_task-In t (r ∷ rs) (inr i) = elim (Bool-cases (r.id == t.id)) [
  | inl e ↦ (r, ground arith, ground arith)
  | inr e ↦ let (u, q, k) = get_task-In t rs i in (u, ground arith, k)
]

-- Distinct primary keys.
abbrev pub IsKeyed : List Task → Type 0
IsKeyed [] = Unit
IsKeyed (t ∷ ts) = All (λ r. r.id ≢ t.id) ts × IsKeyed ts

get_task_self : (t : Task) (ts : List Task) → IsKeyed ts → In t ts → get_task t.id ts ≡ some t
get_task_self t [] k i = absurd i
get_task_self t (r ∷ rs) k (inl e) = ground arith
get_task_self t (r ∷ rs) k (inr i) =
    ground (arith, get_task_self t rs, All-In (λ q. q.id ≢ r.id) t rs k.0 i)

-- What the nested `set_status` and `set_task_vm` leave of the claimed row.
pub get_task-claimed :
    (now : ℕ) (m : Machine) (t : Task) (ts : List Task)
    → IsKeyed ts
    → In t ts
    → get_task t.id (set_task_vm healthy t.id m.label m.id (set_status healthy now t.id running ts))
      ≡ some (claimed now m t)
unfolding set_task_vm set_status
get_task-claimed now m t ts k i = ground (
  arith,
  get_task_self t ts k i,
  get_task-update (with_status running now t) ts t,
  get_task-update (claimed now m t) (update_task (with_status running now t) ts)
      (with_status running now t),
)

-- With distinct ids and no database fault, the task that fetch returns was a pending one that the
-- machine can run, first by priority and submission time, not bound to another machine, and comes
-- back running and assigned to the machine.
pub fetch-IsFirst :
    (now : ℕ) (m : Machine) (ts ts' : List Task) (t' : Task)
    → IsKeyed ts
    → fetch sound now m ts ≡ (some t', ts')
    → (t : Task) × In t ts
      × (is_eligible m t ≡ true)
      × IsFirst t (keep (is_eligible m) ts)
      × (is_pinned_elsewhere m t ≡ false)
      × (t' ≡ claimed now m t)
unfolding fetch
fetch-IsFirst now m ts ts' t' k h = go (first_ordered (keep (is_eligible m) ts)) refl
  where
    go :
        (o : Option Task)
        → first_ordered (keep (is_eligible m) ts) ≡ o
        → (t : Task) × In t ts
          × (is_eligible m t ≡ true)
          × IsFirst t (keep (is_eligible m) ts)
          × (is_pinned_elsewhere m t ≡ false)
          × (t' ≡ claimed now m t)
    go none e = absurd (ground arith)
    go (some t) e =
        let (i, first) = first_ordered-IsFirst (keep (is_eligible m) ts) t e in
        let (there, eligible) = In-keep (is_eligible m) t ts i in
        (
          t,
          there,
          eligible,
          first,
          ground arith,
          ground (arith, get_task-claimed now m t ts k there),
        )
