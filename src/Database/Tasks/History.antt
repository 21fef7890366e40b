-- ===== src/Database/Tasks/History.antt =====
-- Histories of `fetch` of lib/cuckoo/core/database.py.
use capev.Base.{
  ℕ, ◌==◌, ◌≡◌, refl, ◌≢◌, ◌⊎◌, inl, inr, true, false, Option, none, some, List, [], ◌∷◌, arith,
  All, All-In, In, if◌then◌else◌, keep, In-keep, In-head, Bool-cases, member, Distinct, All-map,
}
use capev.Database.Sql.{healthy}
use capev.Database.Machines.{Machine}
use capev.Database.Tasks.{
  Task, running, is_eligible, is_pending, is_pinned_elsewhere, fetch, get_task, set_status,
  set_task_vm, update_task, with_status, has_id, take_row, first_ordered,
}
use capev.Database.Tasks.Order.{first_ordered-IsFirst}
use capev.Database.Tasks.Queue.{sound, get_task-In}

-- The machines that call `fetch`, each with its time; the ids of the tasks that they got, latest
-- first, and the table that is left.
abbrev pub note : Option Task → List ℕ → List ℕ
note none got = got
note (some t) got = t.id ∷ got

unfoldable pub serve : List (ℕ × Machine) → List ℕ → List Task → List ℕ × List Task
serve [] got ts = (got, ts)
serve ((now, m) ∷ rest) got ts =
    serve rest (note (fetch sound now m ts).0 got) (fetch sound now m ts).1

-- A row whose id has been handed out is not pending.
abbrev pub Claimed : List ℕ → Task → Type 0
Claimed got r = member r.id got ≡ true → is_pending r.status ≡ false

update_task-All :
    (P Q : Task → Type 0) (t : Task)
    → P t
    → ((r : Task) → r.id ≢ t.id → Q r → P r)
    → (ts : List Task) → All Q ts
    → All P (update_task t ts)
unfolding update_task
update_task-All P Q t pt other [] h = tt
update_task-All P Q t pt other (r ∷ rs) h =
    (choose (Bool-cases (r.id == t.id)), update_task-All P Q t pt other rs h.1)
  where
    choose : ((r.id == t.id) ≡ true) ⊎ ((r.id == t.id) ≡ false) → P (if r.id == t.id then t else r)
    choose (inl e) = rw e pt
    choose (inr e) = rw e (other r (ground arith) h.0)

set_status-Claimed :
    (now : ℕ) (t : Task) (got : List ℕ) (ts : List Task)
    → In t ts
    → All (Claimed got) ts
    → All (Claimed (t.id ∷ got)) (set_status healthy now t.id running ts)
unfolding set_status
set_status-Claimed now t got ts i h =
    let (u, e, k) = get_task-In t ts i in
    rw e (
      update_task-All (Claimed (t.id ∷ got)) (Claimed got) (with_status running now u) (λ _. refl)
        (λ r other g c. ground (arith, g, k)) ts h)

set_task_vm-Claimed :
    (m : Machine) (i : ℕ) (got : List ℕ) (ts : List Task)
    → All (Claimed got) ts
    → All (Claimed got) (set_task_vm healthy i m.label m.id ts)
unfolding set_task_vm
set_task_vm-Claimed m i got ts h = go (get_task i ts) refl
  where
    go :
        (o : Option Task)
        → get_task i ts ≡ o
        → All (Claimed got) (elim o [
          | none ↦ ts
          | some t ↦ update_task (record t { machine = some m.label; machine_id = some m.id }) ts
        ])
    go none e = h
    go (some t) e =
        update_task-All (Claimed got) (Claimed got) _
          (All-In (Claimed got) t ts h (In-keep (has_id i) t ts (In-head t _ e)).0) (λ r other c. c)
          ts h

-- What one `fetch` does to the ids that were handed out and to the table.
pub record Handed (got : List ℕ) (o : Option Task) (ts' : List Task) : Type 0 where
  pub distinct : Distinct (note o got)
  pub claims : All (Claimed (note o got)) ts'

get_task-Handed :
    (i : ℕ) (got : List ℕ) (ts : List Task) (o : Option Task)
    → Distinct got
    → member i got ≡ false
    → All (Claimed (i ∷ got)) ts
    → get_task i ts ≡ o
    → Handed got o ts
get_task-Handed i got ts none d new c e = record {
  distinct = d;
  claims = All-map _ _ (λ r h. ground (arith, h)) ts c;
}
get_task-Handed i got ts (some t) d new c e =
    let same : t.id ≡ i = ground (arith, In-keep (has_id i) t ts (In-head t _ e)) in
    record { distinct = rw same (new, d); claims = rw same c }

pub fetch-Handed :
    (now : ℕ) (m : Machine) (got : List ℕ) (ts : List Task)
    → Distinct got
    → All (Claimed got) ts
    → Handed got (fetch sound now m ts).0 (fetch sound now m ts).1
unfolding fetch
fetch-Handed now m got ts d c = go (first_ordered (keep (is_eligible m) ts)) refl
  where
    found :
        (t : Task)
        → first_ordered (keep (is_eligible m) ts) ≡ some t
        → In t ts × (is_eligible m t ≡ true)
    found t e = In-keep (is_eligible m) t ts (first_ordered-IsFirst _ t e).0

    go :
        (o : Option Task)
        → first_ordered (keep (is_eligible m) ts) ≡ o
        → Handed got (take_row sound now m o ts).0 (take_row sound now m o ts).1
    go none e = record { distinct = d; claims = c }
    go (some t) e = elim (Bool-cases (is_pinned_elsewhere m t)) [
      | inl pinned ↦ rw pinned (record { distinct = d; claims = c })
      | inr ours ↦
          let ts₁ = set_status healthy now t.id running ts in
          let claims =
            set_task_vm-Claimed m t.id (t.id ∷ got) ts₁
              (set_status-Claimed now t got ts (found t e).0 c) in
          rw ours (
            get_task-Handed t.id got (set_task_vm healthy t.id m.label m.id ts₁) _ d
              (ground (arith, All-In (Claimed got) t ts c (found t e).0, (found t e).1)) claims
              refl)
    ]

serve-Distinct :
    (calls : List (ℕ × Machine)) (got : List ℕ) (ts : List Task)
    → Distinct got
    → All (Claimed got) ts
    → Distinct (serve calls got ts).0
unfolding serve
serve-Distinct [] got ts d c = d
serve-Distinct ((now, m) ∷ rest) got ts d c =
    let h = fetch-Handed now m got ts d c in
    serve-Distinct rest (note (fetch sound now m ts).0 got) (fetch sound now m ts).1 h.distinct
      h.claims

pub nothing-Claimed : (ts : List Task) → All (Claimed []) ts
nothing-Claimed [] = tt
nothing-Claimed (t ∷ ts) = (λ h. cc, nothing-Claimed ts)

-- Over any sequence of fetches by any machines, with no database fault, no task is handed out
-- twice.
pub fetched_once : (calls : List (ℕ × Machine)) (ts : List Task) → Distinct (serve calls [] ts).0
fetched_once calls ts = serve-Distinct calls [] ts tt (nothing-Claimed ts)
