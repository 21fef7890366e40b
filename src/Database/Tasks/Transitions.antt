-- ===== src/Database/Tasks/Transitions.antt =====
-- The methods of lib/cuckoo/core/database.py that write the `tasks` table, and histories of their
-- calls.
use capev.Base.{
  ℕ, ◌==◌, ◌≡◌, refl, ◌≢◌, ◌⊎◌, inl, inr, Bool, true, false, not, ◌||◌, ◌&&◌, Option, none, some,
  List, [], ◌∷◌, arith, All, All-In, if◌then◌else◌, keep, In-keep, In-head, Bool-cases, String,
  keep-All, is_some, ◌++◌,
}
use capev.Database.Sql.{Faults}
use capev.Database.Machines.{Machine}
use capev.Database.Tasks.{
  Task, Status, running, distributed_completed, is_eligible, is_pinned_elsewhere, fetch, take_row,
  FetchFaults, get_task, set_status, set_task_vm, change_task, update_task, with_status, has_id,
  first_ordered, ban_user_tasks, delete_task, update_clock, commit_clock, with_clock,
}
use capev.Database.Tasks.Add.{
  Context, AddFaults, Submission, Target, Sample, Store, Added, added, not_added, raised, add,
}
use capev.Database.Tasks.Added.{Reports, add-Reports}

-- The calls that write the table, with their faults and times.
pub data Call : Type 0 where
  set_status_call : Faults → ℕ → ℕ → Status → Call
  set_task_vm_call : Faults → ℕ → String → ℕ → Call
  fetch_call : FetchFaults → ℕ → Machine → Call
  update_clock_call : Faults → ℕ → ℕ → ℕ → Call
  ban_call : ℕ → Call
  delete_call : Faults → ℕ → Call
  add_call : Context → AddFaults → Submission → Target → List Sample → Call

unfoldable pub perform : Call → List Task → List Task
perform (set_status_call f now i s) ts = set_status f now i s ts
perform (set_task_vm_call f i vm k) ts = set_task_vm f i vm k ts
perform (fetch_call f now m) ts = (fetch f now m ts).1
perform (update_clock_call f now shifted i) ts = (update_clock f now shifted i ts).1
perform (ban_call user) ts = ban_user_tasks user ts
perform (delete_call f i) ts = (delete_task f i ts).1
perform (add_call c f s t samples) ts =
    (add c f s t (record { samples = samples; tasks = ts })).1.tasks

unfoldable pub perform_all : List Call → List Task → List Task
perform_all [] ts = ts
perform_all (c ∷ cs) ts = perform_all cs (perform c ts)

-- The column's enumeration has no `distributed_completed`.
abbrev pub IsStorable : Task → Type 0
IsStorable t = t.status ≢ distributed_completed

-- A property of rows that one changed row keeps.
update_task-keeps :
    (P : Task → Type 0) (t : Task) (ts : List Task) → P t → All P ts → All P (update_task t ts)
unfolding update_task
update_task-keeps P t [] pt h = tt
update_task-keeps P t (r ∷ rs) pt h =
    (choose (Bool-cases (r.id == t.id)), update_task-keeps P t rs pt h.1)
  where
    choose : ((r.id == t.id) ≡ true) ⊎ ((r.id == t.id) ≡ false) → P (if r.id == t.id then t else r)
    choose (inl e) = rw e pt
    choose (inr e) = rw e h.0

change_task-keeps :
    (P : Task → Type 0) (f : Faults) (change : Task → Task) (i : ℕ) (ts : List Task)
    → ((t : Task) → P t → P (change t))
    → All P ts
    → All P (change_task f change i ts)
unfolding change_task
change_task-keeps P f change i ts step h = go (f.query || f.commit) refl (get_task i ts) refl
  where
    go :
        (b : Bool)
        → (f.query || f.commit) ≡ b
        → (o : Option Task) → get_task i ts ≡ o
        → All P (if b then ts else elim o [ none ↦ ts | some t ↦ update_task (change t) ts ])
    go true _ o e = h
    go false _ none e = h
    go false _ (some t) e =
        update_task-keeps P (change t) ts
          (step t (All-In P t ts h (In-keep (has_id i) t ts (In-head t _ e)).0)) h

with_status-IsStorable :
    (s : Status) (now : ℕ) (t : Task) → IsStorable t → IsStorable (with_status s now t)
unfolding with_status
with_status-IsStorable distributed_completed now t h = h
with_status-IsStorable _ now t h = λ e. cc

set_status-IsStorable :
    (f : Faults) (now i : ℕ) (s : Status) (ts : List Task)
    → All IsStorable ts
    → All IsStorable (set_status f now i s ts)
unfolding set_status
set_status-IsStorable f now i s ts h =
    change_task-keeps IsStorable f _ i ts (with_status-IsStorable s now) h

set_task_vm-IsStorable :
    (f : Faults) (i : ℕ) (vm : String) (k : ℕ) (ts : List Task)
    → All IsStorable ts
    → All IsStorable (set_task_vm f i vm k ts)
unfolding set_task_vm
set_task_vm-IsStorable f i vm k ts h = change_task-keeps IsStorable f _ i ts (λ t p. p) h

take_row-IsStorable :
    (f : FetchFaults) (now : ℕ) (m : Machine) (o : Option Task) (ts : List Task)
    → All IsStorable ts
    → All IsStorable (take_row f now m o ts).1
unfolding take_row
take_row-IsStorable f now m none ts h = h
take_row-IsStorable f now m (some t) ts h = elim (Bool-cases (is_pinned_elsewhere m t)) [
  | inl e ↦ rw e h
  | inr e ↦ rw e (
      set_task_vm-IsStorable f.vm t.id m.label m.id _
        (set_status-IsStorable f.status now t.id running ts h))
]

ban-IsStorable :
    (user : ℕ) (ts : List Task) → All IsStorable ts → All IsStorable (ban_user_tasks user ts)
unfolding ban_user_tasks
ban-IsStorable user [] h = tt
ban-IsStorable user (t ∷ ts) h = (λ e. ground (arith, h.0), ban-IsStorable user ts h.1)

fetch-IsStorable :
    (f : FetchFaults) (now : ℕ) (m : Machine) (ts : List Task)
    → All IsStorable ts
    → All IsStorable (fetch f now m ts).1
unfolding fetch
fetch-IsStorable f now m ts h =
    take_row-IsStorable f now m (if f.select then none else first_ordered (keep (is_eligible m) ts))
      ts h

clock-IsStorable :
    (f : Faults) (now shifted i : ℕ) (ts : List Task)
    → All IsStorable ts
    → All IsStorable (update_clock f now shifted i ts).1
unfolding update_clock
clock-IsStorable f now shifted i ts h = elim (Bool-cases f.query) [
  | inl e ↦ rw e h
  | inr e ↦ rw e (go (get_task i ts) refl)
]
  where
    go : (o : Option Task) → get_task i ts ≡ o → All IsStorable (commit_clock f now shifted o ts).1
    go none e = h
    go (some t) e =
        let i_in = (In-keep (has_id i) t ts (In-head t _ e)).0 in
        let p : IsStorable (with_clock now shifted t) =
          λ q. ground (arith, All-In IsStorable t ts h i_in) in
        elim (Bool-cases (t.clock == 0 && f.commit)) [
          | inl c ↦ rw c h
          | inr c ↦ rw c (update_task-keeps IsStorable (with_clock now shifted t) ts p h)
        ]

delete-IsStorable :
    (f : Faults) (i : ℕ) (ts : List Task)
    → All IsStorable ts
    → All IsStorable (delete_task f i ts).1
unfolding delete_task
delete-IsStorable f i ts h =
    elim (Bool-cases (f.query || f.commit || not (is_some (get_task i ts)))) [
      | inl e ↦ rw e h
      | inr e ↦ rw e (keep-All IsStorable _ ts h)
    ]

append-IsStorable :
    (ts : List Task) (row : Task)
    → All IsStorable ts
    → IsStorable row
    → All IsStorable (ts ++ (row ∷ []))
append-IsStorable [] row h g = (g, tt)
append-IsStorable (t ∷ ts) row h g = (h.0, append-IsStorable ts row h.1 g)

Reports-IsStorable :
    (lost : Bool) (r : Added) (ts ts' : List Task)
    → Reports lost r IsStorable ts ts'
    → All IsStorable ts
    → All IsStorable ts'
Reports-IsStorable lost (added i) ts ts' (row, e, (same, p)) h = rw e (append-IsStorable ts row h p)
Reports-IsStorable lost not_added ts ts' (inl e) h = rw e h
Reports-IsStorable lost not_added ts ts' (inr (h', (row, e, p))) h =
    rw e (append-IsStorable ts row h p)
Reports-IsStorable lost raised ts ts' e h = rw e h

perform-IsStorable : (c : Call) (ts : List Task) → All IsStorable ts → All IsStorable (perform c ts)
unfolding perform
perform-IsStorable (set_status_call f now i s) ts h = set_status-IsStorable f now i s ts h
perform-IsStorable (set_task_vm_call f i vm k) ts h = set_task_vm-IsStorable f i vm k ts h
perform-IsStorable (fetch_call f now m) ts h = fetch-IsStorable f now m ts h
perform-IsStorable (update_clock_call f now shifted i) ts h = clock-IsStorable f now shifted i ts h
perform-IsStorable (ban_call user) ts h = ban-IsStorable user ts h
perform-IsStorable (delete_call f i) ts h = delete-IsStorable f i ts h
perform-IsStorable (add_call c f s t samples) ts h =
    let st : Store = record { samples = samples; tasks = ts } in
    Reports-IsStorable f.task_id (add c f s t st).0 ts (add c f s t st).1.tasks
      (add-Reports IsStorable c f s t st (λ sample e. absurd (ground arith))) h

-- Whatever methods are called and whatever fails, no row gets the status distributed_completed,
-- which the column lacks, if none has it at first.
pub perform_all-IsStorable :
    (cs : List Call) (ts : List Task) → All IsStorable ts → All IsStorable (perform_all cs ts)
unfolding perform_all
perform_all-IsStorable [] ts h = h
perform_all-IsStorable (c ∷ cs) ts h =
    perform_all-IsStorable cs (perform c ts) (perform-IsStorable c ts h)
