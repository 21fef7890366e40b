-- ===== src/Database/Tasks.antt =====
-- The `tasks` table of lib/cuckoo/core/database.py: the queue that the scheduler fetches from.
-- Rows stand in the order in which the database returns them; times are numbers, and the epoch is 0.
pub mod Order
pub mod Queue
pub mod History
pub mod Transitions
pub mod Blocked
pub mod Tagging
pub mod Add
pub mod Added
mod Tests
mod AddTests
use text.Mathlib.Text.{find?}
use capev.Base.{
  ℕ, ◌==◌, String, str_eq, Bool, true, false, not, ◌&&◌, ◌||◌, Option, none, some, List, [], ◌∷◌,
  head?, keep, any, length, ltb, is_some, if◌then◌else◌,
}
use capev.Database.Sql.{Faults, truthy}
use capev.Database.Machines.{Machine}

-- `ALL_DB_STATUSES`
pub data Status : Type 0 where
  banned pending running distributed completed recovered reported : Status
  failed_analysis failed_processing failed_reporting distributed_completed : Status

pub Status-discrete : Discrete Status
Status-discrete = hlevel

pub record Task : Type 0 where
  pub id : ℕ
  pub category : String
  pub priority : ℕ
  pub options : Option String
  pub machine : Option String
  pub platform : Option String
  pub machine_id : Option ℕ
  pub sample_id : Option ℕ
  pub tags : List String
  pub clock : ℕ
  pub added_on : ℕ
  pub started_on : Option ℕ
  pub completed_on : Option ℕ
  pub status : Status
  pub user_id : Option ℕ

abbrev pub has_id : ℕ → Task → Bool
has_id i t = t.id == i

-- `session.query(Task).get(task_id)`
abbrev pub get_task : ℕ → List Task → Option Task
get_task i ts = head? (keep (has_id i) ts)

-- `session.commit()` of one changed object writes the row with its primary key.
unfoldable pub update_task : Task → List Task → List Task
update_task t [] = []
update_task t (r ∷ rs) = (if r.id == t.id then t else r) ∷ update_task t rs

abbrev pub is_pending : Status → Bool
is_pending pending = true
is_pending _ = false

abbrev stored_status : Status → Status → Status
stored_status old distributed_completed = old
stored_status old status = status

abbrev started_at : Status → ℕ → Option ℕ → Option ℕ
started_at running now old = some now
started_at distributed now old = some now
started_at _ now old = old

abbrev completed_at : Status → ℕ → Option ℕ → Option ℕ
completed_at completed now old = some now
completed_at distributed_completed now old = some now
completed_at _ now old = old

-- The three assignments of `set_status`.
unfoldable pub with_status : Status → ℕ → Task → Task
with_status status now t = record t {
  status = stored_status t.status status;
  started_on = started_at status now t.started_on;
  completed_on = completed_at status now t.completed_on;
}

-- A method that changes one row, if it is there and the database does not fail.
unfoldable pub change_task : Faults → (Task → Task) → ℕ → List Task → List Task
change_task f change i ts =
    if f.query || f.commit
    then ts
    else elim (get_task i ts) [ none ↦ ts | some t ↦ update_task (change t) ts ]

unfoldable pub set_status : Faults → ℕ → ℕ → Status → List Task → List Task
unfolding change_task with_status
set_status f now i status ts = change_task f (with_status status now) i ts

unfoldable pub set_task_vm : Faults → ℕ → String → ℕ → List Task → List Task
unfolding change_task
set_task_vm f i vmname vm_id ts =
    change_task f (λ t. record t { machine = some vmname; machine_id = some vm_id }) i ts

-- The row that `update_clock` commits. `now` is `datetime.utcnow()`, and `shifted` is `now` with the
-- configured `daydelta` days added.
abbrev pub with_clock : ℕ → ℕ → Task → Task
with_clock now shifted t =
    if t.clock == 0
    then record t { clock = if str_eq t.category "file" then shifted else now }
    else t

commit_clock : Faults → ℕ → ℕ → Option Task → List Task → Option ℕ × List Task
commit_clock f now shifted none ts = (none, ts)
commit_clock f now shifted (some t) ts =
    if t.clock == 0 && f.commit
    then (none, ts)
    else (some (with_clock now shifted t).clock, update_task (with_clock now shifted t) ts)

unfoldable pub update_clock : Faults → ℕ → ℕ → ℕ → List Task → Option ℕ × List Task
unfolding commit_clock
update_clock f now shifted i ts =
    commit_clock f now shifted (if f.query then none else get_task i ts) ts

abbrev pub has_tag : String → Task → Bool
has_tag name t = any (λ tag. str_eq tag name) t.tags

-- "node=" in the options; SQL's `not_` of a test on NULL does not pass the filter.
unfoldable pub is_local : Option String → Bool
is_local none = false
is_local (some options) = not (is_some (find? options "node="))

-- The condition on the tags.
unfoldable pub arch_matches : String → Task → Bool
arch_matches arch t =
    if is_some (find? arch "x64") then has_tag "x64" t || has_tag "x86" t else has_tag arch t

-- The filters of `fetch`.
abbrev pub is_eligible : Machine → Task → Bool
is_eligible m t = is_pending t.status && is_local t.options && arch_matches m.arch t

-- `order_by(Task.priority.desc(), Task.added_on)`: `a` comes strictly before `b`.
abbrev pub before : Task → Task → Bool
before a b = ltb b.priority a.priority || a.priority == b.priority && ltb a.added_on b.added_on

-- `.first()` of the ordered rows.
unfoldable pub first_ordered : List Task → Option Task
first_ordered [] = none
first_ordered (t ∷ ts) = elim (first_ordered ts) [
  | none ↦ some t
  | some u ↦ if before u t then some u else some t
]

-- `row.machine and row.machine != machine.label`
abbrev pub is_pinned_elsewhere : Machine → Task → Bool
is_pinned_elsewhere m t =
    truthy t.machine && not (elim t.machine [ none ↦ false | some label ↦ str_eq label m.label ])

-- The faults of the query, of the two nested methods, and of `session.refresh(row)`.
pub record FetchFaults : Type 0 where
  pub select : Bool
  pub status : Faults
  pub vm : Faults
  pub refresh : Bool

-- The rest of `fetch`, from the row that the query found.
unfoldable pub take_row :
    FetchFaults → ℕ → Machine → Option Task → List Task → Option Task × List Task
unfolding set_status set_task_vm
take_row f now m none ts = (none, ts)
take_row f now m (some row) ts =
    if is_pinned_elsewhere m row
    then (none, ts)
    else let ts' =
        set_task_vm f.vm row.id m.label m.id (set_status f.status now row.id running ts) in
      (if f.refresh then none else get_task row.id ts', ts')

unfoldable pub fetch : FetchFaults → ℕ → Machine → List Task → Option Task × List Task
unfolding take_row
fetch f now m ts =
    take_row f now m (if f.select then none else first_ordered (keep (is_eligible m) ts)) ts

abbrev pub belongs_to : ℕ → Task → Bool
belongs_to user t = elim t.user_id [ none ↦ false | some u ↦ u == user ]

-- The row that `ban_user_tasks` writes.
abbrev pub ban_row : ℕ → Task → Task
ban_row user t =
    if belongs_to user t && is_pending t.status then record t { status = banned } else t

unfoldable pub ban_user_tasks : ℕ → List Task → List Task
ban_user_tasks user [] = []
ban_user_tasks user (t ∷ ts) = ban_row user t ∷ ban_user_tasks user ts

abbrev same_status : Status → Status → Bool
same_status a b = elim (Status-discrete a b) [ yes h ↦ true | no h ↦ false ]

-- `mid` and `status` filter only if they are given; an id of 0 counts as not given.
unfoldable pub count_tasks : Faults → Option Status → ℕ → List Task → ℕ
count_tasks f status mid ts =
    if f.query
    then 0
    else length (
        keep
          (λ t.
            (mid == 0 || elim t.machine_id [ none ↦ false | some k ↦ k == mid ])
            && elim status [ none ↦ true | some s ↦ same_status t.status s ])
          ts)

-- Deleting a row that is not there raises a `SQLAlchemyError` of its own, so it fails too.
unfoldable pub delete_task : Faults → ℕ → List Task → Bool × List Task
delete_task f i ts =
    if f.query || f.commit || not (is_some (get_task i ts))
    then (false, ts)
    else (true, keep (λ t. not (has_id i t)) ts)
