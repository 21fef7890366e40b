-- ===== src/Database/Guests.antt =====
-- The `guests` table of lib/cuckoo/core/database.py: one row for each guest that was started.
pub mod Lifecycle
mod Tests
use capev.Base.{
  ℕ, suc, ◌+◌, ◌==◌, String, Bool, true, false, not, ◌&&◌, ◌||◌, Option, none, some, List, [], ◌∷◌,
  ◌++◌, head?, keep, any, is_some, if◌then◌else◌,
}
use capev.Database.Sql.{Faults}

pub record Guest : Type 0 where
  pub id : ℕ
  pub status : String
  pub name : String
  pub label : String
  pub manager : String
  pub started_on : ℕ
  pub shutdown_on : Option ℕ
  pub task_id : ℕ

-- The table with the id of its next row.
pub record Guests : Type 0 where
  pub rows : List Guest
  pub next_id : ℕ

abbrev pub of_task : ℕ → Guest → Bool
of_task i g = g.task_id == i

abbrev pub has_id : ℕ → Guest → Bool
has_id i g = g.id == i

-- `session.query(Guest).filter_by(task_id=task_id).first()`
abbrev pub find_guest : ℕ → List Guest → Option Guest
find_guest task_id gs = head? (keep (of_task task_id) gs)

-- `session.query(Guest).get(guest_id)`
abbrev pub get_guest : ℕ → List Guest → Option Guest
get_guest i gs = head? (keep (has_id i) gs)

unfoldable pub update_guest : Guest → List Guest → List Guest
update_guest g [] = []
update_guest g (r ∷ rs) = (if r.id == g.id then g else r) ∷ update_guest g rs

-- A method returns, or an `AttributeError` leaves it.
pub data Reply {ℓ} (A : Type ℓ) : Type ℓ where
  returned : A → Reply A
  attribute_error : Reply A

abbrev new_guest : ℕ → ℕ → ℕ → String → String → String → Guest
new_guest i now task_id name label manager = record {
  id = i;
  status = "init";
  name = name;
  label = label;
  manager = manager;
  started_on = now;
  shutdown_on = none;
  task_id = task_id;
}

-- `task_exists` says whether `session.query(Task).get(task_id)` finds the task. The column `task_id`
-- is unique and not null, so the commit fails where the task has a guest already.
unfoldable pub guest_start :
    Faults → ℕ → Bool → ℕ → String → String → String → Guests → Reply (Option ℕ) × Guests
guest_start f now task_exists task_id name label manager g =
    if f.query
    then (returned none, g)
    else if not task_exists
    then (attribute_error, g)
    else if f.commit || any (of_task task_id) g.rows
    then (returned none, g)
    else (
      returned (if f.refresh then none else some g.next_id),
      record {
        rows = new_guest g.next_id now task_id name label manager ∷ g.rows;
        next_id = suc g.next_id;
      },
    )

unfoldable pub guest_get_status : Faults → ℕ → Guests → Option String
guest_get_status f task_id g =
    if f.query
    then none
    else elim (find_guest task_id g.rows) [ none ↦ none | some r ↦ some r.status ]

write_guest : Faults → Option Guest → Guests → Guests
write_guest f none g = g
write_guest f (some r) g = if f.commit then g else record g { rows = update_guest r g.rows }

abbrev with_status : String → Option Guest → Option Guest
with_status status none = none
with_status status (some r) = some (record r { status = status })

unfoldable pub guest_set_status : Faults → ℕ → String → Guests → Guests
unfolding write_guest
guest_set_status f task_id status g =
    if f.query then g else write_guest f (with_status status (find_guest task_id g.rows)) g

-- Deleting a row that is not there raises a `SQLAlchemyError`, which the method catches.
unfoldable pub guest_remove : Faults → ℕ → Guests → Guests
guest_remove f guest_id g =
    if f.query || f.commit
    then g
    else record g { rows = keep (λ r. not (has_id guest_id r)) g.rows }

stop_row : Faults → ℕ → Option Guest → Guests → Reply (Unit {0}) × Guests
stop_row f now none g = (attribute_error, g)
stop_row f now (some r) g =
    (returned tt, write_guest f (some (record r { shutdown_on = some now })) g)

-- Without the row the assignment to `shutdown_on` of `None` raises an `AttributeError`, for which
-- the method has no handler: it catches `SQLAlchemyError` and `TypeError`.
unfoldable pub guest_stop : Faults → ℕ → ℕ → Guests → Reply (Unit {0}) × Guests
unfolding stop_row write_guest
guest_stop f now guest_id g =
    if f.query then (returned tt, g) else stop_row f now (get_guest guest_id g.rows) g
