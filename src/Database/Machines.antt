-- ===== src/Database/Machines.antt =====
-- The `machines` table of lib/cuckoo/core/database.py and the methods that read and write it.
-- Rows stand in the order in which the database returns them; `now` is `datetime.now()`.
pub mod Selection
pub mod Exclusion
pub mod Availability
pub mod Setup
mod Tests
use capev.Base.{
  ℕ, ◌==◌, String, str_eq, Bool, true, false, not, ◌&&◌, Option, none, some, List, [], ◌∷◌, ◌++◌,
  is_empty, head?, keep, any, length, if◌then◌else◌,
}
use capev.Database.Sql.{Faults, Outcome, returned, operational_error, truthy}

pub record Machine : Type 0 where
  pub id : ℕ
  pub name : String
  pub label : String
  pub arch : String
  pub ip : String
  pub platform : String
  pub tags : List String
  pub interface : Option String
  pub locked : Bool
  pub locked_changed_on : Option ℕ
  pub status : Option String
  pub status_changed_on : Option ℕ

-- `session.commit()` of one changed object writes the row with its primary key.
unfoldable pub update_row : Machine → List Machine → List Machine
update_row m [] = []
update_row m (r ∷ rs) = (if r.id == m.id then m else r) ∷ update_row m rs

abbrev pub has_label : String → Machine → Bool
has_label label m = str_eq m.label label

abbrev pub has_platform : String → Machine → Bool
has_platform platform m = str_eq m.platform platform

abbrev pub is_free : Machine → Bool
is_free m = not m.locked

abbrev pub has_tag : String → Machine → Bool
has_tag tag m = any (λ t. str_eq t tag) m.tags

-- `for tag in tags: machines = machines.filter(Machine.tags.any(name=tag.name))`
unfoldable pub filter_tags : List String → List Machine → List Machine
filter_tags [] machines = machines
filter_tags (tag ∷ tags) machines = filter_tags tags (keep (has_tag tag) machines)

abbrev pub filter_by : Option String → (String → Machine → Bool) → List Machine → List Machine
filter_by none test machines = machines
filter_by (some s) test machines = if str_eq s "" then machines else keep (test s) machines

-- The query of `lock_machine`, before the test on `locked`.
unfoldable pub candidates :
    Option String → Option String → List String → List Machine → List Machine
unfolding filter_tags
candidates label platform tags machines =
    filter_tags tags (filter_by platform has_platform (filter_by label has_label machines))

abbrev pub set_locked : Bool → ℕ → Machine → Machine
set_locked b now m = record m { locked = b; locked_changed_on = some now }

commit_lock : Faults → ℕ → Option Machine → List Machine → Outcome (Option Machine) × List Machine
commit_lock f now none machines = (returned none, machines)
commit_lock f now (some m) machines = if f.commit then (returned none, machines) else (
  returned (if f.refresh then none else some (set_locked true now m)),
  update_row (set_locked true now m) machines,
)

unfoldable pub lock_machine :
    Faults
    → ℕ
    → Option String
    → Option String
    → List String
    → List Machine
    → Outcome (Option Machine) × List Machine
unfolding commit_lock
lock_machine f now label platform tags machines =
    if truthy label && truthy platform
    then (returned none, machines)
    else if truthy label && not (is_empty tags)
    then (returned none, machines)
    else if f.query
    then (returned none, machines)
    else if is_empty (candidates label platform tags machines)
    then (operational_error, machines)
    else commit_lock f now (head? (keep is_free (candidates label platform tags machines))) machines

commit_unlock : Faults → ℕ → Option Machine → List Machine → Option Machine × List Machine
commit_unlock f now none machines = (none, machines)
commit_unlock f now (some m) machines = if f.commit then (none, machines) else (
  if f.refresh then none else some (set_locked false now m),
  update_row (set_locked false now m) machines,
)

unfoldable pub unlock_machine : Faults → ℕ → String → List Machine → Option Machine × List Machine
unfolding commit_unlock
unlock_machine f now label machines =
    if f.query
    then (none, machines)
    else commit_unlock f now (head? (keep (has_label label) machines)) machines

unfoldable pub count_machines_available : Faults → List Machine → ℕ
count_machines_available f machines = if f.query then 0 else length (keep is_free machines)

unfoldable pub get_available_machines : Faults → List Machine → List Machine
get_available_machines f machines = if f.query then [] else keep is_free machines

-- `[machine for tag in tags for machine in machines if tag in machine.to_dict()["tags"]]`
with_any_tag : List String → List Machine → List Machine
with_any_tag [] machines = []
with_any_tag (tag ∷ tags) machines = keep (has_tag tag) machines ++ with_any_tag tags machines

unfoldable pub list_machines : Faults → Bool → String → List String → List Machine → List Machine
unfolding with_any_tag
list_machines f locked platform tags machines =
    let found =
      if locked
      then keep (λ m. m.locked) machines
      else if str_eq platform ""
      then machines
      else keep (has_platform platform) machines in
    if f.query then [] else if is_empty tags then found else with_any_tag tags found

write_status : Faults → ℕ → String → Option Machine → List Machine → List Machine
write_status f now status none machines = machines
write_status f now status (some m) machines =
    if f.commit
    then machines
    else update_row (record m { status = some status; status_changed_on = some now }) machines

unfoldable pub set_machine_status : Faults → ℕ → String → String → List Machine → List Machine
unfolding write_status
set_machine_status f now label status machines =
    if f.query
    then machines
    else write_status f now status (head? (keep (has_label label) machines)) machines

write_interface : Faults → Option String → Option Machine → List Machine → List Machine
write_interface f interface none machines = machines
write_interface f interface (some m) machines =
    if f.commit then machines else update_row (record m { interface = interface }) machines

unfoldable pub set_machine_interface : Faults → String → Option String → List Machine → List Machine
unfolding write_interface
set_machine_interface f label interface machines =
    if f.query
    then machines
    else write_interface f interface (head? (keep (has_label label) machines)) machines
