-- ===== src/Database/Machines/Setup.antt =====
-- Adding, deleting and viewing machines: `add_machine`, `delete_machine`, `clean_machines`,
-- `view_machine` and `view_machine_by_label` of lib/cuckoo/core/database.py.
use Prim.Native.Char.{Char, code}
use capev.Base.{
  ℕ, ◌==◌, ◌≡◌, refl, ap, str_eq, Bool, true, false, not, ◌||◌, Option, none, some, List, [], ◌∷◌,
  ◌++◌, head?, keep, if◌then◌else◌, arith, All, String, map, eq_refl,
}
use capev.Database.Sql.{Faults, healthy}
use capev.Database.Machines.{Machine, has_label}

abbrev pub prefix : Char → List String → List String
prefix c [] = String.◌∷◌ c "" ∷ []
prefix c (t ∷ ts) = String.◌∷◌ c t ∷ ts

-- `tags.replace(" ", "").split(",")`
unfoldable split_tags : String → List String
split_tags String.[] = "" ∷ []
split_tags (String.◌∷◌ c s) =
    let rest = split_tags s in
    if code c == 44 then "" ∷ rest else if code c == 32 then rest else prefix c rest

-- `if tags: …`
unfoldable tags_of : String → List String
unfolding split_tags
tags_of tags = if str_eq tags "" then [] else split_tags tags

-- The new row, whose id the database gives; a new machine is free.
abbrev new_machine :
    ℕ → String → String → String → String → String → String → Option String → Machine
new_machine id name label arch ip platform tags interface = record {
  id = id;
  name = name;
  label = label;
  arch = arch;
  ip = ip;
  platform = platform;
  tags = tags_of tags;
  interface = interface;
  locked = false;
  locked_changed_on = none;
  status = none;
  status_changed_on = none;
}

-- `session.add` and `session.commit`.
unfoldable add_machine : Faults → Machine → List Machine → List Machine
add_machine f m machines = if f.commit then machines else machines ++ (m ∷ [])

abbrev has_name : String → Machine → Bool
has_name name m = str_eq m.name name

unfoldable view_machine : Faults → String → List Machine → Option Machine
view_machine f name machines = if f.query then none else head? (keep (has_name name) machines)

unfoldable view_machine_by_label : Faults → String → List Machine → Option Machine
view_machine_by_label f label machines =
    if f.query then none else head? (keep (has_label label) machines)

-- `session.delete` and `session.commit`, with whether "success" is returned. For no row `delete`
-- raises a `SQLAlchemyError`.
abbrev delete_row : Faults → Option Machine → List Machine → Bool × List Machine
delete_row f none machines = (false, machines)
delete_row f (some m) machines =
    if f.commit then (false, machines) else (true, keep (λ r. not (r.id == m.id)) machines)

unfoldable delete_machine : Faults → String → List Machine → Bool × List Machine
unfolding view_machine
delete_machine f name machines = delete_row f (view_machine f name machines) machines

-- The rows of `machines_tags` go first, outside the `try`; with a fault there the exception leaves
-- the method.
unfoldable clean_machines : Bool → Faults → List Machine → List Machine
clean_machines tags_fault f machines =
    if tags_fault
    then machines
    else if f.query || f.commit
    then map (λ (m : Machine). record m { tags = [] }) machines
    else []

-- No row has the name or the id.
abbrev IsNew : Machine → List Machine → Type 0
IsNew m ms = All (λ (r : Machine). (str_eq r.name m.name ≡ false) × ((r.id == m.id) ≡ false)) ms

view-add :
    (m : Machine) (ms : List Machine)
    → IsNew m ms
    → head? (keep (has_name m.name) (ms ++ (m ∷ []))) ≡ some m
view-add m [] h = rw (eq_refl m.name) refl
view-add m (r ∷ rs) h = rw h.0.0 (view-add m rs h.1)

keep-add :
    (m : Machine) (ms : List Machine)
    → IsNew m ms
    → keep (λ r. not (r.id == m.id)) (ms ++ (m ∷ [])) ≡ ms
keep-add m [] h = ground arith
keep-add m (r ∷ rs) h = rw h.0.1 (ap (◌∷◌ r) (keep-add m rs h.1))

-- Adding a machine with a new name and a new id, and deleting it by its name, restores the table.
delete-add :
    (m : Machine) (ms : List Machine)
    → IsNew m ms
    → delete_machine healthy m.name (add_machine healthy m ms) ≡ (true, ms)
unfolding delete_machine add_machine view_machine
delete-add m ms h = rw (view-add m ms h, keep-add m ms h) refl

tags_split : tags_of "x64, win10" ≡ "x64" ∷ "win10" ∷ []
unfolding tags_of split_tags
tags_split = refl
