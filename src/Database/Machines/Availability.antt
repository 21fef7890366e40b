-- ===== src/Database/Machines/Availability.antt =====
-- `count_machines_available` and `get_available_machines` (lib/cuckoo/core/database.py) beside
-- `lock_machine` and `unlock_machine`.
use capev.Base.{
  ℕ, ◌+◌, String, ◌≡◌, refl, ◌≢◌, inl, inr, true, false, Option, some, List, [], ◌∷◌, arith, keep,
  length, head?, Option-cases, In-head, In-keep, keep-In, ◌↔◌, All, All-In, In, if◌then◌else◌,
}
use capev.Database.Sql.{Faults, healthy, returned}
use capev.Database.Machines.{
  Machine, update_row, is_free, has_label, set_locked, lock_machine, unlock_machine,
  count_machines_available, get_available_machines,
}
use capev.Database.Machines.Selection.{lock_machine-Fits}

-- The primary keys of the rows are distinct.
abbrev pub IsKeyed : List Machine → Type 0
IsKeyed [] = Unit
IsKeyed (m ∷ ms) = All (λ r. r.id ≢ m.id) ms × IsKeyed ms

update_row_absent :
    (m : Machine) (ms : List Machine) → All (λ r. r.id ≢ m.id) ms → update_row m ms ≡ ms
unfolding update_row
update_row_absent m [] h = refl
update_row_absent m (r ∷ rs) h = ground (arith, update_row_absent m rs)

free_count : List Machine → ℕ
free_count ms = length (keep is_free ms)

free_count-lock :
    (m : Machine) (now : ℕ) (ms : List Machine)
    → IsKeyed ms
    → In m ms
    → m.locked ≡ false
    → free_count (update_row (set_locked true now m) ms) + 1 ≡ free_count ms
unfolding free_count update_row
free_count-lock m now [] k i free = absurd i
free_count-lock m now (r ∷ rs) k (inl e) free =
    ground (arith, update_row_absent (set_locked true now m) rs (rw e k.0))
free_count-lock m now (r ∷ rs) k (inr i) free =
    ground (arith, free_count-lock m now rs, All-In (λ q. q.id ≢ r.id) m rs k.0 i)

-- With distinct ids, handing out a machine lowers the number of available machines by exactly
-- one.
count-lock :
    (f : Faults) (now : ℕ) (label platform : Option String) (tags : List String)
    (ms ms' : List Machine) (m' : Machine)
    → IsKeyed ms
    → lock_machine f now label platform tags ms ≡ (returned (some m'), ms')
    → count_machines_available healthy ms' + 1 ≡ count_machines_available healthy ms
unfolding count_machines_available free_count
count-lock f now label platform tags ms ms' m' k h =
    let (m, i, free, fits, e, up) = lock_machine-Fits f now label platform tags ms ms' m' h in
    rw (up, e) (free_count-lock m now ms k i free)

free_count-unlock :
    (m : Machine) (now : ℕ) (ms : List Machine)
    → IsKeyed ms
    → In m ms
    → free_count (update_row (set_locked false now m) ms)
      ≡ free_count ms + (if m.locked then 1 else 0)
unfolding free_count update_row
free_count-unlock m now [] k i = absurd i
free_count-unlock m now (r ∷ rs) k (inl e) =
    ground (arith, update_row_absent (set_locked false now m) rs (rw e k.0))
free_count-unlock m now (r ∷ rs) k (inr i) =
    ground (arith, free_count-unlock m now rs, All-In (λ q. q.id ≢ r.id) m rs k.0 i)

-- With distinct ids, unlocking a label frees one machine with that label; the number of available
-- machines grows by one if it was locked and is unchanged otherwise.
count-unlock :
    (f : Faults) (now : ℕ) (label : String) (ms ms' : List Machine) (m' : Machine)
    → IsKeyed ms
    → unlock_machine f now label ms ≡ (some m', ms')
    → (m : Machine) × In m ms
      × (has_label label m ≡ true)
      × (m' ≡ set_locked false now m)
      × (count_machines_available healthy ms'
          ≡ count_machines_available healthy ms + (if m.locked then 1 else 0))
unfolding count_machines_available free_count unlock_machine
count-unlock f now label ms ms' m' k h = elim (Option-cases (head? (keep (has_label label) ms))) [
  | inl e ↦ absurd (ground arith)
  | inr (m, e) ↦
      let (i, named) = In-keep (has_label label) m ms (In-head m _ e) in
      (m, i, named, ground arith, ground (arith, free_count-unlock m now ms k i))
]

-- With no database fault, the machines listed as available are exactly the free ones of the
-- table.
get_available_machines_iff :
    (m : Machine) (ms : List Machine)
    → In m (get_available_machines healthy ms) ↔ (In m ms × (m.locked ≡ false))
unfolding get_available_machines
get_available_machines_iff m ms = (
  λ h. let (i, free) = In-keep is_free m ms h in (i, ground arith),
  λ h. keep-In is_free m ms h.0 (ground arith),
)
