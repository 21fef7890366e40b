-- ===== src/Database/Guests/Lifecycle.antt =====
-- A guest's row of lib/cuckoo/core/database.py from its start to its end.
use capev.Base.{
  ℕ, ◌<◌, ◌≡◌, refl, ◌↔◌, String, true, false, not, Option, none, some, List, [], ◌∷◌, arith, All,
  any-head, keep-all, All-map, In-keep, In-head,
}
use capev.Database.Sql.{Faults, healthy}
use capev.Database.Guests.{
  Guest, Guests, returned, attribute_error, of_task, has_id, find_guest, get_guest, update_guest,
  guest_start, guest_get_status, guest_set_status, guest_remove, guest_stop, write_guest,
  with_status, stop_row,
}

-- The row of a task after a status has been written.
find_guest-update :
    (task_id : ℕ) (status : String) (gs : List Guest) (r : Guest)
    → find_guest task_id gs ≡ some r
    → find_guest task_id (update_guest (record r { status = status }) gs)
      ≡ some (record r { status = status })
unfolding update_guest
find_guest-update task_id status [] r e = cc
find_guest-update task_id status (x ∷ xs) r e = ground (
  arith,
  find_guest-update task_id status xs r,
  In-keep (of_task task_id) r (x ∷ xs) (In-head r _ e),
)

-- With no database fault, a guest status that is written is the one that is read next, for a task
-- with a guest; a task without one reads none.
get-set_status :
    (task_id : ℕ) (status : String) (g : Guests)
    → guest_get_status healthy task_id (guest_set_status healthy task_id status g)
      ≡ elim (find_guest task_id g.rows) [ none ↦ none | some r ↦ some status ]
unfolding guest_get_status guest_set_status
get-set_status task_id status g = go (find_guest task_id g.rows) refl
  where
    go :
        (o : Option Guest)
        → find_guest task_id g.rows ≡ o
        → guest_get_status healthy task_id (write_guest healthy (with_status status o) g)
          ≡ elim o [ none ↦ none | some r ↦ some status ]
    go none e = rw e
    go (some r) e = rw (find_guest-update task_id status g.rows r e)

-- With no database fault, starting a guest for an existing task that has none returns the next id
-- and makes the task's guest status "init".
get-start :
    (now task_id : ℕ) (name label manager : String) (g : Guests)
    → find_guest task_id g.rows ≡ none
    → let (r, g') = guest_start healthy now true task_id name label manager g in
      (r ≡ returned (some g.next_id)) × (guest_get_status healthy task_id g' ≡ some "init")
unfolding guest_start guest_get_status
get-start now task_id name label manager g none_yet =
    rw (any-head (of_task task_id) g.rows none_yet) (refl, ground arith)

-- With no database fault and all ids below the next one, a guest that is started for a task
-- without one and then removed leaves the rows as they were.
remove-start :
    (now task_id : ℕ) (name label manager : String) (g : Guests)
    → find_guest task_id g.rows ≡ none
    → All (λ r. r.id < g.next_id) g.rows
    → (guest_remove healthy g.next_id
        (guest_start healthy now true task_id name label manager g).1).rows
      ≡ g.rows
unfolding guest_start guest_remove
remove-start now task_id name label manager g none_yet below =
    rw (any-head (of_task task_id) g.rows none_yet) (
      ground (
        arith,
        keep-all (λ r. not (has_id g.next_id r)) g.rows
            (All-map _ _ (λ r h. ground arith) g.rows below),
      ))

-- If the query does not fail, stopping a guest raises an AttributeError exactly if its row is
-- gone.
guest_stop_error :
    (f : Faults) (now guest_id : ℕ) (g : Guests)
    → f.query ≡ false
    → ((guest_stop f now guest_id g).0 ≡ attribute_error) ↔ (get_guest guest_id g.rows ≡ none)
unfolding guest_stop
guest_stop_error f now guest_id g q = rw q (go (get_guest guest_id g.rows))
  where
    go : (o : Option Guest) → ((stop_row f now o g).0 ≡ attribute_error) ↔ (o ≡ none)
    go none = (λ _. refl, λ _. refl)
    go (some r) = (λ e. cc, λ e. cc)
