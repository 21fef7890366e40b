-- ===== src/Database/Guests/Tests.antt =====
-- The guest table at one guest.
use capev.Base.{none, some, [], ◌∷◌, ◌≡◌, refl}
use capev.Database.Sql.{healthy}
use capev.Database.Guests.{Guest, Guests, guest_get_status, guest_set_status, update_guest}

abbrev running_guest : Guest
running_guest = record {
  id = 3;
  status = "running";
  name = "win10";
  label = "win10_1";
  manager = "KVM";
  started_on = 5;
  shutdown_on = none;
  task_id = 7;
}

abbrev guests : Guests
guests = record { rows = running_guest ∷ []; next_id = 4 }

completed :
    guest_get_status healthy 7 (guest_set_status healthy 7 "complete" guests) ≡ some "complete"
unfolding guest_get_status guest_set_status update_guest
completed = refl
