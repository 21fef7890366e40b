-- ===== src/Machinery/Tests.antt =====
-- The machinery at one machine, and a machine that reaches its state at the third poll.
use capev.Base.{◌==◌, ◌≡◌, refl, inl, false, none, some, [], ◌∷◌}
use capev.Database.Sql.{healthy}
use capev.Database.Machines.{Machine}
use capev.Machinery.{acquire, Wait, wait_status}
use capev.Machinery.Acquire.{Suits, Acquires, acquire_available}
use capev.Machinery.Timeout.{Ends, wait_status-Ends}

abbrev box : Machine
box = record {
  id = 1;
  name = "win10";
  label = "win10_1";
  arch = "x64";
  ip = "192.168.122.10";
  platform = "windows";
  tags = "x64" ∷ [];
  interface = none;
  locked = false;
  locked_changed_on = none;
  status = none;
  status_changed_on = none;
}

box-Suits : Suits none (some "windows") ("x64" ∷ []) box
box-Suits = record { by_label = refl; by_platform = refl; by_tags = (refl, tt) }

acquire_available_example :
    Acquires 5
      (Suits none (some "windows") ("x64" ∷ []))
      (box ∷ [])
      (acquire healthy 5 none (some "windows") ("x64" ∷ []) (box ∷ []))
acquire_available_example =
    acquire_available 5 none (some "windows") ("x64" ∷ []) (box ∷ []) box (inl refl) refl box-Suits

wait_status-Ends_example :
    (w : Wait) × (wait_status 300 (λ n. n == 2) ≡ some w) × Ends 300 (λ n. n == 2) 0 w
wait_status-Ends_example = wait_status-Ends 300 (λ n. n == 2)
