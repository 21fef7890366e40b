-- ===== src/Database/Machines/Tests.antt =====
-- The machine table at two machines: a Windows guest that is free and a Linux guest that is locked.
use capev.Base.{◌≡◌, refl, inl, inr, true, false, none, some, List, [], ◌∷◌, In, arith}
use capev.Database.Sql.{healthy, returned}
use capev.Database.Machines.{
  Machine, set_locked, update_row, candidates, lock_machine, unlock_machine,
}
use capev.Database.Machines.Selection.{Fits, lock_machine-Fits}
use capev.Database.Machines.Exclusion.{Pool, Request, lock, unlock, run, Exclusive, run-Exclusive}
use capev.Database.Machines.Availability.{IsKeyed}

abbrev win : Machine
win = record {
  id = 1;
  name = "win10";
  label = "win10_1";
  arch = "x64";
  ip = "192.168.122.10";
  platform = "windows";
  tags = "x64" ∷ "office" ∷ [];
  interface = none;
  locked = false;
  locked_changed_on = none;
  status = none;
  status_changed_on = none;
}

abbrev lin : Machine
lin = record {
  id = 2;
  name = "ubuntu";
  label = "ubuntu_1";
  arch = "x64";
  ip = "192.168.122.11";
  platform = "linux";
  tags = "x64" ∷ [];
  interface = none;
  locked = true;
  locked_changed_on = some 3;
  status = none;
  status_changed_on = none;
}

abbrev table : List Machine
table = win ∷ lin ∷ []

abbrev win_locked : Machine
win_locked = set_locked true 7 win

table-IsKeyed : IsKeyed table
table-IsKeyed = (((λ q. absurd (omega arith)), tt), (tt, tt))

win-Fits : Fits none (some "windows") ("office" ∷ []) win
win-Fits = record { by_label = refl; by_platform = refl; by_tags = (refl, tt) }

lock_machine-win :
    lock_machine healthy 7 none (some "windows") ("office" ∷ []) table
    ≡ (returned (some win_locked), win_locked ∷ lin ∷ [])
unfolding lock_machine candidates update_row
lock_machine-win = refl

lock_machine-Fits_example :
    (m : Machine) × In m table
    × (m.locked ≡ false)
    × Fits none (some "windows") ("office" ∷ []) m
    × (win_locked ≡ set_locked true 7 m)
    × (win_locked ∷ lin ∷ [] ≡ update_row win_locked table)
lock_machine-Fits_example =
    lock_machine-Fits healthy 7 none (some "windows") ("office" ∷ []) table (win_locked ∷ lin ∷ [])
      win_locked lock_machine-win

lock_machine-lin : lock_machine healthy 7 (some "ubuntu_1") none [] table ≡ (returned none, table)
unfolding lock_machine candidates
lock_machine-lin = refl

abbrev requests : List Request
requests =
    lock healthy 7 none (some "windows") []
    ∷ lock healthy 8 none none []
    ∷ unlock healthy 9 "ubuntu_1"
    ∷ lock healthy 10 (some "ubuntu_1") none []
    ∷ []

-- The caller of an earlier run holds the Linux guest.
abbrev pool : Pool
pool = record { machines = table; held = 2 ∷ [] }

pool-Exclusive : Exclusive pool
pool-Exclusive = record { distinct = (refl, tt); guarded = (inr refl, (inl refl, tt)) }

run-Exclusive_example : Exclusive (run pool requests)
run-Exclusive_example = run-Exclusive pool requests pool-Exclusive

abbrev lin_free : Machine
lin_free = set_locked false 9 lin

unlock_machine-lin :
    unlock_machine healthy 9 "ubuntu_1" table ≡ (some lin_free, win ∷ lin_free ∷ [])
unfolding unlock_machine update_row
unlock_machine-lin = refl
