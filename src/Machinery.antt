-- ===== src/Machinery.antt =====
-- The base class `Machinery` of lib/cuckoo/common/abstracts.py: the pool of machines that the
-- scheduler works with, on top of the `machines` table, and the wait for a machine's state.
pub mod Acquire
pub mod Timeout
mod Tests
use capev.Base.{
  ℕ, suc, zero, ◌+◌, String, Bool, true, false, not, Option, none, some, List, [], ◌∷◌, length,
  is_empty, ltb, if◌then◌else◌,
}
use capev.Database.Sql.{Faults, Outcome, truthy}
use capev.Database.Machines.{
  Machine, lock_machine, unlock_machine, count_machines_available, list_machines,
}

unfoldable pub availables : Faults → List Machine → ℕ
availables f ms = count_machines_available f ms

unfoldable pub acquire :
    Faults
    → ℕ
    → Option String
    → Option String
    → List String
    → List Machine
    → Outcome (Option Machine) × List Machine
acquire f now machine_id platform tags ms =
    if truthy machine_id
    then lock_machine f now machine_id none [] ms
    else if truthy platform
    then lock_machine f now none platform tags ms
    else lock_machine f now none none tags ms

unfoldable pub release : Faults → ℕ → String → List Machine → List Machine
release f now label ms = (unlock_machine f now label ms).1

unfoldable pub running : Faults → List Machine → List Machine
running f ms = list_machines f true "" [] ms

-- `stop` of a subclass: what it raises for a label, if it raises a `CuckooMachineError`. The result
-- is the labels that were stopped and those that could not be.
stop_all : (String → Bool) → List Machine → List String × List String
stop_all fails [] = ([], [])
stop_all fails (m ∷ ms) =
    let (stopped, alive) = stop_all fails ms in
    if fails m.label then (stopped, m.label ∷ alive) else (m.label ∷ stopped, alive)

unfoldable pub shutdown : Faults → (String → Bool) → List Machine → List String × List String
unfolding stop_all
shutdown f fails ms = stop_all fails (running f ms)

-- How `_wait_status` ends: at the poll of this number, or by the timeout.
pub data Wait : Type 0 where
  reached : ℕ → Wait
  timed_out : Wait

-- `_status` of a subclass is there; without it the method returns at once. `wanted n` says whether the state that the `n`-th call of `_status` returns is among those waited
-- for; `waitme` counts the seconds. `none` means that the fuel ran out.
unfoldable pub wait_from : ℕ → ℕ → (ℕ → Bool) → ℕ → Option Wait
wait_from zero vm_state wanted waitme = none
wait_from (suc fuel) vm_state wanted waitme =
    let rest = wait_from fuel vm_state wanted (suc waitme) in
    if wanted waitme
    then some (reached waitme)
    else if ltb vm_state waitme
    then some timed_out
    else rest

unfoldable pub wait_status : ℕ → (ℕ → Bool) → Option Wait
unfolding wait_from
wait_status vm_state wanted = wait_from (vm_state + 2) vm_state wanted 0
