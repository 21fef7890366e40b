-- ===== src/Scheduler/Launch.antt =====
-- `AnalysisManager.launch_analysis` of lib/cuckoo/core/scheduler.py, with the methods that
-- they call. The body of the `try` statement, its handlers and its `finally` are `guarded`,
-- `handler` and `cleanup`.
mod Acquire
pub mod Balance
pub mod Finish
mod Tests
use capev.Base.{
  ℕ, zero, suc, ◌+◌, ◌-◌, ◌==◌, String, str_eq, Bool, true, false, not, ◌&&◌, ◌||◌, Option, none,
  some, List, [], ◌∷◌, if◌then◌else◌,
}
use capev.Database.Sql.{Faults, Outcome, operational_error as no_match, returned as got, healthy}
use capev.Database.Machines.{Machine}
use capev.Database.Guests.{
  Guests, guest_start, guest_get_status, guest_set_status, guest_stop, guest_remove, Reply,
  returned, attribute_error,
}
use capev.Machinery.{acquire, availables, release}
use capev.Scheduler.Exec.{
  Exc, machine_error, network_error, guest_error, operational_error, critical_error, dead_machine,
  other_error, Result, ok, raised, blocked, Exec, pure, raise, gets, modify, external, try_except,
  try_finally, ◌>>=◌, ◌>>◌, is_machine_error, is_network_error, is_guest_error, is_operational,
  is_not_implemented, is_dead_machine,
}
use capev.Scheduler.World.{
  Event, vm_started, vm_stopped, vm_dumped, aux_started, aux_stopped, routed, unrouted, Task, World,
  Round, Env, note, acquire_lock, release_lock, track, untrack,
}

abbrev M : Type 0 → Type 0
M A = Exec World A

when : Bool → M (Unit {0}) → M (Unit {0})
when true m = m
when false m = pure tt

-- The folder of the task must not exist yet.
init_storage : Env → M Bool
init_storage e w =
    if w.storage
    then (ok false, w)
    else if e.create_folder_fails
    then (ok false, w)
    else (ok true, record w { storage = true })

is_file_category : String → Bool
is_file_category c = str_eq c "file" || str_eq c "pcap" || str_eq c "static"

-- `some b` is an early result of the analysis, `none` lets it go on.
category_checks : Env → Task → M (Option Bool)
category_checks e task =
    if is_file_category task.category && not e.file_intact
    then pure (some false)
    else if is_file_category task.category && not e.file_stored
    then pure (some false)
    else if str_eq task.category "pcap"
    then (do external e.pcap_link; pure (some true))
    else if str_eq task.category "static"
    then pure (some true)
    else pure none

-- What a round does after `machinery.acquire`; `again` is the next round.
settle_round : M Machine → Outcome (Option Machine) × List Machine → M Machine
settle_round again (no_match, ms) = do
  modify (λ w. record w { machines = ms })
  raise operational_error
settle_round again (got none, ms) = do modify (λ w. record w { machines = ms }); release_lock; again
settle_round again (got (some m), ms) = do modify (λ w. record w { machines = ms }); pure m

-- The loop of `acquire_machine`. It leaves the lock held when it returns a machine.
unfoldable pub acquire_machine : Task → List Round → M Machine
unfolding settle_round
acquire_machine task [] = λ w. (blocked, w)
acquire_machine task (r ∷ rs) =
    let again = acquire_machine task rs in
    do
      modify (λ w. acquire_lock (record w { machines = r.table }))
      if availables r.count r.table == 0
          then (do release_lock; again)
          else settle_round again
              (acquire r.lock r.now task.machine task.platform task.tags r.table)

-- `ResultServer().add_task`; where it fails the machine is released, and the analysis goes on.
unfoldable pub register : Env → Task → Machine → M (Unit {0})
register e task m =
    if e.add_task_fails
    then modify (λ w. record w {
      machines = release e.release e.now m.label w.machines;
      errors = suc w.errors;
    })
    else modify (track m.ip task.id)

bind_guest : Reply (Option ℕ) × Guests → M (Unit {0})
bind_guest (returned i, g) w = (ok tt, record w { guests = g; guest_log = some i })
bind_guest (attribute_error, g) w = (raised other_error, record w { guests = g })

mark_guest : Env → Task → Machine → M (Unit {0})
unfolding bind_guest
mark_guest e task m w =
    bind_guest
      (guest_start e.guest_start e.now e.task_exists task.id m.name m.label e.manager w.guests) w

write_guest_status : Faults → Task → String → M (Unit {0})
write_guest_status f task status =
    modify (λ w. record w { guests = guest_set_status f task.id status w.guests })

manager_writes : Option String → Task → M (Unit {0})
manager_writes none task = pure tt
manager_writes (some status) task = write_guest_status healthy task status

is_starting : Option String → Bool
is_starting none = false
is_starting (some s) = str_eq s "starting"

-- The `try` body up to and including the release of the machine lock.
unfoldable pub start_up : Env → Task → Machine → M (Unit {0})
unfolding mark_guest
start_up e task m = do
  mark_guest e task m
  modify (note (vm_started m.label))
  external e.start
  modify (note routed)
  external e.route
  release_lock
  modify (λ w. record w { unlocked = true })

-- The `try` body from there on.
unfoldable pub analyse : Env → Task → M (Unit {0})
unfolding write_guest_status manager_writes is_starting
analyse e task = do
  modify (note aux_started)
  write_guest_status e.set_starting task "starting"
  external e.start_analysis
  manager_writes e.manager_status task
  status ← gets (λ w. guest_get_status e.read_status task.id w.guests)
  if is_starting status
      then (do write_guest_status e.set_running task "running"; external e.wait_for_completion)
      else pure tt
  write_guest_status e.set_stopping task "stopping"
  modify (λ w. record w { succeeded = true })

unfoldable pub guarded : Env → Task → Machine → M (Unit {0})
guarded e task m = do start_up e task m; analyse e task

is_handled : Exc → Bool
is_handled x = is_machine_error x || is_network_error x || is_guest_error x

-- `if not unlocked: machine_lock.release()`, and `dead_machine = True` in the first clause.
unfoldable pub handler : Exc → M (Unit {0})
unfolding when
handler x = do
  unlocked ← gets (λ w. w.unlocked)
  when (not unlocked) release_lock
  modify
      (λ w. record w { dead_machine = w.dead_machine || is_machine_error x || is_network_error x })

dump_memory : Env → Task → Machine → M (Unit {0})
dump_memory e task m =
    if (e.memory_dump || task.memory) && not e.need_space
    then try_except (λ x. is_not_implemented x || is_machine_error x) (λ x. pure tt)
        (do modify (note (vm_dumped m.label)); external e.dump)
    else pure tt

stop_machine : Env → Machine → M (Unit {0})
stop_machine e m =
    try_except is_machine_error (λ x. pure tt)
      (do modify (note (vm_stopped m.label)); external e.stop)

after_stop : Reply (Unit {0}) × Guests → M (Unit {0})
after_stop (returned _, g) w = (ok tt, record w { guests = g })
after_stop (attribute_error, g) w = (raised other_error, record w { guests = g })

-- An unbound `guest_log` raises an error of its own, and `None` finds no row.
stop_guest : Env → Option (Option ℕ) → M (Unit {0})
unfolding after_stop
stop_guest e none w = (raised other_error, w)
stop_guest e (some none) w = if e.guest_stop.query then (ok tt, w) else (raised other_error, w)
stop_guest e (some (some i)) w = after_stop (guest_stop e.guest_stop e.now i w.guests) w

forget_guest : Env → Option (Option ℕ) → World → World
forget_guest e (some (some i)) w = record w { guests = guest_remove e.guest_remove i w.guests }
forget_guest e _ w = w

-- The end of the `finally` clause.
unfoldable pub leave : Env → Machine → M (Unit {0})
unfolding forget_guest
leave e m = do
  dead ← gets (λ w. w.dead_machine)
  if dead
      then (do
        modify (λ w. forget_guest e w.guest_log w)
        external e.rmtree
        modify (λ w. record w { storage = false })
        raise dead_machine)
      else modify (λ w. record w { machines = release e.release e.now m.label w.machines })

-- The `finally` clause up to the test on `dead_machine`.
unfoldable pub wind_down : Env → Task → Machine → M (Unit {0})
unfolding dump_memory stop_machine stop_guest
wind_down e task m = do
  modify (note aux_stopped)
  dump_memory e task m
  stop_machine e m
  log ← gets (λ w. w.guest_log)
  stop_guest e log
  modify (untrack m.ip)
  modify (note unrouted)
  external e.unroute

unfoldable pub cleanup : Env → Task → Machine → M (Unit {0})
cleanup e task m = do wind_down e task m; leave e m

unfoldable pub analysis : Env → Task → Machine → M (Unit {0})
unfolding is_handled
analysis e task m =
    try_finally (try_except is_handled handler (guarded e task m)) (cleanup e task m)

-- From the acquired machine to the end.
unfoldable pub with_machine : Env → Task → Machine → M Bool
with_machine e task m = do
  external e.build_options
  register e task m
  analysis e task m
  gets (λ w. w.succeeded)

-- The locals at the start of the method.
abbrev reset : World → World
reset w = record w { unlocked = false; dead_machine = false; succeeded = false; guest_log = none }

-- `except CuckooOperationalError` around the acquisition.
abbrev pub found_machine : Result Machine × World → Result (Option Machine) × World
found_machine (ok m, w) = (ok (some m), w)
found_machine (raised x, w) =
    if is_operational x then (do release_lock; pure none) w else (raised x, w)
found_machine (blocked, w) = (blocked, w)

abbrev pub go_on : Env → Task → Option Machine → M Bool
go_on e task none = pure false
go_on e task (some m) = with_machine e task m

-- What an early result of `category_checks` decides.
abbrev pub proceed : Env → Task → Option Bool → M Bool
proceed e task (some early) = pure early
proceed e task none = do
  found ← λ w. found_machine (acquire_machine task e.rounds w)
  go_on e task found

unfoldable pub launch_analysis : Env → Task → M Bool
unfolding init_storage category_checks is_file_category
launch_analysis e task = do
  modify reset
  stored ← init_storage e
  if not stored then pure false else do early ← category_checks e task; proceed e task early
