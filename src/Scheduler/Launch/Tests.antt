-- ===== src/Scheduler/Launch/Tests.antt =====
-- One analysis on one machine, without faults, and with a failing rooter command.
use capev.Base.{◌≡◌, refl, sym, ◌∙◌, inl, true, false, none, some, [], ◌∷◌}
use capev.Database.Sql.{healthy}
use capev.Database.Machines.{
  Machine, update_row, filter_tags, candidates, lock_machine, unlock_machine,
  count_machines_available,
}
use capev.Database.Guests.{
  Guest, update_guest, guest_start, guest_get_status, guest_set_status, guest_remove, guest_stop,
}
use capev.Scheduler.Exec.{critical_error, machine_error, ok, blocked}
use capev.Scheduler.Run.{Program, launch_until, run}
use capev.Scheduler.Run.Settled.{run-settled}
use capev.Scheduler.World.{Task, World, Env}
use capev.Scheduler.Launch.{
  launch_analysis, analysis, cleanup, acquire_machine, register, start_up, analyse, guarded,
  handler, leave, wind_down, with_machine,
}
use capev.Machinery.{availables, acquire, release}
use capev.Scheduler.Launch.Balance.{IsContained, launch_analysis-lock}
use capev.Scheduler.Launch.Finish.{IsQuiet, Finished, cleanup-Finished}

abbrev vm : Machine
vm = record {
  id = 1;
  name = "win10";
  label = "win10_1";
  arch = "x64";
  ip = "192.168.122.10";
  platform = "windows";
  tags = "x64" ∷ [];
  interface = none;
  locked = false;
  locked_changed_on = none;
  status = none;
  status_changed_on = none;
}

abbrev job : Task
job = record {
  id = 7;
  category = "file";
  machine = none;
  platform = some "windows";
  tags = [];
  memory = false;
}

abbrev world : World
world = record {
  lock_depth = 0;
  machines = vm ∷ [];
  guests = record { rows = []; next_id = 1 };
  tracked = [];
  storage = false;
  errors = 0;
  events = [];
  unlocked = false;
  dead_machine = false;
  succeeded = false;
  guest_log = none;
}

abbrev calm : Env
calm = record {
  now = 5;
  create_folder_fails = false;
  file_intact = true;
  file_stored = true;
  pcap_link = none;
  rounds = record { table = vm ∷ []; count = healthy; lock = healthy; now = 4 } ∷ [];
  build_options = none;
  add_task_fails = false;
  manager = "KVM";
  guest_start = healthy;
  task_exists = true;
  start = none;
  route = none;
  set_starting = healthy;
  start_analysis = none;
  manager_status = none;
  read_status = healthy;
  set_running = healthy;
  wait_for_completion = none;
  set_stopping = healthy;
  memory_dump = false;
  need_space = false;
  dump = none;
  stop = none;
  guest_stop = healthy;
  unroute = none;
  guest_remove = healthy;
  rmtree = none;
  release = healthy;
}

calm-IsContained : IsContained calm
calm-IsContained = record { task_there = refl; start = refl; route = refl }

launch_analysis-lock_example : (launch_analysis calm job world).1.lock_depth ≡ 0
launch_analysis-lock_example = launch_analysis-lock calm job world calm-IsContained refl

-- The rooter reports an exception, and `_rooter_response_check` raises.
abbrev no_route : Env
no_route = record calm { route = some critical_error }

-- The thread has acquired its machine.
abbrev locked_world : World
locked_world = record world { lock_depth = 1 }

abbrev guest_row : Guest
guest_row = record {
  id = 1;
  status = "running";
  name = "win10";
  label = "win10_1";
  manager = "KVM";
  started_on = 5;
  shutdown_on = none;
  task_id = 7;
}

-- A world at the end of an analysis on a machine that turned out dead.
abbrev ended : World
ended = record world {
  guests = record { rows = guest_row ∷ []; next_id = 2 };
  tracked = ("192.168.122.10", 7) ∷ [];
  storage = true;
  unlocked = true;
  dead_machine = true;
  guest_log = some (some 1);
}

ended-IsQuiet : IsQuiet calm ended
ended-IsQuiet = record {
  dump = inl refl;
  stop = inl refl;
  guest = (1, guest_row, refl, refl);
  unroute = refl;
  rmtree = refl;
}

cleanup-Finished_example : Finished calm vm ended (cleanup calm job vm ended)
cleanup-Finished_example = cleanup-Finished calm job vm ended ended-IsQuiet

-- The machine of the first attempt does not start; the second attempt gets it again.
abbrev dying : Env
dying = record calm { start = some machine_error }

dying-IsContained : IsContained dying
dying-IsContained = record { task_there = refl; start = refl; route = refl }

abbrev program : Program
program = record { active = 2; tasks = []; world = world }

second_attempt : (launch_until (dying ∷ calm ∷ []) job world).0 ≡ ok true
unfolding launch_until launch_analysis acquire_machine register start_up analyse guarded handler
    leave wind_down cleanup analysis with_machine update_guest guest_start guest_get_status
    guest_set_status guest_remove guest_stop update_row filter_tags candidates lock_machine
    unlock_machine count_machines_available availables acquire release
second_attempt = refl

run-settled_example :
    let p = run (dying ∷ calm ∷ []) healthy 9 job program in
    (p.active ≡ 2) × (p.world.lock_depth ≡ 0)
run-settled_example =
    run-settled (dying ∷ calm ∷ []) healthy 9 job program
      ((dying-IsContained, refl), ((calm-IsContained, refl), tt))
      (λ e. let q : ok true ≡ blocked = sym second_attempt ∙ e in cc)
