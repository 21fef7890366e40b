-- ===== src/Scheduler/Service/Tests.antt =====
-- The loop of `Scheduler.start` with one machine and two tasks.
use capev.Base.{ℕ, ◌≡◌, refl, false, none, some, List, [], ◌∷◌}
use capev.Database.Sql.{healthy}
use capev.Database.Machines.{Machine, get_available_machines, count_machines_available}
use capev.Database.Tasks.{
  Task, pending, fetch, first_ordered, is_local, arch_matches, update_task, take_row, set_status,
  set_task_vm, change_task, with_status,
}
use capev.Database.Tasks.Queue.{sound}
use capev.Machinery.{availables}
use capev.Scheduler.Service.{Limits, Round, Ending, serve, turn, hand_out, search, initial}
use capev.Scheduler.Service.Once.{InBounds, serve-InBounds}

abbrev host : Machine
host = record {
  id = 1;
  name = "win10";
  label = "win10_1";
  arch = "x64";
  ip = "192.168.122.10";
  platform = "windows";
  tags = "x64" ∷ [];
  interface = none;
  locked = false;
  locked_changed_on = none;
  status = none;
  status_changed_on = none;
}

abbrev submitted : ℕ → Task
submitted i = record {
  id = i;
  category = "file";
  priority = 1;
  options = some "";
  machine = none;
  platform = none;
  machine_id = none;
  sample_id = none;
  tags = "x64" ∷ [];
  clock = 0;
  added_on = i;
  started_on = none;
  completed_on = none;
  status = pending;
  user_id = none;
}

abbrev limits : Limits
limits = record { freespace = false; max_machines_count = 0; maxcount = 0 }

-- A round that finds the machines of the list free when it asks for them.
abbrev calm : List Machine → Round
calm ms = record {
  signalled = false;
  lock_taken = false;
  need_space = false;
  at_running = [];
  at_availables = host ∷ [];
  at_listing = ms;
  others = λ ts. ts;
  now = 5;
  is_idle = false;
  has_error = false;
  faults = healthy;
  fetch_faults = sound;
}

serve-InBounds_example :
    InBounds limits (serve limits (calm (host ∷ []) ∷ []) (initial (submitted 1 ∷ []))).1
serve-InBounds_example = serve-InBounds limits (calm (host ∷ []) ∷ []) (submitted 1 ∷ [])

both_started :
    (serve limits
      (calm (host ∷ []) ∷ calm (host ∷ []) ∷ [])
      (initial (submitted 1 ∷ submitted 2 ∷ []))).1.started
    ≡ 2 ∷ 1 ∷ []
unfolding serve turn hand_out search fetch take_row first_ordered is_local arch_matches update_task
    set_status set_task_vm change_task with_status get_available_machines availables
    count_machines_available
both_started = refl

-- No machine is left when the second round asks for them: the first task is started again.
stale_task :
    (serve limits (calm (host ∷ []) ∷ calm [] ∷ []) (initial (submitted 1 ∷ []))).1.started
    ≡ 1 ∷ 1 ∷ []
unfolding serve turn hand_out search fetch take_row first_ordered is_local arch_matches update_task
    set_status set_task_vm change_task with_status get_available_machines availables
    count_machines_available
stale_task = refl

-- The same in the first round.
no_task : (serve limits (calm [] ∷ []) (initial [])).0 ≡ Ending.unbound_local
unfolding serve turn hand_out search get_available_machines availables count_machines_available
no_task = refl
