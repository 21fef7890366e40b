-- ===== src/Scheduler/World.antt =====
-- What one `AnalysisManager` thread of lib/cuckoo/core/scheduler.py shares with the program, its
-- local variables, and everything that the code around it answers.
use capev.Base.{ℕ, zero, suc, String, Bool, Option, List, ◌∷◌, keep, not, str_eq}
use capev.Database.Sql.{Faults}
use capev.Database.Machines.{Machine}
use capev.Database.Guests.{Guests}
use capev.Scheduler.Exec.{Exc, Exec, raised, ok, other_error}

-- The calls that the thread makes on the machine, the auxiliary modules and the rooter.
pub data Event : Type 0 where
  vm_started vm_stopped vm_dumped : String → Event
  aux_started aux_stopped routed unrouted : Event

pub record Task : Type 0 where
  pub id : ℕ
  pub category : String
  pub machine : Option String
  pub platform : Option String
  pub tags : List String
  pub memory : Bool

pub record World : Type 0 where
  -- how often this thread holds `machine_lock`
  pub lock_depth : ℕ
  pub machines : List Machine
  pub guests : Guests
  -- `tasks` of the ResultServer: the task of an IP address
  pub tracked : List (String × ℕ)
  -- whether the analysis folder of the task exists
  pub storage : Bool
  -- the number of exceptions in the `errors` queue
  pub errors : ℕ
  pub events : List Event
  -- local variables of `launch_analysis`; `guest_log` is `none` while it is unbound
  pub unlocked : Bool
  pub dead_machine : Bool
  pub succeeded : Bool
  pub guest_log : Option (Option ℕ)

-- One round of the loop of `acquire_machine`: the machines as the other threads left them.
pub record Round : Type 0 where
  pub table : List Machine
  pub count : Faults
  pub lock : Faults
  pub now : ℕ

-- What the code around `launch_analysis` does: an exception that a call raises, if it raises one.
pub record Env : Type 0 where
  pub now : ℕ
  pub create_folder_fails : Bool
  pub file_intact : Bool
  pub file_stored : Bool
  pub pcap_link : Option Exc
  pub rounds : List Round
  pub build_options : Option Exc
  pub add_task_fails : Bool
  pub manager : String
  pub guest_start : Faults
  pub task_exists : Bool
  pub start : Option Exc
  pub route : Option Exc
  pub set_starting : Faults
  pub start_analysis : Option Exc
  -- the status that the guest manager wrote while it started the analysis, if it wrote one
  pub manager_status : Option String
  pub read_status : Faults
  pub set_running : Faults
  pub wait_for_completion : Option Exc
  pub set_stopping : Faults
  pub memory_dump : Bool
  pub need_space : Bool
  pub dump : Option Exc
  pub stop : Option Exc
  pub guest_stop : Faults
  pub unroute : Option Exc
  pub guest_remove : Faults
  pub rmtree : Option Exc
  pub release : Faults

abbrev pub note : Event → World → World
note ev w = record w { events = ev ∷ w.events }

-- `machine_lock.acquire()`, at the moment when it returns.
abbrev pub acquire_lock : World → World
acquire_lock w = record w { lock_depth = suc w.lock_depth }

-- `machine_lock.release()` raises an error where the lock is not held.
abbrev pub release_at : ℕ → Exec World (Unit {0})
release_at zero w = (raised other_error, w)
release_at (suc d) w = (ok tt, record w { lock_depth = d })

abbrev pub release_lock : Exec World (Unit {0})
release_lock w = release_at w.lock_depth w

-- `ResultServer().add_task` and `del_task`, on the map from IP addresses to tasks.
abbrev pub track : String → ℕ → World → World
track ip i w = record w {
  tracked = (ip, i) ∷ keep (λ (e : String × ℕ). not (str_eq e.0 ip)) w.tracked;
}

abbrev pub untrack : String → World → World
untrack ip w = record w { tracked = keep (λ (e : String × ℕ). not (str_eq e.0 ip)) w.tracked }
