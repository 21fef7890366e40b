-- ===== src/Scheduler/Service.antt =====
-- `Scheduler.start` of lib/cuckoo/core/scheduler.py: the loop that hands tasks to analysis managers.
pub mod Once
mod Tests
use capev.Base.{
  ℕ, suc, ◌+◌, ◌==◌, Bool, true, false, not, ◌&&◌, Option, none, some, List, [], ◌∷◌, length, leb,
  if◌then◌else◌,
}
use capev.Database.Sql.{Faults}
use capev.Database.Machines.{Machine, get_available_machines}
use capev.Database.Tasks.{Task, FetchFaults, fetch}
use capev.Machinery.{availables, running as running_machines}

-- The configuration; a count of 0 is no limit.
pub record Limits : Type 0 where
  pub freespace : Bool
  pub max_machines_count : ℕ
  pub maxcount : ℕ

-- `if self.maxcount is None: self.maxcount = self.cfg.cuckoo.max_analysis_count`
abbrev pub maxcount_of : Option ℕ → ℕ → ℕ
maxcount_of none max_analysis_count = max_analysis_count
maxcount_of (some maxcount) max_analysis_count = maxcount

-- The variable `task`, which has no value before the first machine is tried.
pub data Local : Type 0 where
  unbound : Local
  fetched : Option Task → Local

-- The scheduler, the table of tasks, and the ids of the tasks whose analysis was started, the latest
-- first.
pub record Service : Type 0 where
  pub running : Bool
  pub total_analysis_count : ℕ
  pub task : Local
  pub tasks : List Task
  pub started : List ℕ
  pub is_shut : Bool

-- What a round meets: the signal to stop, the machine lock, the disk, the machines at the three
-- times when they are read, what others did to the tasks, whether no analysis is active, and
-- whether a thread has reported an exception.
pub record Round : Type 0 where
  pub signalled : Bool
  pub lock_taken : Bool
  pub need_space : Bool
  pub at_running : List Machine
  pub at_availables : List Machine
  pub at_listing : List Machine
  pub others : List Task → List Task
  pub now : ℕ
  pub is_idle : Bool
  pub has_error : Bool
  pub faults : Faults
  pub fetch_faults : FetchFaults

-- A round ends, or raises the `UnboundLocalError` of `task` or the exception of a thread.
pub data Turn : Type 0 where
  next unbound_local error : Service → Turn

-- `task = self.db.fetch(machine)`
abbrev pub tried : FetchFaults → ℕ → Machine → Service → Service
tried f now m s = record s {
  task = fetched (fetch f now m s.tasks).0;
  tasks = (fetch f now m s.tasks).1;
}

-- The machines in their order, up to the first that gets a task.
unfoldable pub search : FetchFaults → ℕ → List Machine → Service → Service
search f now [] s = s
search f now (m ∷ ms) s = elim (fetch f now m s.tasks).0 [
  | none ↦ search f now ms (tried f now m s)
  | some t ↦ tried f now m s
]

-- `if task: …`
abbrev pub process : Local → Service → Turn
process unbound s = unbound_local s
process (fetched none) s = next s
process (fetched (some t)) s =
    next
      (record s { total_analysis_count = s.total_analysis_count + 1; started = t.id ∷ s.started })

unfoldable pub hand_out : Round → Service → Turn
unfolding search
hand_out r s =
    let s' = search r.fetch_faults r.now (get_available_machines r.faults r.at_listing) s in
    process s'.task s'

-- `stop`, of which the machines that are shut down are not kept.
abbrev pub stop : Service → Service
stop s = record s { running = false; is_shut = true }

abbrev pub is_full : Limits → Service → Bool
is_full c s = not (c.maxcount == 0) && leb c.maxcount s.total_analysis_count

abbrev pub raise_error : Bool → Turn → Turn
raise_error true (next s) = error s
raise_error false (next s) = next s
raise_error b (unbound_local s) = unbound_local s
raise_error b (error s) = error s

abbrev pub has_too_many : Limits → Round → Bool
has_too_many c r =
    not (c.max_machines_count == 0)
    && leb c.max_machines_count (length (running_machines r.faults r.at_running))

-- The body of the loop. Where it continues early, no exception of a thread is raised.
unfoldable pub turn : Limits → Round → Service → Turn
turn c r s =
    if r.lock_taken
    then next s
    else if c.freespace && r.need_space
    then next s
    else if has_too_many c r
    then next s
    else if availables r.faults r.at_availables == 0
    then next s
    else if is_full c s
    then raise_error r.has_error (next (if r.is_idle then stop s else s))
    else raise_error r.has_error (hand_out r s)

-- What happens before the test of the loop.
abbrev pub meet : Round → Service → Service
meet r s = record s { tasks = r.others s.tasks; running = s.running && not r.signalled }

pub data Ending : Type 0 where
  stopped unbound_local error waiting : Ending

-- How the loop goes on after a round.
abbrev pub resume : (Service → Ending × Service) → Turn → Ending × Service
resume go (next s) = go s
resume go (unbound_local s) = (unbound_local, s)
resume go (error s) = (error, s)

-- The loop over the rounds that it meets; `waiting` is no end.
unfoldable pub serve : Limits → List Round → Service → Ending × Service
serve c [] s = (waiting, s)
serve c (r ∷ rs) s =
    let s0 = meet r s in if s0.running then resume (serve c rs) (turn c r s0) else (stopped, s0)

-- `start`, after `initialize`.
abbrev pub initial : List Task → Service
initial tasks = record {
  running = true;
  total_analysis_count = 0;
  task = unbound;
  tasks = tasks;
  started = [];
  is_shut = false;
}
