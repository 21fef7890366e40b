-- ===== src/Scheduler/Run.antt =====
-- `AnalysisManager.run` of lib/cuckoo/core/scheduler.py: an analysis with its further attempts after
-- a dead machine, on top of `launch_analysis`.
pub mod Settled
use capev.Base.{ℕ, suc, ◌+◌, ◌-◌, Bool, true, false, Option, none, some, List, [], ◌∷◌}
use capev.Database.Sql.{Faults}
use capev.Database.Tasks as Queue
use capev.Database.Tasks.{completed, set_status}
use capev.Scheduler.Exec.{Exc, dead_machine, Result, ok, raised, blocked}
use capev.Scheduler.World.{World, Env, Task}
use capev.Scheduler.Launch.{launch_analysis}

-- `while True: try: success = self.launch_analysis() …`, over the attempts, each with what it meets.
-- `blocked` is no end: the attempts are used up.
abbrev pub retry : (World → Result Bool × World) → Result Bool × World → Result Bool × World
retry again (raised dead_machine, w) = again w
retry again (r, w) = (r, w)

unfoldable pub launch_until : List Env → Task → World → Result Bool × World
launch_until [] task w = (blocked, w)
launch_until (e ∷ es) task w = retry (launch_until es task) (launch_analysis e task w)

-- `active_analysis_count`, the table of the tasks, and what one thread changes.
pub record Program : Type 0 where
  pub active : ℕ
  pub tasks : List Queue.Task
  pub world : World

-- What follows a launch. All exceptions are caught, of `view_task` and of the link too, so the
-- thread always comes to the last line; only a wait that does not end keeps it from there.
abbrev pub conclude : Faults → ℕ → Task → Result Bool × World → Program → Program
conclude f now task (ok success, w) p = record {
  active = p.active - 1;
  tasks = set_status f now task.id completed p.tasks;
  world = w;
}
conclude f now task (raised e, w) p = record p { active = p.active - 1; world = w }
conclude f now task (blocked, w) p = record p { world = w }

unfoldable pub run : List Env → Faults → ℕ → Task → Program → Program
run es f now task p =
    conclude f now task (launch_until es task p.world) (record p { active = p.active + 1 })
