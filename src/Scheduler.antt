-- ===== src/Scheduler.antt =====
-- lib/cuckoo/core/scheduler.py: the thread that runs one analysis (`Launch`, from `Exec` and
-- `World`), and the network routes (`Routing`).
pub mod Service
pub mod Run
pub mod Exec
pub mod World
pub mod Launch
pub mod Routing
