-- ===== src/Database.antt =====
-- lib/cuckoo/core/database.py: the tables on which the scheduler works. Each method runs under the
-- class lock (`@classlock`), so a method is one atomic function from table to table.
pub mod Sql
pub mod Machines
pub mod Tasks
pub mod Guests
