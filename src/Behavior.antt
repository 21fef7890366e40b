-- ===== src/Behavior.antt =====
-- modules/processing/behavior.py: what is built from the logged calls of the processes.
pub mod Calls
pub mod Texts
pub mod Marks
pub mod Summary
pub mod Tree
pub mod Buffers
mod Tests
