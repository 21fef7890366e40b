-- ===== src/ResultServer.antt =====
-- lib/cuckoo/core/resultserver.py: the server to which the guests send their logs and files. A byte
-- string is a list of numbers.
pub mod Lines
pub mod Limiter
pub mod Names
pub mod Sessions
pub mod Protocol
pub mod Upload
pub mod Streams
mod Tests
