-- ===== src/Signatures.antt =====
-- lib/cuckoo/core/plugins.py, `RunSignatures`: which signatures are run on the results of an analysis,
-- and what those that match leave in the report.
pub mod Version
pub mod Evented
pub mod Run
mod Tests
