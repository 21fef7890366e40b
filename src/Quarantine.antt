-- ===== src/Quarantine.antt =====
-- lib/cuckoo/common/quarantine.py: recovering the original file from the quarantine formats of
-- antivirus programs. A decoder returns nothing, stores a file under a name, or raises.
pub mod Result
pub mod Rc4
pub mod Mse
pub mod Kav
pub mod Trend
pub mod Sep
pub mod Dispatch
mod Tests
mod SepTests
