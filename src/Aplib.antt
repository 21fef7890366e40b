-- ===== src/Aplib.antt =====
-- lib/cuckoo/common/aplib.py: decompression of aPLib data. A byte string is a list of numbers.
pub mod Reader
pub mod Depack
pub mod Header
mod Tests
