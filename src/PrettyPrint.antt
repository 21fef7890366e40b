-- ===== src/PrettyPrint.antt =====
-- The decoders of flag words in lib/cuckoo/common/utils_pretty_print_funcs.py: how a report names
-- the bits of an argument of an API call.
pub mod Flags
pub mod Tables
pub mod Access
pub mod Hex
pub mod Lossless
mod Tests
