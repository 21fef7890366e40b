-- ===== src/GuestManager.antt =====
-- lib/cuckoo/core/guest.py: the guest manager, which talks to the agent in a virtual machine.
pub mod Wait
pub mod Start
mod Tests
