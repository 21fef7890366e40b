-- ===== src/Agent.antt =====
-- agent/agent.py: the agent in the virtual machine, to which the guest manager sends its requests.
pub mod Handlers
pub mod Server
mod Tests
