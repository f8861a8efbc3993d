-- ===== src/Agent.antt =====
-- What the service makes of the messages of a coding agent: agent/events.py and agent/approvals.py.
pub mod Payload
pub mod Usage
pub mod Deltas
pub mod Independent
pub mod RateLimits
pub mod Approvals
pub mod Approved
pub mod Runner
pub mod Turns
pub mod Attempts
