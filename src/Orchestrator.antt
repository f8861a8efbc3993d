-- ===== src/Orchestrator.antt =====
-- orchestrator/core.py: the single authority over scheduling state.
pub mod State
pub mod Stop
pub mod Claims
pub mod Tick
pub mod Handlers
pub mod Tokens
pub mod Updates
pub mod Loop
pub mod Shape
pub mod Invariant
pub mod Preserved
pub mod Commands
pub mod History
pub mod Slots
pub mod Limit
pub mod Stalls
pub mod Shutdown
pub mod Open
pub mod Accounting
pub mod Rising
pub mod Exits
pub mod Postponed
