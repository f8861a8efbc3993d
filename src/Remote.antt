-- ===== src/Remote.antt =====
-- The SSH workers: ssh/worker.py, without the processes that it starts.
pub mod Quote
pub mod Reparse
pub mod Paths
pub mod Shell
pub mod Unexpanded
pub mod Cleanup
pub mod Hosts
pub mod Pool
pub mod Failover
pub mod Latch
pub mod Capacity
pub mod Runs
pub mod Parse
pub mod Brackets
