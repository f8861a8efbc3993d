-- ===== src/Trackers.antt =====
-- The trackers: the shared normalisation of trackers/base.py, and the adapter of trackers/memory.py.
pub mod Normalize
pub mod Faults
pub mod Memory
pub mod Reads
pub mod Paging
pub mod Idle
pub mod Listing
pub mod Listed
pub mod Visible
pub mod Distinct
pub mod Exhausted
pub mod Tools
pub mod Boundary
pub mod Unique
