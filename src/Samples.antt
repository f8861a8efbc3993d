-- ===== src/Samples.antt =====
-- Concrete runs: test data, tests, and the theorems at inputs that meet their hypotheses.
mod Data
mod Keys
mod Exits
mod Scheduling
mod Retries
mod Orchestration
mod Workspaces
mod Postponed
mod Agents
mod Workflows
mod Trackers
mod Remotes
