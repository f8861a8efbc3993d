-- ===== src/Workspace.antt =====
-- The workspaces of issues: workspace/safety.py and workspace/manager.py.
pub mod Safety
pub mod Manager
pub mod Containment
pub mod Removal
pub mod Creation
pub mod Created
