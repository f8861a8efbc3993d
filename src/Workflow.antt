-- ===== src/Workflow.antt =====
-- The workflow file: workflow/loader.py and workflow/config.py.
pub mod Coerce
pub mod Expand
pub mod Build
pub mod Valid
pub mod Loader
pub mod Split
pub mod Fuel
