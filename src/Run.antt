-- ===== src/Run.antt =====
-- src/run.rs: rewriting one extent, and the account of what was done.
pub mod Locate
pub mod Copy
pub mod Redirect
pub mod Process
pub mod Summary
