-- ===== src/Store.antt =====
-- The client's store of projects, worktrees and tab strips (apps/web/src/core/stores/app.ts).
pub mod Types
pub mod Keys
pub mod Tabs
pub mod Actions
pub mod Layout
pub mod Refresh
mod Examples
