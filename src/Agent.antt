-- ===== src/Agent.antt =====
-- internal/agent: the borrowed pool of one node, its extents on disk and the leases they belong to.
pub mod Names
pub mod Files
pub mod Extent
pub mod Reconcile
pub mod Pressure
pub mod Residual
pub mod Run
pub mod Layout
pub mod Open
mod Tests
