-- ===== src/Lease.antt =====
-- internal/lease: capacity lent revocably, and what is handed back under pressure.
pub mod Types
pub mod Table
pub mod Order
pub mod Churn
pub mod Manager
pub mod Restore
pub mod Invariant
pub mod Reclaim
pub mod Limits
pub mod Journal
mod Tests
