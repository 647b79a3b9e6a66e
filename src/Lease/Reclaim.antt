-- ===== src/Lease/Reclaim.antt =====
-- `Reclaim`, `Expire` and `Release` of internal/lease/lease.go, seen by a caller.
pub mod Soundness
pub mod Amount
pub mod Guarantee
