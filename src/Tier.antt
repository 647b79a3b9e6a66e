-- ===== src/Tier.antt =====
-- internal/fasttier: the cache of immutable blocks on borrowed capacity.
pub mod Types
pub mod Admission
pub mod Slab
pub mod Cache
pub mod Readers
pub mod Safety
pub mod Contract
mod Tests
