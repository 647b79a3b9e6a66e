-- ===== src/Lease/Invariant.antt =====
-- The invariant of a `Manager` of internal/lease/lease.go, and the methods that change its books.
pub mod Release
pub mod Loops
pub mod Accept
pub mod Methods
use forebay.Prelude.{◌≡◌}
use forebay.Prelude.Int.{ℤ}
use forebay.Pool.{Accounting}
use forebay.Pool.Laws.{IsBalanced}
use forebay.Lease.Types.{Manager}
use forebay.Lease.Table.Laws.{total, Sized, Distinct}

pub record IsSound {Disk : Type 0} (m : Manager Disk) : Type 0 where
  pub balanced : IsBalanced m.acct
  pub lent : m.acct.borrowed ≡ total m.leases
  pub sized : Sized m.leases
  pub distinct : Distinct m.leases
