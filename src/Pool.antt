-- ===== src/Pool.antt =====
-- internal/pool/pool.go: how one node's capacity is divided. `Bytes` is an int64.
pub mod Laws
mod Tests
use forebay.Prelude.{◌≡◌, Bool, true, false, ◌&&◌, Option, none, some, if◌then◌else◌}
use forebay.Prelude.Int.{ℤ, pos, ltb_ℤ, leb_ℤ}
use forebay.Prelude.Int64.{add64, sub64}

pub data Error : Type 0 where
  negative overcommit insufficient over_release : Error

pub record Accounting : Type 0 where
  pub capacity : ℤ
  pub reserved : ℤ
  pub borrowed : ℤ

-- What a method that returns only an error leaves: the new accounting, or the error and the old
-- one.
pub data Outcome : Type 0 where
  done : Accounting → Outcome
  failed : Error → Outcome

unfoldable pub free : Accounting → ℤ
free a = sub64 (sub64 a.capacity a.reserved) a.borrowed

unfoldable pub validate : Accounting → Option Error
validate a =
    if ltb_ℤ a.capacity (pos 0)
    then some negative
    else if ltb_ℤ a.reserved (pos 0)
    then some negative
    else if ltb_ℤ a.borrowed (pos 0)
    then some negative
    else if ltb_ℤ (free a) (pos 0)
    then some overcommit
    else none

unfoldable pub can_lend : Accounting → ℤ → Bool
can_lend a n = leb_ℤ (pos 0) n && leb_ℤ n (free a)

unfoldable pub lend : Accounting → ℤ → Outcome
lend a n =
    if ltb_ℤ n (pos 0)
    then failed negative
    else if can_lend a n
    then done (record a { borrowed = add64 a.borrowed n })
    else failed insufficient

-- `Accounting.Return`
unfoldable pub give_back : Accounting → ℤ → Outcome
give_back a n =
    if ltb_ℤ n (pos 0)
    then failed negative
    else if ltb_ℤ a.borrowed n
    then failed over_release
    else done (record a { borrowed = sub64 a.borrowed n })

unfoldable pub reclaimable : Accounting → ℤ
reclaimable a = a.borrowed
