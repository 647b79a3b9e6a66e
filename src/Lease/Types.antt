-- ===== src/Lease/Types.antt =====
-- internal/lease/lease.go: the data. A `Class` is an int. Times are nanoseconds since a fixed
-- origin and durations are nanoseconds, both signed; a `time.Time` is wide enough that adding a
-- duration to it is taken not to wrap.
use forebay.Prelude.{
  Bool, true, false, not, ◌&&◌, ◌||◌, Option, none, some, List, [], if◌then◌else◌,
}
use forebay.Prelude.Int.{ℤ, pos, ◌+ℤ◌, ltb_ℤ, leb_ℤ, eqb_ℤ}
use forebay.Prelude.Text.{Text, bytes}
use forebay.Pool.{Accounting}
use forebay.Pool

-- The reclaim order, cheapest first.
abbrev pub opportunistic : ℤ
opportunistic = pos 0

abbrev pub elastic : ℤ
elastic = pos 1

abbrev pub guaranteed : ℤ
guaranteed = pos 2

pub data Error : Type 0 where
  duplicate bad_class bad_term guarantee_cap tenant_quota no_tenant bad_quota : Error
  churning cooldown not_restored no_deadline no_such_lease : Error
  corrupt io : Error
  accounting : Pool.Error → Error

pub record Lease : Type 0 where
  pub id : Text
  pub tenant : Text
  pub class : ℤ
  pub size : ℤ
  pub granted_at : ℤ
  pub term : ℤ

pub record Quota : Type 0 where
  pub borrowed : ℤ
  pub guaranteed : ℤ

-- `guaranteed_share` is the product `pool.Bytes(float64(capacity) * GuaranteedFraction)` as a
-- function of the capacity.
pub record Config : Type 0 where
  pub reclaim_within : ℤ
  pub guaranteed_share : ℤ → ℤ
  pub min_term : ℤ
  pub churn_window : ℤ
  pub churn_budget : ℤ
  pub autonomy : Bool
  pub quota : Quota

pub data Loaded : Type 0 where
  loaded : List Lease → Loaded
  unreadable : Error → Loaded

-- The `Journal` interface over some persistent state. An error of `save` is the value `some e`.
pub record Journal (Disk : Type 0) : Type 0 where
  pub save : Disk → List Lease → Disk × Option Error
  pub load : Disk → Loaded

-- `leases` is the map from identifiers to leases, in some order: a lease stands under its own
-- identifier. `disk` is the state that the journal persists to.
pub record Manager (Disk : Type 0) : Type 0 where
  pub cfg : Config
  pub acct : Accounting
  pub leases : List Lease
  pub reclaims : List ℤ
  pub journal : Option (Journal Disk)
  pub disk : Disk
  pub restored : Bool

pub record Result : Type 0 where
  pub reclaimed : ℤ
  pub shortfall : ℤ
  pub bounded : Bool
  pub dropped : List Text
  pub unfittable : List Text
  pub err : Option Error

unfoldable pub valid_class : ℤ → Bool
valid_class c = leb_ℤ opportunistic c && leb_ℤ c guaranteed

-- How long a class may take to hand capacity back, and whether any deadline applies.
unfoldable pub reclaim_deadline : ℤ → Config → ℤ × Bool
reclaim_deadline c cfg =
    if eqb_ℤ c opportunistic
    then (pos 0, true)
    else if eqb_ℤ c elastic
    then (cfg.reclaim_within, true)
    else (pos 0, false)

unfoldable pub expires_at : Lease → ℤ
expires_at l = l.granted_at +ℤ l.term

unfoldable pub is_expired : Lease → ℤ → Bool
is_expired l now = not (ltb_ℤ now (expires_at l))

unfoldable pub quota_bounded : Quota → Bool
quota_bounded q = ltb_ℤ (pos 0) q.borrowed || ltb_ℤ (pos 0) q.guaranteed

unfoldable pub validate_quota : Quota → Option Error
validate_quota q =
    if ltb_ℤ (pos 0) q.borrowed && ltb_ℤ q.borrowed q.guaranteed then some bad_quota else none

-- The tenant under which the node lends to itself.
abbrev pub node_tenant : Text
node_tenant = bytes "system:node"

abbrev pub no_result : Result
no_result = record {
  reclaimed = pos 0;
  shortfall = pos 0;
  bounded = false;
  dropped = [];
  unfittable = [];
  err = none;
}
