-- ===== src/Checkpoint/Tests.antt =====
-- Staging on a node at concrete values, and the theorem about it applied there.
use forebay.Prelude.{◌≡◌, refl, true, false, none, some, List, [], ◌∷◌, arith}
use forebay.Prelude.Int.{pos, ◌+ℤ◌, ◌-ℤ◌, ltb_ℤ}
use forebay.Prelude.Int64.{add64, sub64, wrap64}
use forebay.Prelude.Text.{bytes}
use forebay.Pool.{can_lend, free}
use forebay.Lease.Types.{Manager, elastic, guaranteed}
use forebay.Lease.Table.{sum64}
use forebay.Lease.Manager.{guaranteed_total, guaranteed_free}
use forebay.Lease.Invariant.{IsSound}
use forebay.Checkpoint.{Reservation, revocable, check}
use forebay.Checkpoint.Laws.{check-guaranteed_free}

abbrev node : Manager (List Unit)
node = record {
  cfg = record {
    reclaim_within = pos 30;
    guaranteed_share = λ _. pos 250;
    min_term = pos 30;
    churn_window = pos 600;
    churn_budget = pos 6;
    autonomy = true;
    quota = record { borrowed = pos 0; guaranteed = pos 0 };
  };
  acct = record { capacity = pos 1000; reserved = pos 200; borrowed = pos 100 };
  leases =
      record {
        id = bytes "staging";
        tenant = bytes "train";
        class = guaranteed;
        size = pos 100;
        granted_at = pos 0;
        term = pos 1000;
      }
      ∷ [];
  reclaims = [];
  journal = none;
  disk = [];
  restored = true;
}

node-IsSound : IsSound node
unfolding ◌+ℤ◌
node-IsSound = record {
  balanced = omega arith;
  lent = refl;
  sized = omega arith;
  distinct = (tt, tt);
}

elastic_refused : check (record { size = pos 10; class = elastic }) (pos 150) ≡ some revocable
unfolding check
elastic_refused = refl

abbrev asked : Reservation
asked = record { size = pos 150; class = guaranteed }

check-guaranteed_free_example :
    (can_lend node.acct (pos 150) ≡ true)
    × (ltb_ℤ (pos 250) (add64 (guaranteed_total node) (pos 150)) ≡ false)
unfolding check guaranteed_free guaranteed_total sum64 free add64 sub64 wrap64 ◌+ℤ◌ ◌-ℤ◌
check-guaranteed_free_example =
    check-guaranteed_free node node-IsSound asked (omega arith) (omega arith) refl
