-- ===== src/Lease/Churn/Laws.antt =====
-- The cooldown after a reclaim (`cooldownFor`) and the pruned history (`prune`).
use forebay.Prelude.{
  ℕ, zero, suc, ◌-◌, ◌≤◌, ◌≡◌, refl, true, List, [], ◌∷◌, arith, inl, inr, Bool-cases,
}
use forebay.Prelude.Int.{ℤ, pos, ◌+ℤ◌, ◌-ℤ◌, ◌≤ℤ◌, ◌<ℤ◌, ltb_ℤ, +ℤ_parts, int_laws}
use forebay.Prelude.Int64.{IsInt64, add64_exact}
use forebay.Lease.Types.{Config}
use forebay.Lease.Churn.{
  count_after, keep_after, is_churning, retention, prune_history, back_off, cap_at, cooldown_for,
}

-- The largest window whose double is an int64.
abbrev pub widest_window : ℤ
widest_window = pos 4_611_686_018_427_387_904

-- Doubling never lowers the duration.
back_off-ge :
    (k : ℕ) (window d : ℤ)
    → window ≤ℤ widest_window
    → pos 0 ≤ℤ d
    → IsInt64 d
    → d ≤ℤ back_off k window d
unfolding back_off
back_off-ge zero window d w p i = omega arith
back_off-ge (suc k) window d w p i = elim (Bool-cases (ltb_ℤ d window)) [
  | inl below ↦
      let lt : d <ℤ window = ground arith in
      let e = add64_exact d d (omega int_laws) in
      let r = back_off-ge k window (d +ℤ d) w (omega int_laws) (omega int_laws) in
      ground (arith, below, e, +ℤ_parts d d, r)
  | inr above ↦ ground (arith, above)
]

back_off-stays : (k : ℕ) (window d : ℤ) → window <ℤ d → back_off k window d ≡ d
unfolding back_off
back_off-stays zero window d h = refl
back_off-stays (suc k) window d h = ground arith

-- With a positive minimum term of at most the churn window, and a window whose double is an int64,
-- the cooldown is at least the term and at most the window, whatever the history of reclaims.
pub cooldown_for_bounds :
    (cfg : Config) (reclaims : List ℤ) (now : ℤ)
    → pos 1 ≤ℤ cfg.min_term
    → cfg.min_term ≤ℤ cfg.churn_window
    → cfg.churn_window ≤ℤ widest_window
    → (cfg.min_term ≤ℤ (cooldown_for cfg reclaims now).0)
      × ((cooldown_for cfg reclaims now).0 ≤ℤ cfg.churn_window)
unfolding cooldown_for cap_at
cooldown_for_bounds cfg reclaims now p le w =
    let n = count_after (now -ℤ cfg.churn_window) reclaims in
    let b = back_off-ge (n - 1) cfg.churn_window cfg.min_term w (omega arith) (omega arith) in
    ground (arith, b)

-- With autonomy on and a minimum term longer than a positive churn window, two or more reclaims
-- within the window make the cooldown exactly the window.
cooldown_for_shrinks :
    (cfg : Config) (reclaims : List ℤ) (now : ℤ)
    → pos 1 ≤ℤ cfg.churn_window
    → cfg.churn_window <ℤ cfg.min_term
    → cfg.autonomy ≡ true
    → 2 ≤ count_after (now -ℤ cfg.churn_window) reclaims
    → (cooldown_for cfg reclaims now).0 ≡ cfg.churn_window
unfolding cooldown_for cap_at
cooldown_for_shrinks cfg reclaims now p lt au many = ground (
  arith,
  back_off-stays (count_after (now -ℤ cfg.churn_window) reclaims - 1) cfg.churn_window cfg.min_term,
)

count_after-keep_after :
    (c k : ℤ) (ts : List ℤ) → k ≤ℤ c → count_after c (keep_after k ts) ≡ count_after c ts
unfolding count_after keep_after
count_after-keep_after c k [] h = refl
count_after-keep_after c k (t ∷ ts) h = ground (arith, count_after-keep_after c k ts h)

count_after-prune_history :
    (cfg : Config) (reclaims : List ℤ) (now : ℤ)
    → pos 1 ≤ℤ retention cfg
    → count_after (now -ℤ cfg.churn_window) (prune_history cfg reclaims now)
      ≡ count_after (now -ℤ cfg.churn_window) reclaims
unfolding prune_history retention
count_after-prune_history cfg reclaims now p =
    grind
      (int_laws, count_after-keep_after (now -ℤ cfg.churn_window) (now -ℤ retention cfg) reclaims)

-- Pruning the history of reclaims changes neither the test for churning nor the cooldown.
prune_history_unseen :
    (cfg : Config) (reclaims : List ℤ) (now : ℤ)
    → (is_churning cfg (prune_history cfg reclaims now) now ≡ is_churning cfg reclaims now)
      × (cooldown_for cfg (prune_history cfg reclaims now) now ≡ cooldown_for cfg reclaims now)
unfolding is_churning cooldown_for retention
prune_history_unseen cfg reclaims now = (
  ground (arith, count_after-prune_history cfg reclaims now),
  ground (arith, count_after-prune_history cfg reclaims now),
)
