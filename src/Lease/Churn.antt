-- ===== src/Lease/Churn.antt =====
-- internal/lease/lease.go: the history of reclaims, and what it says about lending again.
pub mod Laws
use forebay.Prelude.{
  ℕ, zero, suc, ◌-◌, Bool, true, false, not, ◌&&◌, ◌||◌, List, [], ◌∷◌, leb, if◌then◌else◌,
}
use forebay.Prelude.Int.{ℤ, pos, negsuc, ◌+ℤ◌, ◌-ℤ◌, ltb_ℤ, leb_ℤ}
use forebay.Prelude.Int64.{add64, max_int64, two63}
use forebay.Lease.Types.{Config}

-- How many times of the history lie after a cutoff.
unfoldable pub count_after : ℤ → List ℤ → ℕ
count_after cutoff [] = 0
count_after cutoff (t ∷ ts) = let n = count_after cutoff ts in if ltb_ℤ cutoff t then suc n else n

unfoldable pub keep_after : ℤ → List ℤ → List ℤ
keep_after cutoff [] = []
keep_after cutoff (t ∷ ts) =
    let kept = keep_after cutoff ts in if ltb_ℤ cutoff t then t ∷ kept else kept

unfoldable pub is_churning : Config → List ℤ → ℤ → Bool
is_churning cfg reclaims now =
    if leb_ℤ cfg.churn_budget (pos 0) || leb_ℤ cfg.churn_window (pos 0)
    then false
    else leb_ℤ cfg.churn_budget (pos (count_after (now -ℤ cfg.churn_window) reclaims))

unfoldable pub retention : Config → ℤ
retention cfg = if ltb_ℤ cfg.churn_window cfg.min_term then cfg.min_term else cfg.churn_window

-- `prune`, on the history that it replaces.
unfoldable pub prune_history : Config → List ℤ → ℤ → List ℤ
prune_history cfg reclaims now =
    let r = retention cfg in if leb_ℤ r (pos 0) then [] else keep_after (now -ℤ r) reclaims

-- `for i := 1; i < n && d < window; i++ { d *= 2 }`, by the rounds left.
unfoldable pub back_off : ℕ → ℤ → ℤ → ℤ
back_off zero window d = d
back_off (suc k) window d = elim (ltb_ℤ d window) [
  | true ↦ back_off k window (add64 d d)
  | false ↦ d
]

unfoldable pub cap_at : ℤ → ℤ → ℤ
cap_at window d = if ltb_ℤ (pos 0) window && ltb_ℤ window d then window else d

-- The duration of the cooldown and the reclaims counted.
unfoldable pub cooldown_for : Config → List ℤ → ℤ → ℤ × ℕ
cooldown_for cfg reclaims now =
    if leb_ℤ cfg.min_term (pos 0)
    then (pos 0, 0)
    else let n = count_after (now -ℤ cfg.churn_window) reclaims in
      if leb n 1 || not cfg.autonomy
      then (cfg.min_term, n)
      else (cap_at cfg.churn_window (back_off (n - 1) cfg.churn_window cfg.min_term), n)

-- `m.reclaims[len(m.reclaims)-1]`, of a history that is not empty.
unfoldable pub last_of : ℤ → List ℤ → ℤ
last_of t [] = t
last_of t (u ∷ us) = last_of u us

-- `Time.Sub` saturates.
unfoldable pub saturate : ℤ → ℤ
saturate z =
    if ltb_ℤ max_int64 z
    then max_int64
    else let low = negsuc (two63 - 1) in if ltb_ℤ z low then low else z

unfoldable pub in_cooldown : Config → List ℤ → ℤ → Bool × ℤ
in_cooldown cfg [] now = (false, pos 0)
in_cooldown cfg (t ∷ ts) now =
    if leb_ℤ cfg.min_term (pos 0)
    then (false, pos 0)
    else let d = (cooldown_for cfg (t ∷ ts) now).0 in
      let until = saturate (last_of t ts +ℤ d -ℤ now) in
      if ltb_ℤ (pos 0) until then (true, until) else (false, pos 0)
