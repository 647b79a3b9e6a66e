-- ===== src/Lease/Limits.antt =====
-- The quotas and the guaranteed share that `Accept` of internal/lease/lease.go tests.
use forebay.Prelude.{
  ◌≡◌, refl, subst, ◌∙◌, Bool, true, false, ◌&&◌, none, List, [], ◌∷◌, arith, inl, inr, Bool-cases,
  if◌then◌else◌,
}
use forebay.Prelude.Int.{ℤ, pos, ◌+ℤ◌, ◌≤ℤ◌, parts_of_eq, int_laws}
use forebay.Prelude.Int64.{max_int64, add64, add64_exact}
use forebay.Prelude.Text.{text_eq, text_eq_refl}
use forebay.Lease.Types.{Lease, Manager, node_tenant, quota_bounded}
use forebay.Lease.Table.{sum64, is_guaranteed, is_held_by}
use forebay.Lease.Table.Laws.{total, Sized}
use forebay.Lease.Manager.{prune, within_quota, refusal, accept, guaranteed_total}
use forebay.Lease.Invariant.{IsSound}
use forebay.Lease.Invariant.Accept.{Accepts, accept_lem}

-- The sizes that a test selects, as an integer.
abbrev pub sum_of : (Lease → Bool) → List Lease → ℤ
sum_of p [] = pos 0
sum_of p (l ∷ ls) = if p l then l.size +ℤ sum_of p ls else sum_of p ls

pub sum_of_bounds :
    (p : Lease → Bool) (ls : List Lease)
    → Sized ls
    → (pos 0 ≤ℤ sum_of p ls) × (sum_of p ls ≤ℤ total ls)
sum_of_bounds p [] s = omega int_laws
sum_of_bounds p (l ∷ ls) s = elim (Bool-cases (p l)) [
  | inl e ↦ rw e (omega (int_laws, sum_of_bounds p ls s.1))
  | inr e ↦ rw e (omega (int_laws, sum_of_bounds p ls s.1))
]

-- The loops' sums do not wrap while everything lent fits an int64.
pub sum64_exact :
    (p : Lease → Bool) (ls : List Lease)
    → Sized ls
    → total ls ≤ℤ max_int64
    → sum64 p ls ≡ sum_of p ls
unfolding sum64
sum64_exact p [] s h = refl
sum64_exact p (l ∷ ls) s h = elim (Bool-cases (p l)) [
  | inl e ↦
      let b = sum_of_bounds p ls s.1 in
      let ih = sum64_exact p ls s.1 (omega int_laws) in
      rw (e, ih) (add64_exact l.size (sum_of p ls) (omega (int_laws, b)))
  | inr e ↦ rw e (sum64_exact p ls s.1 (omega int_laws))
]

module _ {Disk : Type 0} where
  refusal-within_quota :
      (m : Manager Disk) (l : Lease) (now : ℤ) → refusal m l now ≡ none → within_quota m l ≡ none
  unfolding refusal
  refusal-within_quota m l now h = ground arith

  refusal-guaranteed :
      (m : Manager Disk) (l : Lease) (now : ℤ)
      → refusal m l now ≡ none
      → is_guaranteed l ≡ true
      → add64 (guaranteed_total m) l.size ≤ℤ m.cfg.guaranteed_share m.acct.capacity
  unfolding refusal
  refusal-guaranteed m l now h g = ground arith

  -- What a passed guard says of the sum that it computed.
  within_quota-borrowed :
      (m : Manager Disk) (l : Lease)
      → within_quota m l ≡ none
      → pos 1 ≤ℤ m.cfg.quota.borrowed
      → text_eq l.tenant node_tenant ≡ false
      → (text_eq l.tenant [] ≡ false)
        × (add64 (sum64 (is_held_by l.tenant) m.leases) l.size ≤ℤ m.cfg.quota.borrowed)
  unfolding within_quota quota_bounded
  within_quota-borrowed m l h q t = ground arith

  within_quota-guaranteed :
      (m : Manager Disk) (l : Lease)
      → within_quota m l ≡ none
      → pos 1 ≤ℤ m.cfg.quota.guaranteed
      → text_eq l.tenant node_tenant ≡ false
      → is_guaranteed l ≡ true
      → add64 (sum64 (λ x. is_held_by l.tenant x && is_guaranteed x) m.leases) l.size
        ≤ℤ m.cfg.quota.guaranteed
  unfolding within_quota quota_bounded
  within_quota-guaranteed m l h q t g = ground arith

  -- A sum over the leases with a lease that fits beside them does not wrap.
  sum_with_size :
      (p : Lease → Bool) (m : Manager Disk) (l : Lease)
      → IsSound m
      → pos 0 ≤ℤ l.size
      → m.acct.reserved +ℤ m.acct.borrowed +ℤ l.size ≤ℤ m.acct.capacity
      → add64 (sum64 p m.leases) l.size ≡ l.size +ℤ sum_of p m.leases
  sum_with_size p m l s z fit =
      let b = sum_of_bounds p m.leases s.sized in
      let t = parts_of_eq s.lent in
      rw (sum64_exact p m.leases s.sized (omega (int_laws, s.balanced, t))) (
        add64_exact (sum_of p m.leases) l.size (omega (int_laws, s.balanced, t, b))
        ∙ omega int_laws)

  -- On a sound manager with a positive limit on borrowed capacity, where Accept succeeds for a
  -- tenant other than the node itself, the tenant is named and all it then holds sums, in integers
  -- that do not wrap, to at most the limit.
  pub accept-tenant_quota :
      (m m' : Manager Disk) (l : Lease) (now : ℤ)
      → IsSound m
      → accept m l now ≡ (m', none)
      → pos 1 ≤ℤ m.cfg.quota.borrowed
      → text_eq l.tenant node_tenant ≡ false
      → (text_eq l.tenant [] ≡ false)
        × (sum_of (is_held_by l.tenant) m'.leases ≤ℤ m.cfg.quota.borrowed)
  unfolding prune
  accept-tenant_quota m m' l now s h q t =
      let (ok_, z, fit, same) = subst (Accepts (prune m now) l now) h (accept_lem m l now s) in
      let w =
        within_quota-borrowed (prune m now) l (refusal-within_quota (prune m now) l now ok_) q t in
      let e = sum_with_size (is_held_by l.tenant) m l s z fit in
      (w.0, rw (same.0, text_eq_refl l.tenant, ← e) (w.1))

  -- On a sound manager, where Accept succeeds for a guaranteed lease, all guaranteed leases then
  -- held sum, in integers that do not wrap, to at most the share of the capacity that the
  -- configuration allows.
  accept-guaranteed_share :
      (m m' : Manager Disk) (l : Lease) (now : ℤ)
      → IsSound m
      → accept m l now ≡ (m', none)
      → is_guaranteed l ≡ true
      → sum_of is_guaranteed m'.leases ≤ℤ m.cfg.guaranteed_share m.acct.capacity
  unfolding prune guaranteed_total
  accept-guaranteed_share m m' l now s h g =
      let (ok_, z, fit, same) = subst (Accepts (prune m now) l now) h (accept_lem m l now s) in
      let w = refusal-guaranteed (prune m now) l now ok_ g in
      let e = sum_with_size is_guaranteed m l s z fit in rw (same.0, g, ← e) w

  -- On a sound manager with a positive limit on guaranteed capacity, where Accept succeeds for a
  -- guaranteed lease of a tenant other than the node itself, the guaranteed leases that the tenant
  -- then holds sum, in integers that do not wrap, to at most the limit.
  accept-tenant_guaranteed :
      (m m' : Manager Disk) (l : Lease) (now : ℤ)
      → IsSound m
      → accept m l now ≡ (m', none)
      → is_guaranteed l ≡ true
      → pos 1 ≤ℤ m.cfg.quota.guaranteed
      → text_eq l.tenant node_tenant ≡ false
      → sum_of (λ x. is_held_by l.tenant x && is_guaranteed x) m'.leases ≤ℤ m.cfg.quota.guaranteed
  unfolding prune
  accept-tenant_guaranteed m m' l now s h g q t =
      let (ok_, z, fit, same) = subst (Accepts (prune m now) l now) h (accept_lem m l now s) in
      let w =
        within_quota-guaranteed (prune m now) l (refusal-within_quota (prune m now) l now ok_) q t
          g in
      let e = sum_with_size (λ x. is_held_by l.tenant x && is_guaranteed x) m l s z fit in
      rw (same.0, text_eq_refl l.tenant, g, ← e) w
