-- ===== src/Lease/Invariant/Release.antt =====
-- `releaseLocked` of internal/lease/lease.go on a sound manager.
use forebay.Prelude.{◌≡◌, ◌∙◌, none, List, [], ◌∷◌, All}
use forebay.Prelude.Int.{pos, ◌-ℤ◌, ◌≤ℤ◌, parts_of_eq, int_laws}
use forebay.Prelude.Text.{text_eq_sym}
use forebay.Pool.Laws.{give_back-done}
use forebay.Lease.Types.{Lease, Manager}
use forebay.Lease.Table.{erase}
use forebay.Lease.Table.Laws.{
  Fresh, Held, erase-All, erase-Distinct, lookup-All, total-erase, total_nonneg, lookup-erase_ne,
}
use forebay.Lease.Manager.{release_locked}
use forebay.Lease.Invariant.{IsSound}

module _ {Disk : Type 0} where
  -- The manager that a release leaves.
  abbrev pub without : Manager Disk → Lease → Manager Disk
  without m l = record m {
    acct = record (m.acct) { borrowed = m.acct.borrowed -ℤ l.size };
    leases = erase l.id m.leases;
  }

  pub size_bounds :
      (m : Manager Disk) (l : Lease)
      → IsSound m
      → Held m.leases l
      → (pos 0 ≤ℤ l.size) × (l.size ≤ℤ m.acct.borrowed)
  size_bounds m l s h =
      let p = lookup-All (λ x. pos 0 ≤ℤ x.size) l.id m.leases l s.sized h in
      (
        p,
        omega (
          int_laws,
          parts_of_eq s.lent,
          parts_of_eq (total-erase l.id m.leases l h),
          total_nonneg (erase l.id m.leases)
              (erase-All (λ x. pos 0 ≤ℤ x.size) l.id m.leases s.sized),
        ),
      )

  pub release_locked_lem :
      (m : Manager Disk) (l : Lease)
      → IsSound m
      → Held m.leases l
      → release_locked m l ≡ (without m l, none)
  unfolding release_locked
  release_locked_lem m l s h =
      let (p, q) = size_bounds m l s h in
      rw (give_back-done m.acct l.size s.balanced p q, release_locked)

  pub without-IsSound :
      (m : Manager Disk) (l : Lease) → IsSound m → Held m.leases l → IsSound (without m l)
  without-IsSound m l s h =
      let (p, q) = size_bounds m l s h in
      record {
        balanced = omega (int_laws, s.balanced);
        lent = omega (int_laws, parts_of_eq s.lent, parts_of_eq (total-erase l.id m.leases l h));
        sized = erase-All (λ x. pos 0 ≤ℤ x.size) l.id m.leases s.sized;
        distinct = erase-Distinct l.id m.leases s.distinct;
      }

-- What stays held once one lease has gone.
pub All-Held-erase :
    (k : Lease) (ms ls : List Lease)
    → Fresh k.id ls
    → All (Held ms) ls
    → All (Held (erase k.id ms)) ls
All-Held-erase k ms [] f h = tt
All-Held-erase k ms (x ∷ ls) f h = (
  lookup-erase_ne x.id k.id ms (text_eq_sym x.id k.id ∙ f.0) ∙ h.0,
  All-Held-erase k ms ls f.1 h.1,
)
