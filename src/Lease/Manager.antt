-- ===== src/Lease/Manager.antt =====
-- internal/lease/lease.go: the methods of `Manager`. A method that locks is one step, so a call
-- returns the new manager with its result. The text of a wrapped error is not kept, its kind is.
use forebay.Prelude.{
  Bool, true, false, not, ◌&&◌, ◌||◌, Option, none, some, List, [], ◌∷◌, ◌++◌, if◌then◌else◌,
}
use forebay.Prelude.Int.{ℤ, pos, ltb_ℤ, leb_ℤ, eqb_ℤ}
use forebay.Prelude.Int64.{add64, sub64}
use forebay.Prelude.Text.{Text, text_eq}
use forebay.Pool.{Accounting, done, failed, free, give_back, lend}
use forebay.Lease.Types.{
  Error, Lease, Config, Journal, Manager, Result, elastic, node_tenant, no_result, valid_class,
  reclaim_deadline, is_expired, quota_bounded,
}
use forebay.Lease.Table.{lookup, erase, insert, sum64, is_guaranteed, is_held_by}
use forebay.Lease.Order.{sort_by_reclaim_order}
use forebay.Lease.Churn.{is_churning, prune_history, in_cooldown}

-- The first refusal of a chain of guards.
infixr 20 ◌orelse◌
abbrev pub ◌orelse◌ {ℓ} : {A : Type ℓ} → Option A → Option A → Option A
some e orelse r = some e
none orelse r = r

abbrev pub refuse_if : Bool → Error → Option Error
refuse_if c e = if c then some e else none

-- `New`, with the journal of `WithJournal` where there is one.
unfoldable pub new :
    {Disk : Type 0} → Accounting → Config → Option (Journal Disk) → Disk → Manager Disk
new acct cfg j d = record {
  cfg = cfg;
  acct = acct;
  leases = [];
  reclaims = [];
  journal = j;
  disk = d;
  restored = elim j [ none ↦ true | some _ ↦ false ];
}

module _ {Disk : Type 0} where
  unfoldable pub leases_locked : Manager Disk → List Lease
  leases_locked m = sort_by_reclaim_order m.leases

  unfoldable pub persist_locked : Manager Disk → Manager Disk × Option Error
  persist_locked m = elim m.journal [
    | none ↦ (m, none)
    | some j ↦ let (d, e) = j.save m.disk (leases_locked m) in (record m { disk = d }, e)
  ]

  unfoldable pub guaranteed_total : Manager Disk → ℤ
  guaranteed_total m = sum64 is_guaranteed m.leases

  unfoldable pub guaranteed_free : Manager Disk → ℤ
  guaranteed_free m =
      let share = sub64 (m.cfg.guaranteed_share m.acct.capacity) (guaranteed_total m) in
      let smaller = if ltb_ℤ (free m.acct) share then free m.acct else share in
      if ltb_ℤ smaller (pos 0) then pos 0 else smaller

  unfoldable pub release_locked : Manager Disk → Lease → Manager Disk × Option Error
  release_locked m l = elim (give_back m.acct l.size) [
    | failed e ↦ (m, some (Error.accounting e))
    | done a ↦ (record m { acct = a; leases = erase l.id m.leases }, none)
  ]

  unfoldable pub prune : Manager Disk → ℤ → Manager Disk
  prune m now = record m { reclaims = prune_history m.cfg m.reclaims now }

  unfoldable pub churning : Manager Disk → ℤ → Manager Disk × Bool
  churning m now = let p = prune m now in (p, is_churning p.cfg p.reclaims now)

  unfoldable pub within_quota : Manager Disk → Lease → Option Error
  within_quota m l =
      let q = m.cfg.quota in
      let held = sum64 (is_held_by l.tenant) m.leases in
      let pinned = sum64 (λ x. is_held_by l.tenant x && is_guaranteed x) m.leases in
      if not (quota_bounded q)
      then none
      else if text_eq l.tenant node_tenant
      then none
      else (refuse_if (text_eq l.tenant []) Error.no_tenant
          orelse refuse_if (ltb_ℤ (pos 0) q.borrowed && ltb_ℤ q.borrowed (add64 held l.size))
              Error.tenant_quota
          orelse refuse_if
              (is_guaranteed l
                && ltb_ℤ (pos 0) q.guaranteed
                && ltb_ℤ q.guaranteed (add64 pinned l.size))
              Error.tenant_quota)

  -- The guards of `Accept`, in their order, on the manager that `prune` left.
  unfoldable pub refusal : Manager Disk → Lease → ℤ → Option Error
  refusal m l now =
      refuse_if (not m.restored) Error.not_restored
      orelse refuse_if (not (valid_class l.class)) Error.bad_class
      orelse refuse_if (leb_ℤ l.term (pos 0)) Error.bad_term
      orelse elim (lookup l.id m.leases) [ some _ ↦ some Error.duplicate | none ↦ none ]
      orelse refuse_if (is_churning m.cfg m.reclaims now) Error.churning
      orelse refuse_if ((in_cooldown m.cfg m.reclaims now).0) Error.cooldown
      orelse refuse_if (eqb_ℤ l.class elastic && leb_ℤ ((reclaim_deadline l.class m.cfg).0) (pos 0))
          Error.no_deadline
      orelse within_quota m l
      orelse refuse_if
          (is_guaranteed l
            && ltb_ℤ (m.cfg.guaranteed_share m.acct.capacity) (add64 (guaranteed_total m) l.size))
          Error.guarantee_cap

  -- The end of `Accept`: lent capacity that could not be journalled is taken back.
  unfoldable pub undo_if_failed : Lease → Manager Disk × Option Error → Manager Disk × Option Error
  undo_if_failed held (m, none) = (m, none)
  undo_if_failed held (m, some e) = ((release_locked m held).0, some e)

  -- The part of `Accept` after its guards.
  unfoldable pub admit : Manager Disk → Lease → ℤ → Manager Disk × Option Error
  admit m l now = elim (lend m.acct l.size) [
    | failed e ↦ (m, some (Error.accounting e))
    | done a ↦
        let held = record l { granted_at = now } in
        undo_if_failed held (persist_locked (record m { acct = a; leases = insert held m.leases }))
  ]

  unfoldable pub accept : Manager Disk → Lease → ℤ → Manager Disk × Option Error
  accept m l now =
      let p = prune m now in elim (refusal p l now) [ some e ↦ (p, some e) | none ↦ admit p l now ]

  -- The size returned, and the error.
  unfoldable pub release : Manager Disk → Text → Manager Disk × ℤ × Option Error
  release m id = elim (lookup id m.leases) [
    | none ↦ (m, pos 0, some Error.no_such_lease)
    | some l ↦
        let (m', e) = release_locked m l in
        elim e [
          | some x ↦ (m', pos 0, some x)
          | none ↦ let (m2, f) = persist_locked m' in (m2, l.size, f)
        ]
  ]

  -- The loop of `expireLocked` over the leases that are left.
  unfoldable pub expire_loop : List Lease → ℤ → Manager Disk → Result → Manager Disk × Result
  expire_loop [] now m res = (m, res)
  expire_loop (l ∷ ls) now m res = elim (is_expired l now) [
    | false ↦ expire_loop ls now m res
    | true ↦
        let (m', e) = release_locked m l in
        elim e [
          | some x ↦ (m', record res { err = some x })
          | none ↦ expire_loop ls now m' (record res {
            reclaimed = add64 res.reclaimed l.size;
            dropped = res.dropped ++ l.id ∷ [];
          })
        ]
  ]

  unfoldable pub expire_locked : Manager Disk → ℤ → Manager Disk × Result
  expire_locked m now = expire_loop (leases_locked m) now m no_result

  -- Where anything was dropped the state is journalled, and a failure of that is reported.
  unfoldable pub persist_dropped : Manager Disk → Result → Manager Disk × Result
  persist_dropped m res = elim res.dropped [
    | [] ↦ (m, res)
    | _ ∷ _ ↦ let (m', e) = persist_locked m in (m', record res { err = res.err orelse e })
  ]

  unfoldable pub expire : Manager Disk → ℤ → Manager Disk × Result
  expire m now = let (m', res) = expire_locked m now in persist_dropped m' res

  -- The loop of `Reclaim` over the leases that are left.
  unfoldable pub reclaim_loop : List Lease → ℤ → Manager Disk → Result → Manager Disk × Result
  reclaim_loop [] need m res = (m, res)
  reclaim_loop (l ∷ ls) need m res = elim (leb_ℤ need res.reclaimed) [
    | true ↦ (m, res)
    | false ↦ elim (is_guaranteed l) [
      | true ↦ reclaim_loop ls need m res
      | false ↦
          let (m', e) = release_locked m l in
          elim e [
            | some x ↦ (m', record res { err = some x })
            | none ↦ reclaim_loop ls need m' (record res {
              reclaimed = add64 res.reclaimed l.size;
              dropped = res.dropped ++ l.id ∷ [];
              bounded = eqb_ℤ l.class elastic || res.bounded;
            })
          ]
    ]
  ]

  -- What follows the loop: the shortfall, the history and the journal.
  unfoldable pub settle : ℤ → ℤ → Manager Disk → Result → Manager Disk × Result
  settle need now m res =
      let short = record res {
        shortfall = if ltb_ℤ res.reclaimed need then sub64 need res.reclaimed else res.shortfall;
      } in
      elim res.dropped [
        | [] ↦ (m, short)
        | _ ∷ _ ↦ persist_dropped (prune (record m { reclaims = m.reclaims ++ now ∷ [] }) now) short
      ]

  unfoldable pub reclaim : Manager Disk → ℤ → ℤ → Manager Disk × Result
  reclaim m need now =
      if leb_ℤ need (pos 0)
      then (m, no_result)
      else let (m', expired) = expire_locked m now in
        elim expired.err [
          | some x ↦ (m', record expired { shortfall = sub64 need expired.reclaimed })
          | none ↦
              let (m2, res) = reclaim_loop (leases_locked m') need m' expired in
              settle need now m2 res
        ]
