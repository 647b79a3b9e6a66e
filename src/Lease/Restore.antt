-- ===== src/Lease/Restore.antt =====
-- internal/lease/lease.go: `Restore`, which rebuilds the leases from the journal.
pub mod Laws
use forebay.Prelude.{
  Bool, true, false, ◌&&◌, Option, none, some, List, [], ◌∷◌, ◌++◌, if◌then◌else◌,
}
use forebay.Prelude.Int.{ℤ, pos}
use forebay.Pool.{failed, done, lend}
use forebay.Lease.Types.{Error, Lease, loaded, unreadable, Manager, Result, no_result, is_expired}
use forebay.Lease.Table.{insert}
use forebay.Lease.Manager.{persist_locked}

abbrev pub is_empty {ℓ} : {A : Type ℓ} → List A → Bool
is_empty [] = true
is_empty (_ ∷ _) = false

module _ {Disk : Type 0} where
  -- No lease, and nothing counted as lent.
  unfoldable pub emptied : Manager Disk → Manager Disk
  emptied m = record m { leases = []; acct = record (m.acct) { borrowed = pos 0 } }

  -- The loop over what the journal held.
  unfoldable pub replay : List Lease → ℤ → Manager Disk → Result → Manager Disk × Result
  replay [] now m res = (m, res)
  replay (l ∷ ls) now m res = elim (is_expired l now) [
    | true ↦ replay ls now m (record res { dropped = res.dropped ++ l.id ∷ [] })
    | false ↦ elim (lend m.acct l.size) [
      | failed _ ↦ replay ls now m (record res { unfittable = res.unfittable ++ l.id ∷ [] })
      | done a ↦ replay ls now (record m { acct = a; leases = insert l m.leases }) res
    ]
  ]

  -- What follows a readable journal: the result is written back where something was left out.
  unfoldable pub adopt : Manager Disk → Result → Manager Disk × Result × Option Error
  adopt m res =
      if is_empty res.dropped && is_empty res.unfittable
      then (record m { restored = true }, res, none)
      else let (m', e) = persist_locked m in
        elim e [ some x ↦ (m', res, some x) | none ↦ (record m' { restored = true }, res, none) ]

  -- What follows an unreadable one: the node starts empty, and lends only if it could record that.
  unfoldable pub start_empty : Manager Disk → Error → Manager Disk × Result × Option Error
  start_empty m err =
      let (m', e) = persist_locked (emptied m) in
      elim e [
        | some _ ↦ (m', no_result, some err)
        | none ↦ (record m' { restored = true }, no_result, some err)
      ]

  unfoldable pub restore : Manager Disk → ℤ → Manager Disk × Result × Option Error
  restore m now = elim m.journal [
    | none ↦ (m, no_result, none)
    | some j ↦ elim (j.load m.disk) [
      | unreadable err ↦ start_empty m err
      | loaded ls ↦ let (m', res) = replay ls now (emptied m) no_result in adopt m' res
    ]
  ]
