-- ===== src/Agent/Extent/Reclaimed.antt =====
-- `ReclaimCapacity` of internal/agent/extent.go, whichever calls of the system fail.
use forebay.Prelude.{
  ◌≡◌, All, All-map, All-map2, All-append, refl, sym, ◌∙◌, subst, false, some, List, [], ◌∷◌, arith,
  inl, inr, Bool-cases,
}
use forebay.Prelude.Int.{ℤ, pos, leb_ℤ}
use forebay.Prelude.Text.{Text, text_eq, text_eq_sym}
use forebay.Lease.Types.{Lease, Manager, Result, no_result}
use forebay.Lease.Table.Laws.{Fresh, lookup-Fresh, erase-All}
use forebay.Lease.Manager.{reclaim, settle, persist_dropped}
use forebay.Lease.Invariant.{IsSound}
use forebay.Lease.Invariant.Release.{without}
use forebay.Lease.Invariant.Loops.{
  ids, with_expired, with_victims, without_all, without_all-missing, without_all_gone,
}
use forebay.Lease.Invariant.Methods.{
  expired_now, after_expiry, expiry_result, taken_now, expired_now-Held, after_expiry-IsSound,
  reclaim_lem,
}
use forebay.Lease.Reclaim.Soundness.{
  reclaimed_books, taken_now-Held, reclaim-same, reclaim-nothing, reclaim-IsSound,
}
use forebay.Agent.Names.{IsName}
use forebay.Agent.Files.{Os, find_file}
use forebay.Agent.Extent.{Agent, releasing, reclaim_capacity}
use forebay.Agent.Extent.Laws.{discard_all-find_file}
use forebay.Agent.Extent.Backed.{IsBacked}

with_expired-All :
    (P : Text → Type 0) (ls : List Lease) (res : Result)
    → All P res.dropped
    → All (λ l. P l.id) ls
    → All P (with_expired res ls).dropped
with_expired-All P [] res d h = d
with_expired-All P (l ∷ ls) res d h =
    with_expired-All P ls _ (All-append P res.dropped (l.id ∷ []) d (h.0, tt)) h.1

with_victims-All :
    (P : Text → Type 0) (ls : List Lease) (res : Result)
    → All P res.dropped
    → All (λ l. P l.id) ls
    → All P (with_victims res ls).dropped
with_victims-All P [] res d h = d
with_victims-All P (l ∷ ls) res d h =
    with_victims-All P ls _ (All-append P res.dropped (l.id ∷ []) d (h.0, tt)) h.1

-- From each of a list against all of another to each of the other against all of the first.
All-swap :
    (ids : List Text) (ms : List Lease)
    → All (λ id. Fresh id ms) ids
    → All (λ l. All (λ id. text_eq l.id id ≡ false) ids) ms
All-swap [] ms h = All-tt ms
  where
    All-tt : (ms : List Lease) → All (λ l. All (λ id. text_eq l.id id ≡ false) []) ms
    All-tt [] = tt
    All-tt (m ∷ ms) = (tt, All-tt ms)
All-swap (id ∷ ids) ms h =
    All-map2 ms (λ l off rest. (text_eq_sym l.id id ∙ off, rest)) h.0 (All-swap ids ms h.1)

module _ {Disk : Type 0} where
  without_all-All :
      (P : Lease → Type 0) (m : Manager Disk) (ls : List Lease)
      → All P m.leases
      → All P (without_all m ls).leases
  without_all-All P m [] h = h
  without_all-All P m (l ∷ ls) h = without_all-All P (without m l) ls (erase-All P l.id m.leases h)

  dropped-settle :
      (need now : ℤ) (m : Manager Disk) (res : Result)
      → (settle need now m res).1.dropped ≡ res.dropped
  unfolding settle persist_dropped
  dropped-settle need now m res = ground arith

  -- Reclaim adds no lease.
  reclaim-All :
      (P : Lease → Type 0) (m : Manager Disk) (need now : ℤ)
      → IsSound m
      → All P m.leases
      → All P (reclaim m need now).0.leases
  reclaim-All P m need now s h = elim (Bool-cases (leb_ℤ need (pos 0))) [
    | inl none_asked ↦ rw (reclaim-nothing m need now (ground arith)) h
    | inr asked ↦ rw ((reclaim-same m need now s (ground arith)).0) (
        without_all-All P (after_expiry m now) (taken_now m need now)
          (without_all-All P m (expired_now m now) h))
  ]

  -- What Reclaim reports as dropped is no longer held.
  dropped-Fresh :
      (m : Manager Disk) (need now : ℤ)
      → IsSound m
      → All (λ id. Fresh id (reclaim m need now).0.leases) (reclaim m need now).1.dropped
  dropped-Fresh m need now s = elim (Bool-cases (leb_ℤ need (pos 0))) [
    | inl none_asked ↦ rw (reclaim-nothing m need now (ground arith)) tt
    | inr asked ↦
        let es = expired_now m now in
        let ts = taken_now m need now in
        let m1 = after_expiry m now in
        let last = (reclaimed_books m need now).leases in
        let books = reclaim-same m need now s (ground arith) in
        let gone1 =
          All-map es (λ x e. lookup-Fresh x.id last (without_all_gone x.id m1 ts e))
            (without_all-missing m es s.distinct ((expired_now-Held m now s).1)) in
        let s1 = after_expiry-IsSound m now s in
        let gone2 =
          All-map ts (λ x e. lookup-Fresh x.id last e)
            (without_all-missing m1 ts s1.distinct ((taken_now-Held m need now s).1)) in
        rw
          (
            books.0,
            reclaim_lem m need now s (ground arith),
            dropped-settle need now (reclaimed_books m need now)
                (with_victims (expiry_result m now) ts),
          )
          (with_victims-All (λ id. Fresh id last) ts (expiry_result m now)
            (with_expired-All (λ id. Fresh id last) es no_result tt gone1) gone2)
  ]

  pub releasing-same :
      (a : Agent Disk) (ids : List Text)
      → ((releasing a ids).leases ≡ a.leases) × ((releasing a ids).files ≡ a.files)
  unfolding releasing
  releasing-same a [] = (refl, refl)
  releasing-same a (id ∷ ids) = ground arith

  -- ReclaimCapacity keeps every lease that is still held backed by its extent.
  pub reclaim_capacity-IsBacked :
      (os : Os) (a : Agent Disk) (need now elapsed : ℤ)
      → IsBacked a
      → IsBacked (reclaim_capacity os a need now elapsed).0
  unfolding reclaim_capacity
  reclaim_capacity-IsBacked os a need now elapsed b =
      let m = (reclaim a.leases need now).0 in
      let ids = (reclaim a.leases need now).1.dropped in
      let (leases, files) = releasing-same (record a { leases = m }) ids in
      let names = reclaim-All (λ l. IsName l.id) a.leases need now b.sound b.names in
      let apart = All-swap ids m.leases (dropped-Fresh a.leases need now b.sound) in
      let before =
        reclaim-All (λ l. find_file l.id a.files ≡ some l.size) a.leases need now b.sound
          b.extents in
      let sure : All (λ l. IsName l.id × All (λ id. text_eq l.id id ≡ false) ids) m.leases =
        All-map2 m.leases (λ l x y. (x, y)) names apart in
      record {
        sound = subst IsSound (sym leases) (reclaim-IsSound a.leases need now b.sound);
        names = subst (λ z. All (λ l. IsName l.id) z.leases) (sym leases) names;
        extents =
            rw (leases, files)
              (All-map2 m.leases (λ l e p. discard_all-find_file os ids a.files l.id p.0 p.1 ∙ e)
                before sure);
      }
