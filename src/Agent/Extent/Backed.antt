-- ===== src/Agent/Extent/Backed.antt =====
-- `Grant` of internal/agent/extent.go: the books of the leases and the extents on disk.
use forebay.Prelude.{
  ◌≡◌, All, All-map2, refl, ap, sym, ◌∙◌, subst, Option, none, some, ◌∷◌, inl, inr, Bool-cases,
  Option-cases,
}
use forebay.Prelude.Int.{ℤ, ◌+ℤ◌, ◌-ℤ◌, int_laws}
use forebay.Prelude.Text.{Text, text_eq_refl, text_eq_sym}
use forebay.Lease.Types
use forebay.Lease.Types.{Lease, Manager}
use forebay.Lease.Table.{lookup, erase}
use forebay.Lease.Table.Laws.{Distinct}
use forebay.Lease.Manager.{prune, accept, release}
use forebay.Lease.Invariant.{IsSound}
use forebay.Lease.Invariant.Release.{without}
use forebay.Lease.Invariant.Accept.{
  granted, with_lease, SameBooks, Accepts, accept_lem, accept-IsSound, persist_locked_frame,
}
use forebay.Lease.Reclaim.Soundness.{release_lem, release-IsSound}
use forebay.Agent.Names.{Error, IsName}
use forebay.Agent.Files.{Os, find_file}
use forebay.Agent.Extent.{Agent, allocate, grant, extent_path}
use forebay.Agent.Extent
use forebay.Agent.Extent.Laws.{allocate-find_file, allocate-find_file_ne}

-- Every lease that is held has an extent of its size, under a name that may be one.
pub record IsBacked {Disk : Type 0} (a : Agent Disk) : Type 0 where
  pub sound : IsSound a.leases
  pub names : All (λ l. IsName l.id) a.leases.leases
  pub extents : All (λ l. find_file l.id a.files ≡ some l.size) a.leases.leases

module _ {Disk : Type 0} where
  -- Telling a holder changes what was told alone.
  abbrev SameState : Agent Disk → Agent Disk → Type 0
  SameState a b = (b.leases ≡ a.leases) × (b.files ≡ a.files)

  granted-same : (a : Agent Disk) (id : Text) → SameState a (Extent.granted a id)
  unfolding Extent.granted
  granted-same a id = elim (Bool-cases a.granted_fn) [
    | inr none_ ↦ rw none_ (refl, refl)
    | inl some_ ↦ elim (Option-cases (extent_path id)) [
      | inl ok ↦ rw (some_, ok) (refl, refl)
      | inr (e, bad) ↦ rw (some_, bad) (refl, refl)
    ]
  ]

  -- What `Grant` promises of its outcome.
  abbrev pub Grants : Agent Disk → Lease → ℤ → Agent Disk × Option Error → Type 0
  Grants a l now (b, some e) = SameBooks a.leases b.leases
  Grants a l now (b, none) =
      (b.leases.leases ≡ granted l now ∷ a.leases.leases) × (find_file l.id b.files ≡ some l.size)

  -- Releasing the lease that was accepted last gives the books back.
  release_accepted :
      (m m' : Manager Disk) (l : Lease)
      → IsSound m'
      → SameBooks (with_lease m l) m'
      → SameBooks m (release m' l.id).0
  unfolding lookup erase
  release_accepted m m' l s (ls, acct) =
      let held : lookup l.id m'.leases ≡ some l = rw ls (rw (text_eq_refl l.id)) in
      let back : m.acct.borrowed +ℤ l.size -ℤ l.size ≡ m.acct.borrowed = omega int_laws in
      rw (release_lem m' l.id l s held) (
        rw (persist_locked_frame (without m' l)) (
          rw ls (rw (text_eq_refl l.id)),
          rw acct (ap (λ z. record (m.acct) { borrowed = z }) back),
        ))

  accepted :
      (m : Manager Disk) (l : Lease) (now : ℤ)
      → IsSound m
      → (accept m l now).1 ≡ none
      → SameBooks (with_lease (prune m now) (granted l now)) (accept m l now).0
  accepted m l now s ok =
      (subst (λ e. Accepts (prune m now) l now ((accept m l now).0, e)) ok (accept_lem m l now s)).3

  not_accepted :
      (m : Manager Disk) (l : Lease) (now : ℤ) (e : Types.Error)
      → IsSound m
      → (accept m l now).1 ≡ some e
      → SameBooks (prune m now) (accept m l now).0
  not_accepted m l now e s no_ =
      subst (λ e. Accepts (prune m now) l now ((accept m l now).0, e)) no_ (accept_lem m l now s)

  -- On a sound manager Grant either reports an error and leaves the leases and the accounting as
  -- they were, or has added the lease, stamped with the time, and its extent of that size is in
  -- the pool, whichever calls of the system and of the journal fail.
  pub grant_lem :
      (os : Os) (a : Agent Disk) (l : Lease) (now : ℤ)
      → IsSound a.leases
      → Grants a l now (grant os a l now)
  unfolding grant prune
  grant_lem os a l now s =
      let m = (accept a.leases l now).0 in
      let f = (allocate os a.files l.id l.size).0 in
      elim (Option-cases (accept a.leases l now).1) [
        | inr (e, no_) ↦ rw (grant, no_) (not_accepted a.leases l now e s no_)
        | inl ok ↦ elim (Option-cases (allocate os a.files l.id l.size).1) [
          | inr (e, bad) ↦
              rw (grant, ok, bad)
                (release_accepted a.leases m (granted l now) (accept-IsSound a.leases l now s)
                  (accepted a.leases l now s ok))
          | inl made ↦
              let (same, files) = granted-same (record a { leases = m; files = f }) l.id in
              rw (grant, ok, made)
                (
                  ap (λ z. z.leases) same ∙ (accepted a.leases l now s ok).0,
                  rw files ((allocate-find_file os a.files l.id l.size made).0),
                )
        ]
      ]

  -- Grant keeps every lease backed.
  pub grant-IsBacked :
      (os : Os) (a : Agent Disk) (l : Lease) (now : ℤ) → IsBacked a → IsBacked (grant os a l now).0
  unfolding grant prune
  grant-IsBacked os a l now b =
      let m = (accept a.leases l now).0 in
      let f = (allocate os a.files l.id l.size).0 in
      let sound = accept-IsSound a.leases l now b.sound in
      elim (Option-cases (accept a.leases l now).1) [
        | inr (e, no_) ↦
            let (same, _) = not_accepted a.leases l now e b.sound no_ in
            rw (grant, no_)
              (record { sound = sound; names = rw same (b.names); extents = rw same (b.extents) })
        | inl ok ↦
            let (same, _) = accepted a.leases l now b.sound ok in
            let fresh = subst Distinct same sound.distinct in
            let others : All (λ x. find_file x.id f ≡ some x.size) a.leases.leases =
              All-map2 a.leases.leases
                (λ x e off.
                  allocate-find_file_ne os a.files l.id x.id l.size (text_eq_sym x.id l.id ∙ off)
                  ∙ e)
                b.extents fresh.0 in
            elim (Option-cases (allocate os a.files l.id l.size).1) [
              | inr (e, bad) ↦
                  let (back, _) =
                    release_accepted a.leases m (granted l now) sound
                      (accepted a.leases l now b.sound ok) in
                  rw (grant, ok, bad)
                    (record {
                      sound = release-IsSound m l.id sound;
                      names = subst (All (λ x. IsName x.id)) (sym back) b.names;
                      extents = subst (All (λ x. find_file x.id f ≡ some x.size)) (sym back) others;
                    })
              | inl made ↦
                  let (books, files) = granted-same (record a { leases = m; files = f }) l.id in
                  let (there, named) = allocate-find_file os a.files l.id l.size made in
                  rw (grant, ok, made)
                    (record {
                      sound = subst IsSound (sym books) sound;
                      names = rw (books, same) (named, b.names);
                      extents = rw (books, files, same) (there, others);
                    })
            ]
      ]
