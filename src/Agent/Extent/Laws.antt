-- ===== src/Agent/Extent/Laws.antt =====
-- `allocate` and `discard` of internal/agent/extent.go, whichever calls of the system fail.
use forebay.Prelude.{
  ◌-◌, ◌≡◌, ◌⊎◌, All, refl, ◌∙◌, true, false, none, some, List, [], ◌∷◌, ◌++◌, length,
  length-append, drop, ltb, arith, inl, inr, Bool-cases, Option-cases,
}
use forebay.Prelude.Int.{ℤ, pos}
use forebay.Prelude.Text.{Text, text_eq, text_eq→eq, text_eq_refl}
use forebay.Agent.Names.{
  Error, no_extent, io, invalid_suffix, has_suffix, valid_lease_id, IsName, valid_lease_id-IsName,
}
use forebay.Agent.Files.{Files, Os, find_file, drop_file, put_file}
use forebay.Agent.Files.Laws.{find_file-drop, find_file-drop_ne, find_file-put, find_file-put_ne}
use forebay.Agent.Extent.{extent_path, allocate, discard, discard_all}

drop-append : (s t : Text) → drop (length s) (s ++ t) ≡ t
drop-append [] t = refl
drop-append (c ∷ s) t = drop-append s t

has_suffix-append : (s suffix : Text) → has_suffix (s ++ suffix) suffix ≡ true
unfolding has_suffix
has_suffix-append s suffix =
    let n : length (s ++ suffix) - length suffix ≡ length s =
      omega (arith, length-append s suffix) in
    let long : ltb (length (s ++ suffix)) (length suffix) ≡ false =
      ground (arith, length-append s suffix) in
    rw (long, n, drop-append s suffix) (text_eq_refl suffix)

-- A name that may be a lease is never the one that an extent has while it is discarded.
IsName-invalid : (j id : Text) → IsName j → text_eq j (id ++ invalid_suffix) ≡ false
IsName-invalid j id n = elim (Bool-cases (text_eq j (id ++ invalid_suffix))) [
  | inr off ↦ off
  | inl same ↦ absurd (
      ground (
        arith,
        n.lasting,
        has_suffix-append id invalid_suffix,
        text_eq→eq j (id ++ invalid_suffix) same,
      ))
]

path_valid : (id : Text) → extent_path id ≡ none → valid_lease_id id ≡ none
unfolding extent_path
path_valid id h = h

module _ (os : Os) (files : Files) where
  -- The files while an extent is discarded.
  abbrev renamed : Text → ℤ → Files
  renamed id size = put_file (id ++ invalid_suffix) size (drop_file id files)

  -- What `discard` can end in: nothing done, the extent renamed, or the extent gone.
  discard_cases :
      (id : Text)
      → ((e : Error) × (discard os files id ≡ (files, some e)))
        ⊎ ((size : ℤ) × (extent_path id ≡ none)
            × (discard os files id ≡ (renamed id size, some io)))
        ⊎ ((size : ℤ) × (extent_path id ≡ none)
            × (discard os files id ≡ (drop_file (id ++ invalid_suffix) (renamed id size), none)))
  unfolding discard
  discard_cases id = elim (Option-cases (extent_path id)) [
    | inr (e, bad) ↦ inl (e, ground (arith, bad))
    | inl ok ↦ elim (Bool-cases (os.rename_fails id)) [
      | inl fails ↦ inl (io, ground (arith, ok, fails))
      | inr moves ↦ elim (Option-cases (find_file id files)) [
        | inl gone ↦ inl (no_extent, ground (arith, ok, moves, gone))
        | inr (size, here) ↦ elim (Bool-cases (os.remove_fails (id ++ invalid_suffix))) [
          | inl stays ↦ inr (inl (size, ok, ground (arith, ok, moves, here, stays)))
          | inr goes ↦ inr (inr (size, ok, ground (arith, ok, moves, here, goes)))
        ]
      ]
    ]
  ]

  -- Discarding one extent leaves every other lease's extent.
  pub discard-find_file :
      (id j : Text)
      → IsName j
      → text_eq j id ≡ false
      → find_file j (discard os files id).0 ≡ find_file j files
  discard-find_file id j n ne =
      let invalid = id ++ invalid_suffix in
      let off = IsName-invalid j id n in
      let kept : (size : ℤ) → find_file j (renamed id size) ≡ find_file j files = λ size.
        find_file-put_ne j invalid size (drop_file id files) off
        ∙ find_file-drop_ne j id files ne in
      elim (discard_cases id) [
        | inl (e, r) ↦ rw r refl
        | inr (inl (size, ok, r)) ↦ rw r (kept size)
        | inr (inr (size, ok, r)) ↦
            rw r (find_file-drop_ne j invalid (renamed id size) off ∙ kept size)
      ]

  -- An extent that was discarded without an error has left no file, under either name.
  discard_gone :
      (id : Text)
      → (discard os files id).1 ≡ none
      → (find_file id (discard os files id).0 ≡ none)
        × (find_file (id ++ invalid_suffix) (discard os files id).0 ≡ none)
  discard_gone id h =
      let invalid = id ++ invalid_suffix in
      elim (discard_cases id) [
        | inl (e, r) ↦ absurd (ground (arith, h, r))
        | inr (inl (size, ok, r)) ↦ absurd (ground (arith, h, r))
        | inr (inr (size, ok, r)) ↦
            let off = IsName-invalid id id (valid_lease_id-IsName id (path_valid id ok)) in
            rw r (
              find_file-drop_ne id invalid (renamed id size) off
                  ∙ find_file-put_ne id invalid size (drop_file id files) off
                  ∙ find_file-drop id files,
              find_file-drop invalid (renamed id size),
            )
      ]

  -- What `allocate` can end in.
  allocate_cases :
      (id : Text) (size : ℤ)
      → ((e : Error) × (allocate os files id size ≡ (files, some e)))
        ⊎ ((n : ℤ) × (allocate os files id size ≡ (put_file id n files, some io)))
        ⊎ (allocate os files id size ≡ (drop_file id (put_file id (pos 0) files), some io))
        ⊎ ((extent_path id ≡ none) × (allocate os files id size ≡ (put_file id size files, none)))
  unfolding allocate
  allocate_cases id size = elim (Option-cases (extent_path id)) [
    | inr (e, bad) ↦ inl (e, ground (arith, bad))
    | inl ok ↦ elim (Bool-cases (os.open_fails id)) [
      | inl fails ↦ inl (io, ground (arith, ok, fails))
      | inr opens ↦ elim (Option-cases (find_file id files)) [
        | inr (n, there) ↦ inl (io, ground (arith, ok, opens, there))
        | inl new_ ↦ elim (Bool-cases (os.reserve_fails id)) [
          | inl short ↦ elim (Bool-cases (os.remove_fails id)) [
            | inl stays ↦ inr (inl (pos 0, ground (arith, ok, opens, new_, short, stays)))
            | inr goes ↦ inr (inr (inl (ground (arith, ok, opens, new_, short, goes))))
          ]
          | inr full ↦ elim (Bool-cases (os.close_fails id)) [
            | inl fails ↦ inr (inl (size, ground (arith, ok, opens, new_, full, fails)))
            | inr done ↦ inr (inr (inr (ok, ground (arith, ok, opens, new_, full, done))))
          ]
        ]
      ]
    ]
  ]

  -- A lease's extent is there, and its name is one, once it was allocated without an error.
  pub allocate-find_file :
      (id : Text) (size : ℤ)
      → (allocate os files id size).1 ≡ none
      → (find_file id (allocate os files id size).0 ≡ some size) × IsName id
  allocate-find_file id size h = elim (allocate_cases id size) [
    | inl (e, r) ↦ absurd (ground (arith, h, r))
    | inr (inl (n, r)) ↦ absurd (ground (arith, h, r))
    | inr (inr (inl r)) ↦ absurd (ground (arith, h, r))
    | inr (inr (inr (ok, r))) ↦
        rw r (find_file-put id size files, valid_lease_id-IsName id (path_valid id ok))
  ]

  pub allocate-find_file_ne :
      (id j : Text) (size : ℤ)
      → text_eq j id ≡ false
      → find_file j (allocate os files id size).0 ≡ find_file j files
  allocate-find_file_ne id j size ne = elim (allocate_cases id size) [
    | inl (e, r) ↦ rw r refl
    | inr (inl (n, r)) ↦ rw r (find_file-put_ne j id n files ne)
    | inr (inr (inl r)) ↦ rw r (
        find_file-drop_ne j id (put_file id (pos 0) files) ne
        ∙ find_file-put_ne j id (pos 0) files ne)
    | inr (inr (inr (ok, r))) ↦ rw r (find_file-put_ne j id size files ne)
  ]

-- The loop of `ReclaimCapacity` leaves the extent of every lease that it was not told to discard.
pub discard_all-find_file :
    (os : Os) (ids : List Text) (files : Files) (j : Text)
    → IsName j
    → All (λ id. text_eq j id ≡ false) ids
    → find_file j (discard_all os files ids).0 ≡ find_file j files
unfolding discard_all
discard_all-find_file os [] files j n h = refl
discard_all-find_file os (id ∷ ids) files j n h =
    discard_all-find_file os ids (discard os files id).0 j n h.1
    ∙ discard-find_file os files id j n h.0
