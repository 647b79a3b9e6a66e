-- ===== src/Agent/Residual.antt =====
-- internal/agent/residual.go: the scan of a fresh extent for what the last one left.
pub mod Laws
use forebay.Prelude.{
  ℕ, zero, suc, ◌+◌, ◌-◌, Bool, true, false, List, [], ◌∷◌, length, take, ltb, ◌==◌, if◌then◌else◌,
  Option, none, some,
}
use forebay.Prelude.Text.{Text}

-- What `scanZeros` returns: no error, the place of a byte that is not zero, or where reading ended.
pub data Scan : Type 0 where
  clean_extent : Scan
  dirty_at : ℕ → ℕ → Scan
  stopped_at : ℕ → Scan

-- The bytes that a read at a place gives; they are as many as the reader likes.
abbrev pub Reader : Type 0
Reader = ℕ → Text

-- The loop over the bytes of one read.
unfoldable pub first_dirty : ℕ → Text → Option (ℕ × ℕ)
first_dirty at_ [] = none
first_dirty at_ (b ∷ bs) = if b == 0 then first_dirty (suc at_) bs else some (at_, b)

-- The loop over the extent; every turn but the last reads a byte, so there are at most as many
-- turns as bytes, and one.
unfoldable pub scan_from : ℕ → Reader → ℕ → ℕ → Scan
scan_from zero read size at_ = clean_extent
scan_from (suc fuel) read size at_ =
    let got = take (size - at_) (read at_) in
    let rest = scan_from fuel read size (at_ + length got) in
    if ltb at_ size
    then elim (first_dirty at_ got) [
      | some (i, b) ↦ dirty_at i b
      | none ↦ if length got == 0 then stopped_at at_ else rest
    ]
    else clean_extent

unfoldable pub scan_zeros : Reader → ℕ → Scan
scan_zeros read size = scan_from (suc size) read size 0
