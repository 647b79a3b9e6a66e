-- ===== src/Dataserver/Numbers.antt =====
-- The int64 arithmetic of internal/dataserver on offsets that do not overflow.
use native.Mathlib.Nat.{mul-div_cancel, div-le_self, zero-div}
use forebay.Prelude.{ℕ, ◌+◌, ◌-◌, ◌*◌, ◌/◌, ◌≤◌, ◌<◌, ◌≡◌, ap, ◌∙◌, arith}
use forebay.Prelude.Int.{pos, sub_ℕ, ◌+ℤ◌, ◌-ℤ◌}
use forebay.Prelude.Int64.{two63, wrap64_id, add64, sub64, add64_exact, sub64_exact}
use forebay.Dataserver.Types.{mul64, quot64}

pub add64_pos : (a b : ℕ) → a + b < two63 → add64 (pos a) (pos b) ≡ pos (a + b)
add64_pos a b h =
    let e : pos a +ℤ pos b ≡ pos (a + b) = unfold ◌+ℤ◌ in ground arith in
    add64_exact (pos a) (pos b) (rw e (omega arith, omega arith)) ∙ e

pub sub64_pos : (a b : ℕ) → b ≤ a → a < two63 → sub64 (pos a) (pos b) ≡ pos (a - b)
sub64_pos a b le h =
    let e : pos a -ℤ pos b ≡ pos (a - b) = unfold ◌-ℤ◌ in ground arith in
    sub64_exact (pos a) (pos b) (rw e (omega arith, omega arith)) ∙ e

pub mul64_pos : (a b : ℕ) → a * b < two63 → mul64 (pos a) (pos b) ≡ pos (a * b)
unfolding mul64
mul64_pos a b h =
    let e : sub_ℕ (a * b + 0 * 0) (a * 0 + 0 * b) ≡ pos (a * b) =
      let z : a * 0 + 0 * b ≡ 0 = omega arith in rw z (ground arith) in
    rw e (wrap64_id (pos (a * b)) (omega arith, omega arith))

pub quot64_pos : (a b : ℕ) → a < two63 → quot64 (pos a) (pos b) ≡ pos (a / b)
unfolding quot64
quot64_pos a b h =
    let small = div-le_self a b in
    let e : sub_ℕ (a / b) (0 / b) ≡ pos (a / b) = rw (zero-div b) (ground arith) in
    rw e (wrap64_id (pos (a / b)) (omega (arith, small), omega (arith, small)))

-- The start of a block, as `ReadRange` and `blockAt` find it.
pub quot64_block : (i b : ℕ) → 0 < b → i * b < two63 → quot64 (pos (i * b)) (pos b) ≡ pos i
quot64_block i b p h = quot64_pos (i * b) b h ∙ ap pos (mul-div_cancel i p)
