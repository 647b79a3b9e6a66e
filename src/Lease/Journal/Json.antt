-- ===== src/Lease/Journal/Json.antt =====
-- What internal/lease/journal.go relies on of Go's encoding/json and time packages.
use forebay.Prelude.{
  ℕ, zero, suc, ◌≡◌, refl, ◌⊎◌, inl, inr, Bool, true, false, ◌&&◌, Option, none, some, List, [],
  ◌∷◌, ◌++◌, All, ltb, leb, ◌==◌, arith, if◌then◌else◌,
}
use forebay.Prelude.Int.{ℤ}
use forebay.Prelude.Int64.{IsInt64}
use forebay.Prelude.Text.{Text}
use forebay.Lease.Types.{Lease, valid_class, opportunistic, elastic, guaranteed}
use forebay.Lease.Journal.{class_name, Entry, Document, Codec, entry, entries}

-- How many bytes of a rune are missing, and the bounds of the one that follows.
pub record Expected : Type 0 where
  pub missing : ℕ
  pub low : ℕ
  pub high : ℕ

abbrev expect : ℕ → ℕ → ℕ → Option Expected
expect n a b = some (record { missing = n; low = a; high = b })

-- The first byte of a rune in UTF-8.
abbrev first_byte : ℕ → Option Expected
first_byte a =
    if ltb a 128
    then expect 0 128 191
    else if ltb a 194
    then none
    else if leb a 223
    then expect 1 128 191
    else if a == 224
    then expect 2 160 191
    else if a == 237
    then expect 2 128 159
    else if leb a 239
    then expect 2 128 191
    else if a == 240
    then expect 3 144 191
    else if leb a 243
    then expect 3 128 191
    else if a == 244
    then expect 3 128 143
    else none

abbrev byte_after : ℕ → Expected → ℕ → Option Expected
byte_after zero e a = first_byte a
byte_after (suc n) e a = if leb e.low a && leb a e.high then expect n 128 191 else none

unfoldable pub valid_from : Option Expected → Text → Bool
valid_from none s = false
valid_from (some e) [] = e.missing == 0
valid_from (some e) (a ∷ s) = valid_from (byte_after e.missing e a) s

-- `utf8.ValidString`
abbrev pub is_utf8 : Text → Bool
is_utf8 = valid_from (expect 0 128 191)

-- A text that JSON keeps byte for byte; it replaces what is not valid UTF-8.
abbrev pub IsPlain : Text → Type 0
IsPlain s = is_utf8 s ≡ true

-- The leases that the round trip is about.
abbrev pub IsWritable : Lease → Type 0
IsWritable l =
    (valid_class l.class ≡ true) × IsInt64 l.size × IsInt64 l.term × IsPlain l.id × IsPlain l.tenant

abbrev pub IsPlainEntry : Entry → Type 0
IsPlainEntry r =
    IsPlain r.id × IsPlain r.tenant × IsPlain r.class × IsPlain r.term × IsInt64 r.size_bytes

-- What the standard library documents of the parameters: a duration is printed as valid UTF-8 and
-- parsed back, and a document whose strings are valid UTF-8 and whose numbers are int64 values, once
-- it could be encoded, is decoded from its text and a newline.
pub record IsFaithful (c : Codec) : Type 0 where
  pub durations : (t : ℤ) → IsInt64 t → c.parse_duration (c.duration_string t) ≡ some t
  pub plain_durations : (t : ℤ) → IsInt64 t → IsPlain (c.duration_string t)
  pub documents :
      (d : Document) (body : Text)
      → IsInt64 d.format
      → All IsPlainEntry d.leases
      → c.marshal d ≡ some body
      → c.unmarshal (body ++ 10 ∷ []) ≡ some d

pub valid_class-cases :
    (k : ℤ) → valid_class k ≡ true → (k ≡ opportunistic) ⊎ (k ≡ elastic) ⊎ (k ≡ guaranteed)
unfolding valid_class
valid_class-cases k h = ground arith

class_name-IsPlain : (k : ℤ) → valid_class k ≡ true → IsPlain (class_name k)
unfolding class_name valid_from
class_name-IsPlain k h = elim (valid_class-cases k h) [
  | inl e ↦ rw e refl
  | inr (inl e) ↦ rw e refl
  | inr (inr e) ↦ rw e refl
]

-- What is written of such leases.
pub entries-IsPlain :
    (c : Codec) (ls : List Lease)
    → IsFaithful c
    → All IsWritable ls
    → All IsPlainEntry (entries c ls)
unfolding entries entry
entries-IsPlain c [] f h = tt
entries-IsPlain c (l ∷ ls) f ((class, size, term, id, tenant), h) = (
  (id, tenant, class_name-IsPlain l.class class, f.plain_durations l.term term, size),
  entries-IsPlain c ls f h,
)
