-- ===== src/Wire/Fields.antt =====
-- Fields and the entries of string maps of internal/protowire/protowire.go.
use mathlib.Core.List.{append-nil, append_assoc}
use forebay.Prelude.{
  ℕ, zero, suc, ◌+◌, ◌*◌, ◌/◌, ◌%◌, ◌≤◌, ◌<◌, ◌≡◌, refl, sym, ap, ◌∙◌, ◌⊎◌, false, ◌&&◌, List, [],
  ◌∷◌, ◌++◌, length, length-append, take, drop, arith, inl, inr, ltb, ◌==◌, if◌then◌else◌,
}
use forebay.Prelude.Int64.{two64}
use forebay.Prelude.Text.{Text}
use forebay.Wire.{
  Error, Read, failed, done, wire_varint, wire_bytes, uvarint_bytes, uvarint, append_uvarint,
  append_tag, append_varint, append_string, Field, next_value, next, read_entry, put, string_map,
}
use forebay.Wire.Varint.{uvarint-uvarint_bytes, uvarint_bound}

pub Read-cases :
    {A : Type 0} (r : Read A) → ((e : Error) × (r ≡ failed e)) ⊎ ((a : A) × (r ≡ done a))
Read-cases (failed e) = inl (e, refl)
Read-cases (done a) = inr (a, refl)

-- The field numbers that fit a tag.
abbrev pub IsNumber : ℕ → Type 0
IsNumber n = (1 ≤ n) × (n < 2_305_843_009_213_693_952)

module _ (field wire : ℕ) (n : IsNumber field) (w : wire < 8) where
  tag_parts :
      (field * 8 % two64 + wire < two64)
      × ((field * 8 % two64 + wire) / 8 ≡ field)
      × ((field * 8 % two64 + wire) % 8 ≡ wire)
  tag_parts = omega (arith, n, w)

  next_tag :
      (rest : Text)
      → next (uvarint_bytes 10 (field * 8 % two64 + wire) ++ rest) ≡ next_value field wire rest
  unfolding next
  next_tag rest =
      let (small, num, typ) = tag_parts in
      rw (uvarint-uvarint_bytes (field * 8 % two64 + wire) rest small, num, typ) (ground (arith, n))

take-append : (s rest : Text) → take (length s) (s ++ rest) ≡ s
take-append [] rest = refl
take-append (c ∷ s) rest = ap (λ z. c ∷ z) (take-append s rest)

drop-append : (s rest : Text) → drop (length s) (s ++ rest) ≡ rest
drop-append [] rest = refl
drop-append (c ∷ s) rest = drop-append s rest

-- Next on a varint field that AppendVarint wrote, followed by any bytes, returns the field and
-- those bytes, for a field number from 1 below 2^61 and a value below 2^64.
pub next-append_varint :
    (field v : ℕ) (rest : Text)
    → IsNumber field
    → v < two64
    → next (append_varint [] field v ++ rest)
      ≡ done (record { number = field; wire = wire_varint; varint = v; content = [] }, rest)
unfolding append_varint append_uvarint append_tag next_value
next-append_varint field v rest n h =
    rw
      (
        append_assoc (uvarint_bytes 10 (field * 8 % two64 + wire_varint)) (uvarint_bytes 10 v) rest,
        next_tag field wire_varint n (omega arith) (uvarint_bytes 10 v ++ rest),
        uvarint-uvarint_bytes v rest h,
      )
      refl

-- Next on a string field that AppendString wrote, followed by any bytes, returns the field with
-- the string and those bytes, for a field number from 1 below 2^61 and a string shorter than 2^64.
next-append_string :
    (field : ℕ) (s rest : Text)
    → IsNumber field
    → length s < two64
    → next (append_string [] field s ++ rest)
      ≡ done (record { number = field; wire = wire_bytes; varint = 0; content = s }, rest)
unfolding append_string append_uvarint append_tag next_value
next-append_string field s rest n h =
    let tag = uvarint_bytes 10 (field * 8 % two64 + wire_bytes) in
    let body = uvarint_bytes 10 (length s) in
    let fits : ltb (length (s ++ rest)) (length s) ≡ false = ground (arith, length-append s rest) in
    rw
      (
        append_assoc (tag ++ body) s rest,
        append_assoc tag body (s ++ rest),
        next_tag field wire_bytes n (omega arith) (body ++ (s ++ rest)),
        uvarint-uvarint_bytes (length s) (s ++ rest) h,
        fits,
        take-append s rest,
        drop-append s rest,
      )
      refl

length-drop : (n : ℕ) (b : Text) → length (drop n b) ≤ length b
length-drop zero b = omega arith
length-drop (suc n) [] = omega arith
length-drop (suc n) (c ∷ b) = omega (arith, length-drop n b)

next_value_shorter :
    (number wire : ℕ) (b rest : Text) (f : Field)
    → next_value number wire b ≡ done (f, rest)
    → length rest ≤ length b
unfolding next_value
next_value_shorter number wire b rest f h = elim (Read-cases (uvarint b)) [
  | inl (e, bad) ↦ ground (arith, h, bad, length-drop 8 b, length-drop 4 b)
  | inr ((n, u), ok) ↦
      ground
        (arith, h, ok, uvarint_bound b n u ok, length-drop n u, length-drop 8 b, length-drop 4 b)
]

-- Whatever bytes Next decodes a field from, what it leaves is shorter than what it was given.
next_shorter : (b rest : Text) (f : Field) → next b ≡ done (f, rest) → length rest < length b
unfolding next
next_shorter b rest f h = elim (Read-cases (uvarint b)) [
  | inl (e, bad) ↦ absurd (ground (arith, h, bad))
  | inr ((t, u), ok) ↦
      ground (arith, h, ok, uvarint_bound b t u ok, next_value_shorter (t / 8) (t % 8) u rest f)
]

-- One turn of the loop over an entry, for the field that it decodes.
read_entry_turn :
    (f : ℕ) (k v b rest : Text) (x : Field)
    → 1 ≤ length b
    → next b ≡ done (x, rest)
    → read_entry (suc f) k v b ≡ (
        if (x.number == 1) && (x.wire == wire_bytes)
        then read_entry f x.content v rest
        else if (x.number == 2) && (x.wire == wire_bytes)
        then read_entry f k x.content rest
        else read_entry f k v rest)
unfolding read_entry
read_entry_turn f k v [] rest x p h = absurd (omega arith)
read_entry_turn f k v (c ∷ b) rest x p h = rw h refl

read_entry_end : (f : ℕ) (k v : Text) → read_entry f k v [] ≡ done (k, v)
unfolding read_entry
read_entry_end f k v = refl

-- The loop of StringMap over an entry gives the same result for every fuel that is at least the
-- entry's length.
read_entry_fuel :
    (f g : ℕ) (k v b : Text) → length b ≤ f → length b ≤ g → read_entry f k v b ≡ read_entry g k v b
unfolding read_entry
read_entry_fuel f g k v [] p q = refl
read_entry_fuel zero g k v (c ∷ b) p q = absurd (omega arith)
read_entry_fuel (suc f) zero k v (c ∷ b) p q = absurd (omega arith)
read_entry_fuel (suc f) (suc g) k v (c ∷ b) p q = elim (Read-cases (next (c ∷ b))) [
  | inl (e, bad) ↦ rw bad refl
  | inr ((x, rest), ok) ↦
      let shorter = next_shorter (c ∷ b) rest x ok in
      let same : (i j : Text) → read_entry f i j rest ≡ read_entry g i j rest =
        λ i j. read_entry_fuel f g i j rest (omega arith) (omega arith) in
      rw (ok, same x.content v, same k x.content, same k v) refl
]

append_string-append :
    (b : Text) (field : ℕ) (s : Text) → append_string b field s ≡ b ++ append_string [] field s
unfolding append_string append_tag append_uvarint
append_string-append b field s =
    let tag = uvarint_bytes 10 (field * 8 % two64 + wire_bytes) in
    let size = uvarint_bytes 10 (length s) in
    ap (λ z. z ++ s) (append_assoc b tag size) ∙ append_assoc b (tag ++ size) s

-- StringMap on an entry that was written as its key at field 1 and its value at field 2, each
-- shorter than 2^64, sets that key to that value and reports no error.
string_map-append_string :
    (m : List (Text × Text)) (k v : Text)
    → length k < two64
    → length v < two64
    → string_map m (append_string (append_string [] 1 k) 2 v) ≡ done (put m k v)
unfolding string_map
string_map-append_string m k v hk hv =
    let first = append_string [] 1 k in
    let second = append_string [] 2 v in
    let e = append_string first 2 v in
    let split : e ≡ first ++ second = append_string-append first 2 v in
    let n1 : next e
        ≡ done (record { number = 1; wire = wire_bytes; varint = 0; content = k }, second) =
      rw split (next-append_string 1 k second (omega arith) hk) in
    let n2 : next second
        ≡ done (record { number = 2; wire = wire_bytes; varint = 0; content = v }, []) =
      ap next (sym (append-nil second)) ∙ next-append_string 2 v [] (omega arith) hv in
    let turns : read_entry (suc (suc (length e))) [] [] e ≡ done (k, v) =
      read_entry_turn (suc (length e)) [] [] e second _ (omega (arith, next_shorter e second _ n1))
        n1
      ∙ read_entry_turn (length e) k [] second [] _ (omega (arith, next_shorter second [] _ n2)) n2
      ∙ read_entry_end (length e) k v in
    rw
      (read_entry_fuel (length e) (suc (suc (length e))) [] [] e (omega arith) (omega arith), turns)
      refl
