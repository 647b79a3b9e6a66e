-- ===== src/Wire.antt =====
-- internal/protowire/protowire.go: the encoder and the decoder of protocol buffer fields. A byte is
-- a number below 256, a uint64 one below 2^64, and a field number is a non-negative int. An `|` of
-- the source joins disjoint bits, so it is a sum here.
pub mod Varint
pub mod Fields
mod Tests
use forebay.Prelude.{
  ℕ, zero, suc, ◌+◌, ◌*◌, ◌/◌, ◌%◌, ◌^◌, Bool, true, false, ◌&&◌, List, [], ◌∷◌, ◌++◌, length, take,
  drop, ltb, leb, ◌==◌, if◌then◌else◌,
}
use forebay.Prelude.Int.{ℤ, pos}
use forebay.Prelude.Int64.{two64, wrap64}
use forebay.Prelude.Text.{Text, text_eq}

abbrev pub wire_varint : ℕ
wire_varint = 0

abbrev pub wire_fixed64 : ℕ
wire_fixed64 = 1

abbrev pub wire_bytes : ℕ
wire_bytes = 2

abbrev pub wire_fixed32 : ℕ
wire_fixed32 = 5

pub data Error : Type 0 where
  truncated wire_type field_number : Error

pub data Read (A : Type 0) : Type 0 where
  failed : Error → Read A
  done : A → Read A

abbrev pub and_then : {A B : Type 0} → Read A → (A → Read B) → Read B
and_then (failed e) f = failed e
and_then (done a) f = f a

-- The loop of `appendUvarint`, with fuel for the bytes.
unfoldable pub uvarint_bytes : ℕ → ℕ → Text
uvarint_bytes zero v = []
uvarint_bytes (suc f) v =
    let rest = uvarint_bytes f (v / 128) in if ltb v 128 then v ∷ [] else (v % 128 + 128) ∷ rest

-- Ten bytes hold 70 bits.
unfoldable pub append_uvarint : Text → ℕ → Text
append_uvarint b v = b ++ uvarint_bytes 10 v

unfoldable pub append_tag : Text → ℕ → ℕ → Text
append_tag b field wire = append_uvarint b (field * 8 % two64 + wire)

unfoldable pub append_varint : Text → ℕ → ℕ → Text
append_varint b field v = append_uvarint (append_tag b field wire_varint) v

unfoldable pub append_bool : Text → ℕ → Bool → Text
append_bool b field v = append_varint b field (if v then 1 else 0)

unfoldable pub append_string : Text → ℕ → Text → Text
append_string b field s = append_uvarint (append_tag b field wire_bytes) (length s) ++ s

unfoldable pub append_message : Text → ℕ → Text → Text
append_message b field msg = append_uvarint (append_tag b field wire_bytes) (length msg) ++ msg

-- A Go map of strings, where a missing key reads as the empty string.
abbrev pub find : List (Text × Text) → Text → Text
find [] k = []
find ((j, v) ∷ m) k = if text_eq k j then v else find m k

unfoldable pub append_string_map : Text → ℕ → List Text → List (Text × Text) → Text
append_string_map b field [] m = b
append_string_map b field (k ∷ ks) m =
    append_string_map (append_message b field (append_string (append_string [] 1 k) 2 (find m k)))
      field ks m

-- The loop of `uvarint` at byte `i`, with the value so far.
unfoldable pub read_uvarint : ℕ → ℕ → Text → Read (ℕ × Text)
read_uvarint i v [] = failed truncated
read_uvarint i v (c ∷ b) =
    let next = v + (c % 128) * 2 ^ (7 * i) % two64 in
    let more = read_uvarint (suc i) next b in
    if (i == 9) && ltb 1 c then failed truncated else if ltb c 128 then done (next, b) else more

unfoldable pub uvarint : Text → Read (ℕ × Text)
uvarint b = read_uvarint 0 0 b

pub record Field : Type 0 where
  pub number : ℕ
  pub wire : ℕ
  pub varint : ℕ
  pub content : Text

-- `Field.Bool` and `Field.Int64`
abbrev pub as_bool : Field → Bool
as_bool f = if f.varint == 0 then false else true

unfoldable pub as_int64 : Field → ℤ
as_int64 f = wrap64 (pos (f.varint))

-- The loops over the bytes of a fixed-width number, the last byte first.
unfoldable pub little_endian : Text → ℕ
little_endian [] = 0
little_endian (c ∷ b) = (little_endian b * 256 + c) % two64

abbrev pub fixed : ℕ → ℕ → ℕ → Text → Read (Field × Text)
fixed n number wire rest =
    if ltb (length rest) n
    then failed truncated
    else done (
      record { number = number; wire = wire; varint = little_endian (take n rest); content = [] },
      drop n rest,
    )

-- The cases of `Next` on the wire type.
unfoldable pub next_value : ℕ → ℕ → Text → Read (Field × Text)
next_value number wire rest =
    if wire == wire_varint
    then and_then (uvarint rest)
        (λ p. done (record { number = number; wire = wire; varint = p.0; content = [] }, p.1))
    else if wire == wire_bytes
    then and_then (uvarint rest) (λ p.
      if ltb (length p.1) p.0
      then failed truncated
      else done (
        record { number = number; wire = wire; varint = 0; content = take p.0 p.1 },
        drop p.0 p.1,
      ))
    else if wire == wire_fixed64
    then fixed 8 number wire rest
    else if wire == wire_fixed32
    then fixed 4 number wire rest
    else failed wire_type

unfoldable pub next : Text → Read (Field × Text)
next b =
    and_then (uvarint b)
      (λ p. if p.0 / 8 == 0 then failed field_number else next_value (p.0 / 8) (p.0 % 8) p.1)

-- The loop of `StringMap` over an entry, with fuel for its fields: the last key and value seen.
unfoldable pub read_entry : ℕ → Text → Text → Text → Read (Text × Text)
read_entry f k v [] = done (k, v)
read_entry zero k v (c ∷ b) = failed truncated
read_entry (suc f) k v (c ∷ b) = and_then (next (c ∷ b)) (λ p.
    if (p.0.number == 1) && (p.0.wire == wire_bytes)
    then read_entry f p.0.content v p.1
    else if (p.0.number == 2) && (p.0.wire == wire_bytes)
    then read_entry f k p.0.content p.1
    else read_entry f k v p.1)

-- `m[k] = v`
abbrev pub put : List (Text × Text) → Text → Text → List (Text × Text)
put [] k v = (k, v) ∷ []
put ((j, w) ∷ m) k v = if text_eq k j then (k, v) ∷ m else (j, w) ∷ put m k v

-- `StringMap`; each field takes a byte at least, so the length of the entry is fuel enough.
unfoldable pub string_map : List (Text × Text) → Text → Read (List (Text × Text))
string_map m entry = and_then (read_entry (length entry) [] [] entry) (λ p. done (put m p.0 p.1))
