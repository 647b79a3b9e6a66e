-- ===== src/Wire/Tests.antt =====
-- The encoder and the decoder run on small messages, and their theorems applied there.
use forebay.Prelude.{◌≡◌, refl, [], ◌∷◌, ◌++◌, arith}
use forebay.Prelude.Int.{negsuc}
use forebay.Prelude.Int64.{wrap64}
use forebay.Prelude.Text.{Text}
use forebay.Wire.{
  failed, done, truncated, wire_varint, uvarint_bytes, append_uvarint, append_tag, append_varint,
  read_uvarint, uvarint, next_value, next, as_int64, little_endian,
}
use forebay.Wire.Fields.{next-append_varint}

-- The encoding of 300, as the documentation of protocol buffers gives it.
three_hundred : append_varint [] 1 300 ≡ 8 ∷ 172 ∷ 2 ∷ []
unfolding append_varint append_tag append_uvarint uvarint_bytes
three_hundred = refl

-- Eleven bits too many in the tenth byte.
too_wide : uvarint (255 ∷ 255 ∷ 255 ∷ 255 ∷ 255 ∷ 255 ∷ 255 ∷ 255 ∷ 255 ∷ 2 ∷ []) ≡ failed truncated
unfolding uvarint read_uvarint
too_wide = refl

-- A negative number travels as a large one.
minus_one :
    as_int64 (record { number = 1; wire = 0; varint = 18_446_744_073_709_551_615; content = [] })
    ≡ negsuc 0
unfolding as_int64 wrap64
minus_one = refl

a_fixed32 :
    next (13 ∷ 1 ∷ 2 ∷ 0 ∷ 0 ∷ 7 ∷ [])
    ≡ done (record { number = 1; wire = 5; varint = 513; content = [] }, 7 ∷ [])
unfolding next next_value uvarint read_uvarint little_endian
a_fixed32 = refl

next-append_varint_example :
    next (append_varint [] 4 1000 ++ 9 ∷ [])
    ≡ done (record { number = 4; wire = wire_varint; varint = 1000; content = [] }, 9 ∷ [])
next-append_varint_example = next-append_varint 4 1000 (9 ∷ []) (omega arith) (omega arith)

abbrev after : Text
after = 7 ∷ []

abbrev message : Text
message = 8 ∷ 172 ∷ 2 ∷ after
