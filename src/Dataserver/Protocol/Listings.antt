-- ===== src/Dataserver/Protocol/Listings.antt =====
-- Round trips of the listings and the replies of internal/dataserver/protocol.go.
use forebay.Prelude.{
  ℕ, suc, ◌-◌, ◌%◌, ◌≤◌, ◌<◌, ◌≡◌, refl, ap, ◌∙◌, inl, inr, false, List, [], ◌∷◌, ◌++◌, All, length,
  length-append, take, drop, arith, ltb, ◌==◌, Bool-cases, if◌then◌else◌,
}
use forebay.Prelude.Int.{pos}
use forebay.Prelude.Int64.{two63, two64, IsInt64, wrap64_id}
use forebay.Prelude.Text.{Text}
use forebay.Driver.{Entry}
use forebay.Dataserver.Protocol.{
  magic, version, max_name, done, put_uint, uint_from, uint_at, signed, unsigned, encode_entry,
  encode_entries, decode_from, decode_entries, carried, encode_reply, decode_reply,
}
use forebay.Dataserver.Protocol.Laws.{
  uint_from-put_uint, signed-unsigned, unsigned_bound, take-append_length, drop-append_length,
  read_full-append, Read-cases,
}

-- One turn of the loop that reads records, on what it finds.
decode_step :
    (f n : ℕ) (b rest : Text) (es : List Entry)
    → ltb (length b) 11 ≡ false
    → uint_at 0 2 b ≡ n
    → drop 11 b ≡ rest
    → ltb (length rest) n ≡ false
    → decode_from f (drop n rest) ≡ done es
    → decode_from (suc f) b
      ≡ done (
          record { name = take n rest; is_dir = uint_at 2 1 b == 1; size = signed (uint_at 3 8 b) }
          ∷ es)
unfolding decode_from
decode_step f n [] rest es l num left enough more = absurd (ground (arith, l))
decode_step f n (c ∷ b) rest es l num left enough more = rw (l, num, left, enough, more) refl

-- One record of a listing, followed by any bytes.
module _ (e : Entry) (rest : Text) (short : length e.name ≤ max_name) where
  abbrev flag : ℕ
  flag = if e.is_dir then 1 else 0

  abbrev entry_bytes : Text
  entry_bytes = encode_entry e ++ rest

  entry_length : ltb (length entry_bytes) 11 ≡ false
  unfolding encode_entry put_uint
  entry_length = ground arith

  entry_name_length : uint_at 0 2 entry_bytes ≡ length e.name
  unfolding encode_entry uint_from put_uint
  entry_name_length = uint_from-put_uint 2 (length e.name % 65536) (omega arith) ∙ omega arith

  entry_flag : (uint_at 2 1 entry_bytes == 1) ≡ e.is_dir
  unfolding encode_entry uint_from put_uint
  entry_flag = ground arith

  entry_size : uint_at 3 8 entry_bytes ≡ unsigned e.size
  unfolding encode_entry uint_from put_uint
  entry_size = uint_from-put_uint 8 (unsigned e.size) (unsigned_bound e.size)

  entry_rest : drop 11 entry_bytes ≡ e.name ++ rest
  unfolding encode_entry put_uint
  entry_rest = refl

  entry_longer : length rest < length entry_bytes
  unfolding encode_entry put_uint
  entry_longer = omega (arith, length-append e.name rest)

  decode_turn :
      (f : ℕ) (es : List Entry)
      → IsInt64 e.size
      → decode_from f rest ≡ done es
      → decode_from (suc f) entry_bytes ≡ done (e ∷ es)
  decode_turn f es is more =
      let enough : ltb (length (e.name ++ rest)) (length e.name) ≡ false =
        ground (arith, length-append e.name rest) in
      let after = ap (decode_from f) (drop-append_length e.name rest) ∙ more in
      decode_step f (length e.name) entry_bytes (e.name ++ rest) es entry_length entry_name_length
        entry_rest enough after
      ∙ rw (take-append_length e.name rest, entry_flag, entry_size, signed-unsigned e.size is) refl

encode_entries_parts :
    (e : Entry) (es : List Entry) (b : Text)
    → encode_entries (e ∷ es) ≡ done b
    → (length e.name ≤ max_name)
      × ((b' : Text) × (encode_entries es ≡ done b') × (b ≡ encode_entry e ++ b'))
unfolding encode_entries
encode_entries_parts e es b h = elim (Read-cases (encode_entries es)) [
  | inr (x, bad) ↦ absurd (ground (arith, h, bad))
  | inl (b', ok_) ↦ (ground (arith, h), (b', ok_, ground (arith, h, ok_)))
]

decode_from-encode_entries :
    (f : ℕ) (es : List Entry) (b : Text)
    → encode_entries es ≡ done b
    → All (λ e. IsInt64 e.size) es
    → length b ≤ f
    → decode_from f b ≡ done es
decode_from-encode_entries f [] b h all fits =
    let e : [] ≡ b = unfold encode_entries in ground (arith, h) in
    rw (← e) (unfold decode_from in refl)
decode_from-encode_entries f (e ∷ es) b h (one, all) fits =
    let (short, (b', rest, whole)) = encode_entries_parts e es b h in
    let long = entry_longer e b' short in
    let sized : length b ≡ length (encode_entry e ++ b') = ap (λ z. length z) whole in
    let fuel : f ≡ suc (f - 1) = omega (arith, long, sized) in
    rw (fuel, whole)
      (decode_turn e b' short (f - 1) es one
        (decode_from-encode_entries (f - 1) es b' rest all (omega (arith, long, sized))))

-- A listing that encodeEntries writes, whose sizes are int64 values, is read back by
-- decodeEntries.
pub decode_entries-encode_entries :
    (es : List Entry) (b : Text)
    → encode_entries es ≡ done b
    → All (λ e. IsInt64 e.size) es
    → decode_entries b ≡ done es
unfolding decode_entries
decode_entries-encode_entries es b h all =
    decode_from-encode_entries (length b) es b h all (omega arith)

length_zero : (b : Text) → length b ≡ 0 → b ≡ []
length_zero [] h = refl
length_zero (c ∷ b) h = absurd (omega arith)

-- The fixed part of a reply, and the numbers in it.
reply_head : ℕ → Text → Text
reply_head status content =
    put_uint 4 magic ++ (version ∷ status ∷ put_uint 8 (length (carried status content) % two64))

module _ (status : ℕ) (content : Text) where
  reply_parts :
      (rest : Text)
      → encode_reply status content ++ rest
        ≡ reply_head status content ++ (carried status content ++ rest)
  unfolding encode_reply reply_head put_uint
  reply_parts rest = refl

  reply_numbers :
      (length (reply_head status content) ≡ 14)
      × (uint_at 0 4 (reply_head status content) ≡ magic)
      × (uint_at 4 1 (reply_head status content) ≡ version)
      × (uint_at 5 1 (reply_head status content) ≡ status)
  unfolding reply_head put_uint uint_from
  reply_numbers = (refl, refl, refl, omega arith)

  reply_size :
      length (carried status content) < two64
      → uint_at 6 8 (reply_head status content) ≡ length (carried status content)
  unfolding reply_head put_uint uint_from
  reply_size h =
      uint_from-put_uint 8 (length (carried status content) % two64) (omega arith) ∙ omega arith

-- A reply that encodeReply writes, followed by any bytes, is read back by decodeReply with those
-- bytes left: its status, and its content where the status is ok and none where it is another;
-- where the content is no longer than the bound of the caller, which is an int64.
decode_reply-encode_reply :
    (status max : ℕ) (content rest : Text)
    → length (carried status content) ≤ max
    → max < two63
    → decode_reply (pos max) (encode_reply status content ++ rest)
      ≡ done (status, carried status content, rest)
unfolding decode_reply
decode_reply-encode_reply status max content rest fits int =
    let c = carried status content in
    let (l, m, v, st) = reply_numbers status content in
    let size = reply_size status content (omega arith) in
    let plain : signed (length c) ≡ pos (length c) =
      wrap64_id (pos (length c)) (omega arith, omega arith) in
    rw
      (
        reply_parts status content rest,
        read_full-append 14 (reply_head status content) (c ++ rest) l,
        m,
        v,
        st,
        size,
        plain,
      )
      (elim (Bool-cases (length c == 0)) [
        | inl none_ ↦
            let empty : carried status content ≡ [] = length_zero c (ground arith) in
            rw empty (ground arith)
        | inr some_ ↦ rw (read_full-append (length c) c rest refl) (ground (arith, fits, some_))
      ])
