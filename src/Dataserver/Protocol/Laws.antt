-- ===== src/Dataserver/Protocol/Laws.antt =====
-- Round trips of the frames of internal/dataserver/protocol.go.
use mathlib.Core.List.{append_assoc}
use native.Mathlib.Omega.{pow_step}
use forebay.Prelude.{
  ℕ, zero, suc, ◌+◌, ◌*◌, ◌/◌, ◌%◌, ◌^◌, ◌≤◌, ◌<◌, ◌≡◌, refl, ap, sym, ◌∙◌, ◌⊎◌, inl, inr, true,
  false, [], ◌∷◌, ◌++◌, length, length-append, take, drop, arith, ltb,
}
use forebay.Prelude.Slices.{drop-drop, length-take_le, length-take_bounds, length-drop_sub}
use forebay.Prelude.Int.{ℤ, pos, negsuc}
use forebay.Prelude.Int64.{two64, IsInt64, wrap64}
use forebay.Prelude.Text.{Text}
use forebay.Dataserver.Protocol.{
  magic, version, max_name, Error, Read, failed, done, put_uint, uint_from, uint_at, signed,
  unsigned, Request, stated_op, is_op, request_head, encode, read_full, check_head, request_of,
  decode_request,
}

uint_from-append : (b : Text) (acc c : ℕ) → uint_from acc (b ++ c ∷ []) ≡ uint_from acc b * 256 + c
unfolding uint_from
uint_from-append [] acc c = refl
uint_from-append (d ∷ b) acc c = uint_from-append b (acc * 256 + d) c

-- A number that fits so many bytes is read back from them.
pub uint_from-put_uint : (n v : ℕ) → v < 256 ^ n → uint_from 0 (put_uint n v) ≡ v
unfolding put_uint
uint_from-put_uint zero v h = unfold uint_from in omega arith
uint_from-put_uint (suc n) v h =
    let p = pow_step 256 n in
    uint_from-append (put_uint n (v / 256)) 0 (v % 256)
    ∙ ap (λ z. z * 256 + v % 256) (uint_from-put_uint n (v / 256) (omega (arith, p)))
    ∙ omega arith

pub signed-unsigned : (z : ℤ) → IsInt64 z → signed (unsigned z) ≡ z
unfolding wrap64 unsigned
signed-unsigned (pos n) h = ground arith
signed-unsigned (negsuc n) h = ground arith

pub unsigned_bound : (z : ℤ) → unsigned z < two64
unfolding unsigned
unsigned_bound (pos n) = omega arith
unsigned_bound (negsuc n) = omega arith

pub take-append_length : (s rest : Text) → take (length s) (s ++ rest) ≡ s
take-append_length [] rest = refl
take-append_length (c ∷ s) rest = ap (λ z. c ∷ z) (take-append_length s rest)

pub drop-append_length : (s rest : Text) → drop (length s) (s ++ rest) ≡ rest
drop-append_length [] rest = refl
drop-append_length (c ∷ s) rest = drop-append_length s rest

pub read_full-append :
    (n : ℕ) (s rest : Text) → length s ≡ n → read_full n (s ++ rest) ≡ done (s, rest)
unfolding read_full
read_full-append n s rest e =
    let enough : ltb (length (s ++ rest)) n ≡ false = ground (arith, e, length-append s rest) in
    rw enough (
      ap done (
        ap (λ m. (take m (s ++ rest), drop m (s ++ rest))) (sym e)
        ∙ (λ i. (take-append_length s rest i, drop-append_length s rest i))))

-- The numbers in the header of a request.
module _ (r : Request) where
  head_length : length (request_head r) ≡ 28
  unfolding request_head put_uint
  head_length = refl

  head_magic : uint_at 0 4 (request_head r) ≡ magic
  unfolding request_head put_uint uint_from
  head_magic = refl

  head_version : uint_at 4 1 (request_head r) ≡ version
  unfolding request_head put_uint uint_from
  head_version = refl

  head_op : uint_at 5 1 (request_head r) ≡ stated_op r.op
  unfolding request_head put_uint uint_from
  head_op = omega arith

  head_tenant : length r.tenant ≤ max_name → uint_at 6 2 (request_head r) ≡ length r.tenant
  unfolding request_head uint_from put_uint
  head_tenant h = uint_from-put_uint 2 (length r.tenant % 65536) (omega arith) ∙ omega arith

  head_object : length r.object ≤ max_name → uint_at 8 2 (request_head r) ≡ length r.object
  unfolding request_head uint_from put_uint
  head_object h = uint_from-put_uint 2 (length r.object % 65536) (omega arith) ∙ omega arith

  head_after : length r.after ≤ max_name → uint_at 10 2 (request_head r) ≡ length r.after
  unfolding request_head uint_from put_uint
  head_after h = uint_from-put_uint 2 (length r.after % 65536) (omega arith) ∙ omega arith

  head_offset : uint_at 12 8 (request_head r) ≡ unsigned r.offset
  unfolding request_head uint_from put_uint
  head_offset = uint_from-put_uint 8 (unsigned r.offset) (unsigned_bound r.offset)

  head_len : uint_at 20 8 (request_head r) ≡ unsigned r.len
  unfolding request_head uint_from put_uint
  head_len = uint_from-put_uint 8 (unsigned r.len) (unsigned_bound r.len)

  names : Text
  names = r.tenant ++ (r.object ++ r.after)

  encode_parts :
      (frame : Text)
      → encode r ≡ done frame
      → (length r.tenant ≤ max_name)
        × (length r.object ≤ max_name)
        × (length r.after ≤ max_name)
        × (frame ≡ request_head r ++ names)
  unfolding encode names
  encode_parts frame h = ground (arith, h)

  module _ (short_t : length r.tenant ≤ max_name) (short_o : length r.object ≤ max_name)
      (short_a : length r.after ≤ max_name) where
    check_head-request_head : is_op (stated_op r.op) ≡ true → check_head (request_head r) ≡ done tt
    unfolding check_head
    check_head-request_head known =
        rw
          (
            head_magic,
            head_version,
            head_op,
            head_tenant short_t,
            head_object short_o,
            head_after short_a,
          )
          (ground (arith, known))

    request_of-request_head :
        IsInt64 r.offset
        → IsInt64 r.len
        → request_of (request_head r) names ≡ record r { op = stated_op r.op }
    unfolding request_of names
    request_of-request_head io il =
        let t = r.tenant in
        let o = r.object in
        let a = r.after in
        let last : drop (length t + length o) (t ++ (o ++ a)) ≡ a =
          sym (drop-drop (length t) (length o) (t ++ (o ++ a)))
          ∙ ap (drop (length o)) (drop-append_length t (o ++ a))
          ∙ drop-append_length o a in
        rw (head_op, head_tenant short_t, head_object short_o, head_offset, head_len)
          (rw
            (
              last,
              take-append_length t (o ++ a),
              drop-append_length t (o ++ a),
              take-append_length o a,
              signed-unsigned r.offset io,
              signed-unsigned r.len il,
            )
            refl)

    names_length :
        length names
        ≡ uint_at 6 2 (request_head r)
          + uint_at 8 2 (request_head r)
          + uint_at 10 2 (request_head r)
    unfolding names
    names_length =
        rw (head_tenant short_t, head_object short_o, head_after short_a)
          (omega
            (arith, length-append r.tenant (r.object ++ r.after), length-append r.object r.after))

-- A request that encode writes, followed by any bytes, is read back by decodeRequest with those
-- bytes left, where its operation is zero, which stands for a read, or one that is known, and its
-- offset and length are int64 values.
pub decode_request-encode :
    (r : Request) (frame rest : Text)
    → encode r ≡ done frame
    → is_op (stated_op r.op) ≡ true
    → IsInt64 r.offset
    → IsInt64 r.len
    → decode_request (frame ++ rest) ≡ done (record r { op = stated_op r.op }, rest)
unfolding decode_request
decode_request-encode r frame rest h known io il =
    let (t, o, a, whole) = encode_parts r frame h in
    let head = request_head r in
    let parts : frame ++ rest ≡ head ++ (names r ++ rest) =
      ap (λ z. z ++ rest) whole ∙ append_assoc head (names r) rest in
    rw
      (
        parts,
        read_full-append 28 head (names r ++ rest) (head_length r),
        check_head-request_head r t o a known,
        read_full-append _ (names r) rest (names_length r t o a),
        request_of-request_head r t o a io il,
      )
      refl

pub Read-cases :
    {A : Type 0} (r : Read A) → ((a : A) × (r ≡ done a)) ⊎ ((e : Error) × (r ≡ failed e))
Read-cases (done a) = inl (a, refl)
Read-cases (failed e) = inr (e, refl)

read_full_parts :
    (n : ℕ) (b s rest : Text) → read_full n b ≡ done (s, rest) → (s ≡ take n b) × (length s ≡ n)
unfolding read_full
read_full_parts n b s rest h =
    let l : n ≤ length b = ground (arith, h) in
    let e : s ≡ take n b = ground (arith, h) in (e, ap (λ z. length z) e ∙ length-take_le n b l)

check_head_parts :
    (head : Text)
    → check_head head ≡ done tt
    → (is_op (uint_at 5 1 head) ≡ true)
      × (uint_at 6 2 head ≤ max_name)
      × (uint_at 8 2 head ≤ max_name)
      × (uint_at 10 2 head ≤ max_name)
unfolding check_head
check_head_parts head h = ground (arith, h)

request_bounded :
    (head ns : Text)
    → is_op (uint_at 5 1 head) ≡ true
    → uint_at 6 2 head ≤ max_name
    → uint_at 8 2 head ≤ max_name
    → uint_at 10 2 head ≤ max_name
    → length ns ≡ uint_at 6 2 head + uint_at 8 2 head + uint_at 10 2 head
    → (is_op (request_of head ns).op ≡ true)
      × (length (request_of head ns).tenant ≤ max_name)
      × (length (request_of head ns).object ≤ max_name)
      × (length (request_of head ns).after ≤ max_name)
unfolding request_of
request_bounded head ns op t o a size =
    let x = uint_at 6 2 head in
    let y = uint_at 8 2 head in
    let lt = length-take_bounds x ns in
    let lo = length-take_bounds y (drop x ns) in
    let la = length-drop_sub (x + y) ns in
    (op, omega (arith, lt), omega (arith, lo), omega (arith, la, size))

-- Whatever bytes decodeRequest reads a request from, its operation is one that is known and none
-- of its names is longer than the bound.
pub decode_request-bounded :
    (b rest : Text) (r : Request)
    → decode_request b ≡ done (r, rest)
    → (is_op r.op ≡ true)
      × (length r.tenant ≤ max_name)
      × (length r.object ≤ max_name)
      × (length r.after ≤ max_name)
unfolding decode_request
decode_request-bounded b rest r h = elim (Read-cases (read_full 28 b)) [
  | inr (e, bad) ↦ absurd (ground (arith, h, bad))
  | inl ((head, more), first) ↦ elim (Read-cases (check_head head)) [
    | inr (e, bad) ↦ absurd (ground (arith, h, first, bad))
    | inl (u, fine) ↦
        let (op, t, o, a) = check_head_parts head fine in
        elim (Read-cases
          (read_full (uint_at 6 2 head + uint_at 8 2 head + uint_at 10 2 head) more)) [
            | inr (e, bad) ↦ absurd (ground (arith, h, first, fine, bad))
            | inl ((ns, left), second) ↦
                let (_, size) = read_full_parts _ more ns left second in
                let is : request_of head ns ≡ r = ground (arith, h, first, fine, second) in
                rw (← is) (request_bounded head ns op t o a size)
          ]
  ]
]
