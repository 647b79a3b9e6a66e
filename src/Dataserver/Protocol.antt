-- ===== src/Dataserver/Protocol.antt =====
-- internal/dataserver/protocol.go: the frames between the node agent and what serves NFS in front of
-- it. A byte is a number below 256; a reader is the bytes that are left to read from it, and reading
-- more than there are is an error.
pub mod Laws
pub mod Listings
mod Tests
use forebay.Prelude.{
  ℕ, zero, suc, ◌+◌, ◌-◌, ◌*◌, ◌/◌, ◌%◌, Bool, true, false, not, ◌&&◌, ◌||◌, List, [], ◌∷◌, ◌++◌,
  length, take, drop, ltb, leb, ◌==◌, if◌then◌else◌,
}
use forebay.Prelude.Int.{ℤ, pos, negsuc, pos_part, ltb_ℤ, eqb_ℤ}
use forebay.Prelude.Int64.{two64, wrap64}
use forebay.Prelude.Text.{Text}
use forebay.Driver.{Entry}

abbrev pub magic : ℕ
magic = 0x46425259

abbrev pub version : ℕ
version = 2

abbrev pub op_read_range : ℕ
op_read_range = 1

abbrev pub op_stat : ℕ
op_stat = 2

abbrev pub op_list : ℕ
op_list = 3

abbrev pub status_ok : ℕ
status_ok = 0

abbrev pub max_name : ℕ
max_name = 1024

pub data Error : Type 0 where
  ended wrong_magic wrong_version wrong_op long_name inside_record inside_name too_large : Error

pub data Read (A : Type 0) : Type 0 where
  failed : Error → Read A
  done : A → Read A

abbrev pub and_then : {A B : Type 0} → Read A → (A → Read B) → Read B
and_then (failed e) f = failed e
and_then (done a) f = f a

-- `binary.BigEndian`: so many bytes of a number, and the number of some bytes.
unfoldable pub put_uint : ℕ → ℕ → Text
put_uint zero v = []
put_uint (suc n) v = put_uint n (v / 256) ++ v % 256 ∷ []

unfoldable pub uint_from : ℕ → Text → ℕ
uint_from acc [] = acc
uint_from acc (c ∷ b) = uint_from (acc * 256 + c) b

-- `int64` of a uint64, and `uint64` of an int64.
abbrev pub signed : ℕ → ℤ
signed u = wrap64 (pos u)

unfoldable pub unsigned : ℤ → ℕ
unsigned (pos n) = n % two64
unsigned (negsuc n) = two64 - 1 - n % two64

pub record Request : Type 0 where
  pub op : ℕ
  pub tenant : Text
  pub object : Text
  pub after : Text
  pub offset : ℤ
  pub len : ℤ

abbrev pub request_header : ℕ
request_header = 28

abbrev pub is_long : Text → Bool
is_long name = ltb max_name (length name)

abbrev pub stated_op : ℕ → ℕ
stated_op op = if op == 0 then op_read_range else op

-- The fixed part of a request frame.
unfoldable pub request_head : Request → Text
request_head r =
    put_uint 4 magic
    ++ (version
        ∷ stated_op r.op
        ∷ (put_uint 2 (length r.tenant % 65536)
            ++ (put_uint 2 (length r.object % 65536)
                ++ (put_uint 2 (length r.after % 65536)
                    ++ (put_uint 8 (unsigned r.offset) ++ put_uint 8 (unsigned r.len))))))

unfoldable pub encode : Request → Read Text
encode r =
    if is_long r.tenant || is_long r.object || is_long r.after
    then failed long_name
    else done (request_head r ++ (r.tenant ++ (r.object ++ r.after)))

-- `io.ReadFull`: so many bytes, and what is left.
unfoldable pub read_full : ℕ → Text → Read (Text × Text)
read_full n b = if ltb (length b) n then failed ended else done (take n b, drop n b)

-- The number at a place in a header.
abbrev pub uint_at : ℕ → ℕ → Text → ℕ
uint_at i n head = uint_from 0 (take n (drop i head))

abbrev pub is_op : ℕ → Bool
is_op op = (op == op_read_range) || (op == op_stat) || (op == op_list)

-- The tests of a request's header.
unfoldable pub check_head : Text → Read (Unit {0})
check_head head =
    if not (uint_at 0 4 head == magic)
    then failed wrong_magic
    else if not (uint_at 4 1 head == version)
    then failed wrong_version
    else if not (is_op (uint_at 5 1 head))
    then failed wrong_op
    else if ltb max_name (uint_at 6 2 head)
        || ltb max_name (uint_at 8 2 head)
        || ltb max_name (uint_at 10 2 head)
    then failed long_name
    else done tt

-- A request of its header and its names.
unfoldable pub request_of : Text → Text → Request
request_of head names =
    let t = uint_at 6 2 head in
    let o = uint_at 8 2 head in
    record {
      op = uint_at 5 1 head;
      tenant = take t names;
      object = take o (drop t names);
      after = drop (t + o) names;
      offset = signed (uint_at 12 8 head);
      len = signed (uint_at 20 8 head);
    }

unfoldable pub decode_request : Text → Read (Request × Text)
decode_request b = and_then (read_full request_header b) (λ p. and_then (check_head p.0) (λ _.
    and_then (read_full (uint_at 6 2 p.0 + uint_at 8 2 p.0 + uint_at 10 2 p.0) p.1)
      (λ q. done (request_of p.0 q.0, q.1))))

-- One record of a listing.
unfoldable pub encode_entry : Entry → Text
encode_entry e =
    put_uint 2 (length e.name % 65536)
    ++ ((if e.is_dir then 1 else 0) ∷ (put_uint 8 (unsigned e.size) ++ e.name))

unfoldable pub encode_entries : List Entry → Read Text
encode_entries [] = done []
encode_entries (e ∷ es) =
    let rest = encode_entries es in
    if is_long e.name then failed long_name else and_then rest (λ b. done (encode_entry e ++ b))

-- The loop of `decodeEntries`, with fuel for the records.
unfoldable pub decode_from : ℕ → Text → Read (List Entry)
decode_from f [] = done []
decode_from zero (c ∷ b) = failed inside_record
decode_from (suc f) (c ∷ b) =
    let n = uint_at 0 2 (c ∷ b) in
    let rest = drop 11 (c ∷ b) in
    let entry : Entry = record {
      name = take n rest;
      is_dir = uint_at 2 1 (c ∷ b) == 1;
      size = signed (uint_at 3 8 (c ∷ b));
    } in
    let more = decode_from f (drop n rest) in
    if ltb (length (c ∷ b)) 11
    then failed inside_record
    else if ltb (length rest) n
    then failed inside_name
    else and_then more (λ es. done (entry ∷ es))

-- Each record takes a byte at least, so the length is fuel enough.
unfoldable pub decode_entries : Text → Read (List Entry)
decode_entries b = decode_from (length b) b

abbrev pub reply_header : ℕ
reply_header = 14

abbrev pub carried : ℕ → Text → Text
carried status content = if status == status_ok then content else []

unfoldable pub encode_reply : ℕ → Text → Text
encode_reply status content =
    put_uint 4 magic
    ++ (version
        ∷ status
        ∷ (put_uint 8 (length (carried status content) % two64) ++ carried status content))

unfoldable pub decode_reply : ℤ → Text → Read (ℕ × Text × Text)
decode_reply max b = and_then (read_full reply_header b) (λ p.
    let status = uint_at 5 1 p.0 in
    let size = signed (uint_at 6 8 p.0) in
    let content = read_full (pos_part size) p.1 in
    if not (uint_at 0 4 p.0 == magic)
    then failed wrong_magic
    else if not (uint_at 4 1 p.0 == version)
    then failed wrong_version
    else if ltb_ℤ size (pos 0) || ltb_ℤ max size
    then failed too_large
    else if eqb_ℤ size (pos 0)
    then done (status, [], p.1)
    else and_then content (λ q. done (status, q.0, q.1)))
