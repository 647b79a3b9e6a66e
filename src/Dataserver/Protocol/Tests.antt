-- ===== src/Dataserver/Protocol/Tests.antt =====
-- Frames of internal/dataserver/protocol.go at concrete requests, listings and replies.
use forebay.Prelude.{ℕ, ◌≤◌, ◌≡◌, refl, true, false, List, [], ◌∷◌, ◌++◌, length, arith}
use forebay.Prelude.Int.{pos}
use forebay.Prelude.Text.{Text, bytes}
use forebay.Driver.{Entry}
use forebay.Dataserver.Protocol.{
  max_name, Read, failed, done, wrong_version, put_uint, uint_from, unsigned, Request, is_op,
  encode, request_head, read_full, check_head, decode_request, encode_entry, encode_entries,
  decode_entries,
}
use forebay.Dataserver.Protocol.Laws.{decode_request-encode, decode_request-bounded}
use forebay.Dataserver.Protocol.Listings.{decode_entries-encode_entries}

abbrev reading : Request
reading = record {
  op = 0;
  tenant = bytes "red";
  object = bytes "shard";
  after = [];
  offset = pos 4096;
  len = pos 512;
}

abbrev known : Request
known = record reading { op = 1 }

-- A byte list that a definition takes the place of.
abbrev value : Read Text → Text
value (done b) = b
value (failed e) = []

abbrev frame : Text
frame = value (encode reading)

encoded : encode reading ≡ done frame
unfolding encode request_head put_uint unsigned
encoded = refl

decode_request-encode_example : decode_request (frame ++ bytes "next") ≡ done (known, bytes "next")
decode_request-encode_example =
    decode_request-encode reading frame (bytes "next") encoded refl (omega arith) (omega arith)

decode_request-bounded_example :
    (is_op 1 ≡ true)
    × (length (bytes "red") ≤ max_name)
    × (length (bytes "shard") ≤ max_name)
    × (length {A = ℕ} [] ≤ max_name)
decode_request-bounded_example =
    decode_request-bounded (frame ++ bytes "next") (bytes "next") known
      decode_request-encode_example

other_version : decode_request (70 ∷ 66 ∷ 82 ∷ 89 ∷ 1 ∷ frame) ≡ failed wrong_version
unfolding decode_request read_full check_head uint_from encode request_head put_uint unsigned
other_version = refl

abbrev listing : List Entry
listing =
    record { name = bytes "train"; is_dir = true; size = pos 0 }
    ∷ record { name = bytes "a.bin"; is_dir = false; size = pos 70_000 }
    ∷ []

abbrev listing_bytes : Text
listing_bytes = value (encode_entries listing)

listed : encode_entries listing ≡ done listing_bytes
unfolding encode_entries encode_entry put_uint unsigned
listed = refl

decode_entries-encode_entries_example : decode_entries listing_bytes ≡ done listing
decode_entries-encode_entries_example =
    decode_entries-encode_entries listing listing_bytes listed (omega arith)
