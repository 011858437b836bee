-- ===== src/Conformance/Examples.antt =====
-- Concrete vectors, and the theorems of the conformance runner at concrete inputs.
mod Checks
use murmur_go.Common.{ℕ, ◌≡◌, ◌↔◌, refl, arith, Option, none, some, List, [], ◌∷◌, Result, ok, err}
use murmur_go.Common.Int.{pos, negsuc}
use murmur_go.Cbor.Value.{Value, int, bytes, text, map, decimal, end, entry}
use murmur_go.Cbor.Encode.{encode}
use murmur_go.Cbor.Errors.{reason_string}
use murmur_go.Cbor.Order.{compare_bytes}
use murmur_go.Cbor.Examples.{any, run_encode, run_decode}
use murmur_go.Cbor.Wire.{size}
use murmur_go.Schema.Path.{codes}
use murmur_go.ContentId.{sum}
use murmur_go.ContentId.Examples.{toy_sum}
use murmur_go.Envelope.Examples.{toy}
use murmur_go.Conformance.Hex.{hex_encode, hex_decode, hex_digit, hex_value, hex_pair}
use murmur_go.Conformance.Json.{
  Json, number, object, member, none_left, scan_digits, read_digits, set_string, signed,
}
use murmur_go.Conformance.Walk.{
  walk, walk_tag, only_member, plain_entry, is_tag, walk_bytes, two_ints, big_from_any,
  big_from_number, int_from_number, parse_value, ValueError, unregistered_tag, not_an_integer,
}
use murmur_go.Conformance.Author.{author, walk-author, OfBytes}
use murmur_go.Conformance.Order.{members, exchanged, encode-SameJson}
use murmur_go.Conformance.Vector.{
  Vector, Failure, from_hex, expect_hex, expect_reason, expect_rejection, check_round_trip,
  check_encode, check_content_id, check_reject, check,
}
use murmur_go.Conformance.Vector.Pinned.{Pinned, check_content_id_iff, Encoded, check_encode_iff}

unfoldable run_walk : Json → Result ValueError Value
unfolding walk only_member plain_entry walk_tag is_tag walk_bytes two_ints big_from_any
    big_from_number int_from_number set_string signed read_digits scan_digits compare_bytes
    hex_decode hex_pair hex_value
run_walk = walk

-- {"a": 7}
abbrev seven : Json
seven = object (member (codes "a") (number (codes "7")) none_left)

walk-seven : walk seven ≡ ok (map (entry (text (codes "a")) (int (pos 7)) end))
unfolding run_walk
walk-seven = refl

-- {"$a": 7, "b": 7}
walk_tag_among_others :
    walk (
      object (
        member
          (codes "$a")
          (number (codes "7"))
          (member (codes "b") (number (codes "7")) none_left)))
    ≡ err unregistered_tag
unfolding run_walk
walk_tag_among_others = refl

walk_fraction : walk (number (codes "1.5")) ≡ err not_an_integer
unfolding run_walk
walk_fraction = refl

walk_minus : walk (number (codes "-12")) ≡ ok (int (negsuc 11))
unfolding run_walk
walk_minus = refl

abbrev sample : Value
sample =
    map (
      entry (int (pos 1)) (decimal (negsuc 0) (pos 5))
        (entry (int (pos 2)) (bytes (0xff ∷ [])) end))

sample-OfBytes : OfBytes sample
unfolding OfBytes
sample-OfBytes = omega arith

walk-author_example : walk (author sample) ≡ ok sample
walk-author_example = walk-author sample sample-OfBytes

-- A reader that finds {"a": 7} in every text.
abbrev pub reader : List ℕ → Option Json
reader raw = some seven

abbrev pub blank : Vector
blank = record {
  kind = [];
  value = [];
  cbor = [];
  sha256 = [];
  seed = [];
  claims_cbor = [];
  public_key = [];
  signature = [];
  valid = none;
  bytes = [];
  reason = [];
  interpret_as = none;
}

abbrev encode_vector : Vector
encode_vector = record blank { kind = codes "encode"; cbor = codes "a1616107" }

abbrev pub content_vector : Vector
content_vector = record blank {
  kind = codes "content-id";
  cbor = codes "a10102";
  sha256 = codes "03";
}

abbrev pub reject_vector : Vector
reject_vector = record blank {
  kind = codes "reject";
  bytes = codes "1801";
  reason = codes "non-minimal";
}

unfoldable pub run_check : Vector → Result Failure (Unit {0})
unfolding check check_encode check_content_id check_reject check_round_trip from_hex expect_hex
    expect_reason expect_rejection reason_string parse_value run_walk hex_encode hex_digit
    run_encode run_decode sum
run_check = check any reader toy_sum toy

check-encode_vector : check any reader toy_sum toy encode_vector ≡ ok tt
unfolding run_check
check-encode_vector = refl

pub check-content_vector : check any reader toy_sum toy content_vector ≡ ok tt
unfolding run_check
check-content_vector = refl

check-reject_vector : check any reader toy_sum toy reject_vector ≡ ok tt
unfolding run_check
check-reject_vector = refl

check_content_id_iff_example :
    (check_content_id any toy_sum content_vector ≡ ok tt) ↔ Pinned any toy_sum content_vector
check_content_id_iff_example = check_content_id_iff any toy_sum content_vector (omega arith)

abbrev seven_value : Value
seven_value = map (entry (text (codes "a")) (int (pos 7)) end)

parsed_seven : parse_value reader [] ≡ ok seven_value
unfolding run_walk parse_value
parsed_seven = refl

size-seven_value : size seven_value ≡ 3
unfolding size
size-seven_value = refl

check_encode_iff_example :
    (check_encode any reader encode_vector ≡ ok tt) ↔ Encoded any seven_value encode_vector
check_encode_iff_example =
    check_encode_iff any reader encode_vector seven_value (omega arith) parsed_seven
      (omega (arith, size-seven_value))

-- {"a": 7, "bc": 8}, met in either order.
abbrev two : Json
two =
    object
      (member (codes "a") (number (codes "7")) (member (codes "bc") (number (codes "8")) none_left))

abbrev two_turned : Json
two_turned =
    object
      (member (codes "bc") (number (codes "8")) (member (codes "a") (number (codes "7")) none_left))

abbrev two_value : Value
two_value =
    map (entry (text (codes "a")) (int (pos 7)) (entry (text (codes "bc")) (int (pos 8)) end))

abbrev two_bytes : List ℕ
two_bytes = 0xa2 ∷ 0x61 ∷ 0x61 ∷ 0x07 ∷ 0x62 ∷ 0x62 ∷ 0x63 ∷ 0x08 ∷ []

walk-two : walk two ≡ ok two_value
unfolding run_walk
walk-two = refl

encode-two_value : encode any two_value ≡ ok two_bytes
unfolding run_encode
encode-two_value = refl

encode-SameJson_example : (w : Value) × (walk two_turned ≡ ok w) × (encode any w ≡ ok two_bytes)
encode-SameJson_example =
    encode-SameJson any two two_turned two_value two_bytes (members tt tt exchanged) walk-two
      encode-two_value
