-- ===== src/Cbor/Examples.antt =====
-- Concrete runs of the codec, and its theorems at concrete inputs.
use murmur_go.Common.{
  ◌≤◌, ◌+◌, ℕ, ◌≡◌, ◌↔◌, refl, arith, Bool, true, List, [], ◌∷◌, ◌++◌, ◌^◌, Result, ok, panics,
  some,
}
use murmur_go.Common.Int.{pos, negsuc}
use murmur_go.Cbor.Value.{Value, int, text, bool, array, map, decimal, nil, cons, end, entry}
use murmur_go.Cbor.Errors
use murmur_go.Cbor.Errors.{reason_string, DecodeError, EncodeError, fail}
use murmur_go.Cbor.ErrorText.{decode_error_text}
use murmur_go.Cbor.ErrorText.Injective.{decode_error_text_injective}
use murmur_go.Schema.Path.{codes, digits}
use murmur_go.Cbor.Canonical.{gcd, check_decimal, check_rational}
use murmur_go.Cbor.Canonical.Numbers.{up, check_decimal_unique, check_rational_unique}
use murmur_go.Cbor.Text.{
  continuation, utf8_loop, valid_string, has_byte_order_mark, validate_text, text_reason,
}
use murmur_go.Cbor.Order.{compare_bytes, insert_by, sort_by, sort_pairs, has_duplicate}
use murmur_go.Cbor.Head.{head_bytes}
use murmur_go.Cbor.Encode.{
  Encoding, max_depth, head, integer, int_pair, key_kind, append_pairs, write_map, value, encode,
}
use murmur_go.Cbor.Decode.{
  max_items, take_loop, take_uint, long_arg, read_arg, take_bytes, simple, array_loop, decode_array,
  check_key_kind, check_key_order, map_loop, decode_map, check_text, content, first_byte, item_body,
  item, decode,
}
use murmur_go.Cbor.Canonicity.{encode-decode}
use murmur_go.Cbor.Keys.{Distinct}
use murmur_go.Cbor.Accepted.{IsEncoding, decode_iff}
use murmur_go.Cbor.Bounds.{nesting, decode-bounds}
use murmur_go.Cbor.Huge.{Huge, decode-Huge}
use murmur_go.Cbor.Encodable.{Encodable}
use murmur_go.Cbor.Encodable.Total.{Writes, encode_iff}
use murmur_go.Cbor.Reorder.{of_entries, exchanged, encode-Reordered}
use murmur_go.Cbor.Wire.{wire, key_bytes, to_entries, size}
use murmur_go.Cbor.RoundTrip.{decode-encode, decode-trailing}
use murmur_go.Cbor.Panics.{decode-panics}

-- Every text counts as normal in these runs.
abbrev pub any : List ℕ → Bool
any s = true

unfoldable pub run_encode : Value → Encoding
unfolding encode value head head_bytes integer int_pair key_kind append_pairs write_map
    validate_text valid_string utf8_loop continuation has_byte_order_mark check_decimal
    check_rational gcd compare_bytes insert_by sort_by sort_pairs has_duplicate
run_encode = encode any

unfoldable pub run_decode : List ℕ → Result DecodeError Value
unfolding decode item item_body first_byte content check_text decode_map map_loop check_key_order
    check_key_kind decode_array array_loop simple take_bytes read_arg long_arg take_uint take_loop
    validate_text valid_string utf8_loop continuation has_byte_order_mark text_reason compare_bytes
run_decode = decode any

-- {1: [true], 2: "a"}
abbrev sample : Value
sample = map (
    entry (int (pos 1)) (array (cons (bool true) nil)) (entry (int (pos 2)) (text (0x61 ∷ [])) end))

abbrev sample_bytes : List ℕ
sample_bytes = 0xa2 ∷ 0x01 ∷ 0x81 ∷ 0xf5 ∷ 0x02 ∷ 0x61 ∷ 0x61 ∷ []

encode-sample : encode any sample ≡ ok sample_bytes
unfolding run_encode
encode-sample = refl

decode-sample : decode any sample_bytes ≡ ok sample
unfolding run_decode
decode-sample = refl

-- 1 in two bytes.
decode_non_minimal : decode any (0x18 ∷ 0x01 ∷ []) ≡ fail Errors.non_minimal 0
unfolding run_decode
decode_non_minimal = refl

-- The least value that has no byte form in 64 bits but for the sign: -2^64.
decode_least :
    decode any (0x3b ∷ 0xff ∷ 0xff ∷ 0xff ∷ 0xff ∷ 0xff ∷ 0xff ∷ 0xff ∷ 0xff ∷ [])
    ≡ ok (int (negsuc 0xffff_ffff_ffff_ffff))
unfolding run_decode
decode_least = refl

-- A byte string that says it is 2^64 - 1 bytes long.
decode_huge :
    decode any (0x5b ∷ 0xff ∷ 0xff ∷ 0xff ∷ 0xff ∷ 0xff ∷ 0xff ∷ 0xff ∷ 0xff ∷ []) ≡ panics
unfolding run_decode
decode_huge = refl

decode_duplicate :
    decode any (0xa2 ∷ 0x01 ∷ 0xf5 ∷ 0x01 ∷ 0xf5 ∷ []) ≡ fail Errors.duplicate_map_key 3
unfolding run_decode
decode_duplicate = refl

encode-decode_example : encode any sample ≡ ok sample_bytes
encode-decode_example =
    encode-decode any sample_bytes sample (omega arith) (omega arith) decode-sample

-- {"b": 5e-1, "a": []}, built out of order.
abbrev unsorted : Value
unsorted = map (
    entry (text (0x62 ∷ [])) (decimal (negsuc 0) (pos 5))
      (entry (text (0x61 ∷ [])) (array nil) end))

abbrev unsorted_bytes : List ℕ
unsorted_bytes = 0xa2 ∷ 0x61 ∷ 0x61 ∷ 0x80 ∷ 0x61 ∷ 0x62 ∷ 0x82 ∷ 0x20 ∷ 0x05 ∷ []

abbrev unsorted_wire : Value
unsorted_wire = map (
    entry (text (0x61 ∷ [])) (array nil)
      (entry (text (0x62 ∷ [])) (array (cons (int (negsuc 0)) (cons (int (pos 5)) nil))) end))

encode-unsorted : encode any unsorted ≡ ok unsorted_bytes
unfolding run_encode
encode-unsorted = refl

wire-unsorted : wire unsorted ≡ unsorted_wire
unfolding wire key_bytes to_entries head_bytes compare_bytes insert_by sort_by
wire-unsorted = refl

decode-encode_example : decode any unsorted_bytes ≡ ok (wire unsorted)
decode-encode_example =
    decode-encode any unsorted unsorted_bytes encode-unsorted (omega arith)
      (unfold size in omega arith)

decode-trailing_example : decode any (unsorted_bytes ++ 0xf5 ∷ []) ≡ fail Errors.trailing_bytes 9
decode-trailing_example =
    decode-trailing any unsorted unsorted_bytes 0xf5 [] encode-unsorted (omega arith)
      (unfold size in omega arith)

decode-panics_example : decode any (head_bytes 4 (2 ^ 63) ++ 0 ∷ []) ≡ panics
decode-panics_example =
    decode-panics any 4 (2 ^ 63) (0 ∷ []) (omega arith) (omega arith) (omega arith) (omega arith)
      (unfold head_bytes in omega arith)

-- The entries of `unsorted` the other way round.
abbrev turned : Value
turned = map (
    entry (text (0x61 ∷ [])) (array nil)
      (entry (text (0x62 ∷ [])) (decimal (negsuc 0) (pos 5)) end))

encode-Reordered_example : encode any turned ≡ ok unsorted_bytes
encode-Reordered_example =
    encode-Reordered any unsorted turned unsorted_bytes (of_entries exchanged) encode-unsorted

decode-bounds_example : (size sample ≤ max_items) × (nesting sample ≤ max_depth + 1)
decode-bounds_example = decode-bounds any sample_bytes sample decode-sample

-- The head of `decode_huge`.
abbrev huge_bytes : List ℕ
huge_bytes = 0x5b ∷ 0xff ∷ 0xff ∷ 0xff ∷ 0xff ∷ 0xff ∷ 0xff ∷ 0xff ∷ 0xff ∷ []

decode-Huge_example : Huge huge_bytes
decode-Huge_example = decode-Huge any huge_bytes (omega arith) (omega arith) decode_huge

-- A length a little below 2^63 makes `d.pos+n` wrap, and panics too.
decode_nearly_huge :
    decode any (0x5b ∷ 0x7f ∷ 0xff ∷ 0xff ∷ 0xff ∷ 0xff ∷ 0xff ∷ 0xff ∷ 0xff ∷ []) ≡ panics
unfolding run_decode
decode_nearly_huge = refl

-- -12.5 is the mantissa -125 times 10^-1.
check_decimal_passes : check_decimal (some (negsuc 0)) (some (negsuc 124)) ≡ ok tt
unfolding check_decimal
check_decimal_passes = refl

check_decimal_unique_example : (negsuc 0 ≡ negsuc 0) × (negsuc 124 ≡ negsuc 124)
check_decimal_unique_example =
    check_decimal_unique (negsuc 0) (negsuc 124) (negsuc 0) (negsuc 124) (up 0 refl refl)
      check_decimal_passes check_decimal_passes

-- -3/4.
check_rational_passes : check_rational (some (negsuc 2)) (some (pos 4)) ≡ ok tt
unfolding check_rational gcd
check_rational_passes = refl

check_rational_unique_example : (negsuc 2 ≡ negsuc 2) × (pos 4 ≡ pos 4)
check_rational_unique_example =
    check_rational_unique (negsuc 2) (pos 4) (negsuc 2) (pos 4) refl check_rational_passes
      check_rational_passes

encode_iff_example : Writes (encode any sample) ↔ (Encodable any 0 sample × Distinct sample)
encode_iff_example = encode_iff any sample

decode_iff_example : ((v : Value) × (decode any sample_bytes ≡ ok v)) ↔ IsEncoding any sample_bytes
decode_iff_example = decode_iff any sample_bytes (omega arith) (omega arith)

abbrev cut_short : DecodeError
cut_short = record { reason = Errors.truncated; pos = 12; msg = "" }

abbrev bad_text : DecodeError
bad_text = record {
  reason = Errors.invalid_utf8;
  pos = 3;
  msg = "cbor: text string is not valid UTF-8";
}

text_of-cut_short : decode_error_text cut_short ≡ codes "cbor: truncated at byte 12"
unfolding decode_error_text digits reason_string
text_of-cut_short = refl

text_of-bad_text :
    decode_error_text bad_text
    ≡ codes "cbor: invalid-utf8 at byte 3: cbor: text string is not valid UTF-8"
unfolding decode_error_text digits reason_string
text_of-bad_text = refl

decode_error_text_injective_example :
    (bad_text.reason ≡ bad_text.reason)
    × (bad_text.pos ≡ bad_text.pos)
    × (codes bad_text.msg ≡ codes bad_text.msg)
decode_error_text_injective_example = decode_error_text_injective bad_text bad_text refl
