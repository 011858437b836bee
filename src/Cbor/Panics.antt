-- ===== src/Cbor/Panics.antt =====
-- Lengths that `int` cannot hold, in cbor/decode.go: `n := int(arg)` is negative there, the guard on
-- `d.pos+n` lets it through, and `make` panics.
use murmur_go.Common.{
  ℕ, ◌+◌, ◌%◌, ◌^◌, ◌≤◌, ◌<◌, ◌≡◌, ◌∙◌, Bool, true, false, List, ◌++◌, arith, length, length-append,
  le→ltb, lt→ltb, panics,
}
use murmur_go.Cbor.Value.{Value}
use murmur_go.Cbor.Head.{head_bytes}
use murmur_go.Cbor.Encode.{max_depth}
use murmur_go.Cbor.Decode.{
  Decoder, Decoding, max_alloc, int_lt, int_min, make_panics, data_length, take_bytes, decode_array,
  decode_map, content, item, decode,
}
use murmur_go.Cbor.RoundTrip.Heads.{item-head}

-- A uint64 that is negative as an `int`.
module _ (arg : ℕ) (lo : 2 ^ 63 ≤ arg) (hi : arg < 2 ^ 64) where
  negative : int_lt arg 0 ≡ true
  negative = lt→ltb ((arg + 2 ^ 63) % 2 ^ 64) (2 ^ 63) (omega arith)

  make_panics-negative : make_panics arg ≡ true
  make_panics-negative = rw negative

  capacity-negative : make_panics (int_min arg 1024) ≡ true
  capacity-negative =
      let less : int_lt arg 1024 ≡ true =
        lt→ltb ((arg + 2 ^ 63) % 2 ^ 64) ((1024 + 2 ^ 63) % 2 ^ 64) (omega arith) in
      rw less make_panics-negative

  take_bytes-negative :
      (head_pos : ℕ) (d : Decoder) → data_length d ≤ max_alloc → take_bytes arg head_pos d ≡ panics
  unfolding take_bytes
  take_bytes-negative head_pos d fits =
      let passed : int_lt (data_length d) ((d.pos + arg) % 2 ^ 64) ≡ false =
        le→ltb _ _ (omega arith) in
      rw (passed, make_panics-negative)

  content-negative :
      (is_nfc : List ℕ → Bool) (rec : Decoder → Decoding Value) (major head_pos : ℕ) (d : Decoder)
      → 2 ≤ major
      → major ≤ 5
      → data_length d ≤ max_alloc
      → content is_nfc rec major arg head_pos d ≡ panics
  unfolding content decode_array decode_map
  content-negative is_nfc rec major head_pos d two five fits =
      ground (arith, take_bytes-negative head_pos d fits, capacity-negative)

-- An artifact whose first head declares a string, an array or a map of 2^63 bytes or items or more
-- makes `Decode` panic, whatever follows the head.
pub decode-panics :
    (is_nfc : List ℕ → Bool) (major arg : ℕ) (more : List ℕ)
    → 2 ≤ major
    → major ≤ 5
    → 2 ^ 63 ≤ arg
    → arg < 2 ^ 64
    → length (head_bytes major arg ++ more) ≤ max_alloc
    → decode is_nfc (head_bytes major arg ++ more) ≡ panics
unfolding decode
decode-panics is_nfc major arg more two five lo hi fits =
    let sizes = length-append (head_bytes major arg) more in
    let read =
      item-head is_nfc max_depth major arg 0 0 more (omega arith) hi (omega arith)
      ∙ content-negative arg lo hi is_nfc (item is_nfc max_depth) major 0 _ two five
          (omega (arith, sizes, fits)) in
    rw read
