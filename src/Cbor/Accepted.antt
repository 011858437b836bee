-- ===== src/Cbor/Accepted.antt =====
-- The bytes that cbor/decode.go accepts, by what cbor/encode.go writes.
use murmur_go.Common.{ℕ, ◌≡◌, ◌↔◌, ◌≤◌, Bool, List, length, All, ok}
use murmur_go.Cbor.Value.{Value}
use murmur_go.Cbor.Head.Form.{IsByte}
use murmur_go.Cbor.Encode.{encode}
use murmur_go.Cbor.Decode.{decode, max_alloc, max_items}
use murmur_go.Cbor.Canonicity.{encode-decode}
use murmur_go.Cbor.Bounds.{decode-bounds}
use murmur_go.Cbor.RoundTrip.{decode-encode}
use murmur_go.Cbor.Wire.{wire, size}

-- What Encode writes for some value of at most MaxItems items.
abbrev pub IsEncoding : (List ℕ → Bool) → List ℕ → Type 0
IsEncoding is_nfc bs = (v : Value) × (encode is_nfc v ≡ ok bs) × (size v ≤ max_items)

-- Of bytes, no longer than a slice can be, Decode accepts exactly those that Encode writes for some value
-- of at most MaxItems items.
pub decode_iff :
    (is_nfc : List ℕ → Bool) (input : List ℕ)
    → All IsByte input
    → length input ≤ max_alloc
    → ((v : Value) × (decode is_nfc input ≡ ok v)) ↔ IsEncoding is_nfc input
decode_iff is_nfc input hb hs = (
  λ (v, h). (v, encode-decode is_nfc input v hb hs h, (decode-bounds is_nfc input v h).0),
  λ (v, h, few). (wire v, decode-encode is_nfc v input h hs few),
)
