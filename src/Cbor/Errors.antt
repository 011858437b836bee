-- ===== src/Cbor/Errors.antt =====
-- cbor/errors.go: why a decoder refuses an artifact, and why a value has no canonical form.
use murmur_go.Common.{ℕ, String, Result, err}

pub data Reason : Type 0 where
  non_minimal indefinite_length trailing_bytes duplicate_map_key unsorted_map_keys : Reason
  mixed_map_keys bad_map_key_type tag float null simple_value reserved_additional : Reason
  truncated invalid_utf8 byte_order_mark non_nfc : Reason
  depth_exceeded size_exceeded : Reason

-- The string of each reason, which a vector pins.
unfoldable pub reason_string : Reason → String
reason_string non_minimal = "non-minimal"
reason_string indefinite_length = "indefinite-length"
reason_string trailing_bytes = "trailing-bytes"
reason_string duplicate_map_key = "duplicate-map-key"
reason_string unsorted_map_keys = "unsorted-map-keys"
reason_string mixed_map_keys = "mixed-map-keys"
reason_string bad_map_key_type = "bad-map-key-type"
reason_string tag = "tag"
reason_string float = "float"
reason_string null = "null"
reason_string simple_value = "simple-value"
reason_string reserved_additional = "reserved-additional"
reason_string truncated = "truncated"
reason_string invalid_utf8 = "invalid-utf8"
reason_string byte_order_mark = "byte-order-mark"
reason_string non_nfc = "non-nfc"
reason_string depth_exceeded = "depth-exceeded"
reason_string size_exceeded = "size-exceeded"

pub record DecodeError : Type 0 where
  pub reason : Reason
  pub pos : ℕ
  pub msg : String

pub record EncodeError : Type 0 where
  pub msg : String

-- `&DecodeError{Reason: reason, Pos: pos}`.
abbrev pub fail : {A : Type 0} → Reason → ℕ → Result DecodeError A
fail reason pos = err (record { reason = reason; pos = pos; msg = "" })

-- `&EncodeError{Msg: msg}`.
abbrev pub encode_error : {A : Type 0} → String → Result EncodeError A
encode_error msg = err (record { msg = msg })
