-- ===== src/Conformance/Vector.antt =====
-- conformance/conformance.go: a vector and its check. The reading of the file and of its JSON comes
-- before: a vector is what `Load` returns, its value as raw JSON.
pub mod Pinned
pub mod Signed
pub mod Exclusive
use murmur_go.Common.{
  ℕ, Bool, true, false, not, Option, none, some, List, if◌then◌else◌, Result, ok, err, panics,
  ◌>>=◌, ◌>>◌, map_err,
}
use murmur_go.Common.Int.{ℤ, ◌==ℤ◌}
use murmur_go.Cbor.Value.{Value}
use murmur_go.Cbor.Errors.{DecodeError, reason_string as byte_reason}
use murmur_go.Cbor.Order.{same_bytes}
use murmur_go.Cbor.Encode.{encode}
use murmur_go.Cbor.Decode.{decode}
use murmur_go.Schema.Errors.{SchemaError, reason_string as schema_reason}
use murmur_go.Schema.Path.{codes}
use murmur_go.Schema.Table.{FieldTable, artifact_field_table}
use murmur_go.Schema.Floor.{default_registry}
use murmur_go.Schema.FieldTable.{parse_field_table}
use murmur_go.Envelope.{Ed25519, EnvelopeError}
use murmur_go.Envelope
use murmur_go.ContentId.{sum}
use murmur_go.Conformance.Hex.{hex_encode, hex_decode}
use murmur_go.Conformance.Json.{Json}
use murmur_go.Conformance.Walk.{ValueError, parse_value}

-- Texts are their bytes; `Valid` and `InterpretAs` are pointers.
pub record Vector : Type 0 where
  pub kind : List ℕ
  pub value : List ℕ
  pub cbor : List ℕ
  pub sha256 : List ℕ
  pub seed : List ℕ
  pub claims_cbor : List ℕ
  pub public_key : List ℕ
  pub signature : List ℕ
  pub valid : Option Bool
  pub bytes : List ℕ
  pub reason : List ℕ
  pub interpret_as : Option ℤ

-- The errors of the checks, one for each place that makes one; their messages are left out.
pub data Failure : Type 0 where
  unknown_kind bad_hex bad_value not_encoded encode_mismatch not_decoded : Failure
  not_reencoded round_trip_mismatch not_canonical content_id_mismatch : Failure
  not_signed public_key_mismatch signature_mismatch valid_missing : Failure
  refused_valid not_verified verified_invalid not_rejected reason_mismatch : Failure
  interpret_as_missing not_routable not_refused : Failure

unfoldable pub from_hex : List ℕ → Result Failure (List ℕ)
from_hex s = elim (hex_decode s) [ some bs ↦ ok bs | none ↦ err bad_hex ]

-- `if hex.EncodeToString(got) != want { return … }`.
unfoldable pub expect_hex : List ℕ → List ℕ → Failure → Result Failure (Unit {0})
expect_hex got want failure = if not (same_bytes (hex_encode got) want) then err failure else ok tt

-- `*v.Valid` against what Verify came to.
unfoldable pub expect_answer : Bool → Result EnvelopeError Bool → Result Failure (Unit {0})
expect_answer true (ok true) = ok tt
expect_answer true (ok false) = err not_verified
expect_answer true (err e) = err refused_valid
expect_answer false (ok true) = err verified_invalid
expect_answer false (ok false) = ok tt
expect_answer false (err e) = ok tt
expect_answer _ panics = panics

unfoldable pub expect_reason : List ℕ → List ℕ → Result Failure (Unit {0})
expect_reason got want = if not (same_bytes got want) then err reason_mismatch else ok tt

unfoldable pub expect_rejection : List ℕ → Result DecodeError Value → Result Failure (Unit {0})
expect_rejection reason (ok v) = err not_rejected
expect_rejection reason (err e) = expect_reason (codes (byte_reason e.reason)) reason
expect_rejection reason panics = panics

unfoldable pub expect_refusal : List ℕ → Result SchemaError FieldTable → Result Failure (Unit {0})
expect_refusal reason (ok t) = err not_refused
expect_refusal reason (err e) = expect_reason (codes (schema_reason e.reason)) reason
expect_refusal reason panics = panics

-- The pinned bytes decode, and encode to bytes of the given hex.
module _ (is_nfc : List ℕ → Bool) where
  unfoldable pub check_round_trip : List ℕ → List ℕ → Failure → Result Failure (Unit {0})
  check_round_trip pinned cbor failure = do
    dec ← map_err (λ _. not_decoded) (decode is_nfc pinned)
    re ← map_err (λ _. not_reencoded) (encode is_nfc dec)
    expect_hex re cbor failure

  unfoldable pub check_encode : (List ℕ → Option Json) → Vector → Result Failure (Unit {0})
  check_encode read_json v = do
    want ← from_hex v.cbor
    val ← map_err (λ _. bad_value) (parse_value read_json v.value)
    got ← map_err (λ _. not_encoded) (encode is_nfc val)
    expect_hex got v.cbor encode_mismatch
    check_round_trip want v.cbor round_trip_mismatch

  unfoldable pub check_content_id : (List ℕ → List ℕ) → Vector → Result Failure (Unit {0})
  check_content_id sum256 v = do
    b ← from_hex v.cbor
    check_round_trip b v.cbor not_canonical
    expect_hex (sum sum256 b) v.sha256 content_id_mismatch

  unfoldable pub check_envelope_sign : Ed25519 → Vector → Result Failure (Unit {0})
  check_envelope_sign lib v = do
    seed ← from_hex v.seed
    claims ← from_hex v.claims_cbor
    (pub_key, sig) ← map_err (λ _. not_signed) (Envelope.sign is_nfc lib seed claims)
    expect_hex pub_key v.public_key public_key_mismatch
    expect_hex sig v.signature signature_mismatch

  unfoldable pub verify_as : Ed25519 → Bool → Vector → Result Failure (Unit {0})
  verify_as lib valid v = do
    pub_key ← from_hex v.public_key
    claims ← from_hex v.claims_cbor
    sig ← from_hex v.signature
    expect_answer valid (Envelope.verify is_nfc lib pub_key claims sig)

  unfoldable pub check_envelope_verify : Ed25519 → Vector → Result Failure (Unit {0})
  check_envelope_verify lib v = elim v.valid [
    | none ↦ err valid_missing
    | some valid ↦ verify_as lib valid v
  ]

  unfoldable pub check_reject : Vector → Result Failure (Unit {0})
  check_reject v = do b ← from_hex v.bytes; expect_rejection v.reason (decode is_nfc b)

  unfoldable pub interpret_vector : ℤ → Vector → Result Failure (Unit {0})
  interpret_vector code v = if not (code ==ℤ artifact_field_table) then err not_routable else (do
    b ← from_hex v.cbor
    decoded ← map_err (λ _. not_decoded) (decode is_nfc b)
    expect_refusal v.reason (default_registry >>= λ reg. parse_field_table decoded reg))

  unfoldable pub check_schema_reject : Vector → Result Failure (Unit {0})
  check_schema_reject v = elim v.interpret_as [
    | none ↦ err interpret_as_missing
    | some code ↦ interpret_vector code v
  ]

  unfoldable pub check :
      (List ℕ → Option Json) → (List ℕ → List ℕ) → Ed25519 → Vector → Result Failure (Unit {0})
  check read_json sum256 lib v =
      if same_bytes v.kind (codes "encode")
      then check_encode read_json v
      else if same_bytes v.kind (codes "content-id")
      then check_content_id sum256 v
      else if same_bytes v.kind (codes "envelope-sign")
      then check_envelope_sign lib v
      else if same_bytes v.kind (codes "envelope-verify")
      then check_envelope_verify lib v
      else if same_bytes v.kind (codes "reject")
      then check_reject v
      else if same_bytes v.kind (codes "schema-reject")
      then check_schema_reject v
      else err unknown_kind
