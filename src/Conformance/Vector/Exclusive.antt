-- ===== src/Conformance/Vector/Exclusive.antt =====
-- Vectors of conformance/conformance.go with the same bytes: those to be accepted and those to be
-- rejected.
use murmur_go.Common.{
  ℕ, Bool, subst, ◌≡◌, ◌≢◌, refl, sym, ap, ◌∙◌, true, false, not, none, some, List, Option, ok, err,
  panics, Result, Ensures, Ensures-ok, Ensures-if, Ensures-bind, Ensures-weaken, refused, crashed,
  map_err-Ensures, anything, itself,
}
use murmur_go.Common.Int.{ℤ, ◌==ℤ◌}
use murmur_go.Cbor.Value.{Value}
use murmur_go.Cbor.Errors.{DecodeError}
use murmur_go.Cbor.Order.{compare_bytes, same_bytes}
use murmur_go.Cbor.Order.Laws.{same_bytes-eq, same_bytes_self}
use murmur_go.Cbor.Encode.{encode}
use murmur_go.Cbor.Decode.{decode}
use murmur_go.ContentId.{sum}
use murmur_go.Envelope.{Ed25519}
use murmur_go.Schema.Path.{codes}
use murmur_go.Schema.Table.{artifact_field_table}
use murmur_go.Conformance.Json.{Json}
use murmur_go.Conformance.Walk.{parse_value}
use murmur_go.Conformance.Vector.{
  Vector, Failure, from_hex, expect_hex, expect_rejection, check_round_trip, check_encode,
  check_content_id, check_reject, interpret_vector, check_schema_reject, check,
}

-- The kinds whose vectors hold bytes to decode.
pub data Accepting : List ℕ → Type 0 where
  encodes : Accepting (codes "encode")
  addresses : Accepting (codes "content-id")
  refuses : Accepting (codes "schema-reject")

kind_is : {k : List ℕ} (v : Vector) → Accepting k → same_bytes v.kind k ≡ true → Accepting v.kind
kind_is {k} v a h = subst Accepting (sym (same_bytes-eq v.kind k h)) a

differ : (a b : List ℕ) → same_bytes a b ≡ false → a ≢ b
differ a b h e =
    let same : same_bytes a b ≡ true = subst (λ x. same_bytes a x ≡ true) e (same_bytes_self a) in
    cc

reject_is_other : (k : List ℕ) → Accepting k → k ≢ codes "reject"
unfolding compare_bytes
reject_is_other k encodes h = differ (codes "encode") (codes "reject") refl h
reject_is_other k addresses h = differ (codes "content-id") (codes "reject") refl h
reject_is_other k refuses h = differ (codes "schema-reject") (codes "reject") refl h

signing_is_other : (k : List ℕ) → Accepting k → k ≢ codes "envelope-sign"
unfolding compare_bytes
signing_is_other k encodes h = differ (codes "encode") (codes "envelope-sign") refl h
signing_is_other k addresses h = differ (codes "content-id") (codes "envelope-sign") refl h
signing_is_other k refuses h = differ (codes "schema-reject") (codes "envelope-sign") refl h

verifying_is_other : (k : List ℕ) → Accepting k → k ≢ codes "envelope-verify"
unfolding compare_bytes
verifying_is_other k encodes h = differ (codes "encode") (codes "envelope-verify") refl h
verifying_is_other k addresses h = differ (codes "content-id") (codes "envelope-verify") refl h
verifying_is_other k refuses h = differ (codes "schema-reject") (codes "envelope-verify") refl h

module _ (is_nfc : List ℕ → Bool) where
  -- The hex is of bytes that Decode accepts.
  record Accepted (hex : List ℕ) : Type 0 where
    raw : List ℕ
    value : Value
    spelled : from_hex hex ≡ ok raw
    decoded : decode is_nfc raw ≡ ok value

  check_round_trip-Accepted :
      (hex raw cbor : List ℕ) (f : Failure)
      → from_hex hex ≡ ok raw
      → Ensures (λ _. Accepted hex) (check_round_trip is_nfc raw cbor f)
  unfolding check_round_trip
  check_round_trip-Accepted hex raw cbor f spelled =
      Ensures-bind (map_err-Ensures _ (decode is_nfc raw)) λ v decoded.
        Ensures-bind (map_err-Ensures _ (encode is_nfc v)) λ re _.
          Ensures-weaken
            (λ _ _. record { raw = raw; value = v; spelled = spelled; decoded = decoded })
            (anything (expect_hex re cbor f))

  check_encode-Accepted :
      (read_json : List ℕ → Option Json) (v : Vector)
      → Ensures (λ _. Accepted v.cbor) (check_encode is_nfc read_json v)
  unfolding check_encode
  check_encode-Accepted read_json v = Ensures-bind (itself (from_hex v.cbor)) λ want spelled.
      Ensures-bind (map_err-Ensures _ (parse_value read_json v.value)) λ val _.
        Ensures-bind (map_err-Ensures _ (encode is_nfc val)) λ got _.
          Ensures-bind (anything (expect_hex got v.cbor _))
            λ _ _. check_round_trip-Accepted v.cbor want v.cbor _ spelled

  check_content_id-Accepted :
      (sum256 : List ℕ → List ℕ) (v : Vector)
      → Ensures (λ _. Accepted v.cbor) (check_content_id is_nfc sum256 v)
  unfolding check_content_id
  check_content_id-Accepted sum256 v = Ensures-bind (itself (from_hex v.cbor)) λ raw spelled.
      Ensures-bind (check_round_trip-Accepted v.cbor raw v.cbor _ spelled) λ _ accepted.
        Ensures-weaken (λ _ _. accepted) (anything (expect_hex (sum sum256 raw) v.sha256 _))

  interpret_vector-Accepted :
      (code : ℤ) (v : Vector) → Ensures (λ _. Accepted v.cbor) (interpret_vector is_nfc code v)
  unfolding interpret_vector
  interpret_vector-Accepted code v =
      Ensures-if (not (code ==ℤ artifact_field_table)) (λ _. refused)
        λ _. Ensures-bind (itself (from_hex v.cbor)) λ raw spelled.
          Ensures-bind (map_err-Ensures _ (decode is_nfc raw)) λ x decoded.
            Ensures-weaken
              (λ _ _. record { raw = raw; value = x; spelled = spelled; decoded = decoded })
              (anything _)

  check_schema_reject-Accepted :
      (v : Vector) → Ensures (λ _. Accepted v.cbor) (check_schema_reject is_nfc v)
  unfolding check_schema_reject
  check_schema_reject-Accepted v = answer v.interpret_as
    where
      answer :
          (o : Option ℤ)
          → Ensures
              (λ _. Accepted v.cbor)
              (elim o [
                | none ↦ err Failure.interpret_as_missing
                | some code ↦ interpret_vector is_nfc code v
              ])
      answer none = refused
      answer (some code) = interpret_vector-Accepted code v

  -- The hex is of bytes that Decode does not accept.
  abbrev Rejected : List ℕ → Type 0
  Rejected hex = (raw : List ℕ) × (from_hex hex ≡ ok raw) × ((x : Value) → decode is_nfc raw ≢ ok x)

  expect_rejection-fails :
      (reason : List ℕ) (r : Result DecodeError Value)
      → Ensures (λ _. (x : Value) → r ≢ ok x) (expect_rejection reason r)
  unfolding expect_rejection
  expect_rejection-fails reason (ok v) = refused
  expect_rejection-fails reason (err e) = Ensures-weaken (λ _ _ x h. cc) (anything _)
  expect_rejection-fails reason panics = crashed

  check_reject-Rejected : (v : Vector) → Ensures (λ _. Rejected v.bytes) (check_reject is_nfc v)
  unfolding check_reject
  check_reject-Rejected v = Ensures-bind (itself (from_hex v.bytes)) λ raw spelled.
      Ensures-weaken (λ _ never. (raw, spelled, never))
        (expect_rejection-fails v.reason (decode is_nfc raw))

  -- What a vector that passes shows.
  data Shown (v : Vector) : Type 0 where
    accepted : Accepting v.kind → Accepted v.cbor → Shown v
    rejected : v.kind ≡ codes "reject" → Rejected v.bytes → Shown v
    of_signing : v.kind ≡ codes "envelope-sign" → Shown v
    of_verifying : v.kind ≡ codes "envelope-verify" → Shown v

  module _ (read_json : List ℕ → Option Json) (sum256 : List ℕ → List ℕ) (lib : Ed25519) where
    check-Shown : (v : Vector) → Ensures (λ _. Shown v) (check is_nfc read_json sum256 lib v)
    unfolding check
    check-Shown v =
        Ensures-if (same_bytes v.kind (codes "encode"))
          (λ is.
            Ensures-weaken (λ _ a. accepted (kind_is v encodes is) a)
              (check_encode-Accepted read_json v))
          λ _.
            Ensures-if (same_bytes v.kind (codes "content-id"))
              (λ is.
                Ensures-weaken (λ _ a. accepted (kind_is v addresses is) a)
                  (check_content_id-Accepted sum256 v))
              λ _.
                Ensures-if (same_bytes v.kind (codes "envelope-sign"))
                  (λ is.
                    Ensures-weaken (λ _ _. of_signing (same_bytes-eq v.kind _ is)) (anything _))
                  λ _.
                    Ensures-if (same_bytes v.kind (codes "envelope-verify"))
                      (λ is.
                        Ensures-weaken (λ _ _. of_verifying (same_bytes-eq v.kind _ is))
                          (anything _))
                      λ _.
                        Ensures-if (same_bytes v.kind (codes "reject"))
                          (λ is.
                            Ensures-weaken (λ _ r. rejected (same_bytes-eq v.kind _ is) r)
                              (check_reject-Rejected v))
                          λ _.
                            Ensures-if (same_bytes v.kind (codes "schema-reject"))
                              (λ is.
                                Ensures-weaken (λ _ a. accepted (kind_is v refuses is) a)
                                  (check_schema_reject-Accepted v))
                              λ _. refused

    Shown-Accepted : (v : Vector) → Accepting v.kind → Shown v → Accepted v.cbor
    Shown-Accepted v k (accepted _ a) = a
    Shown-Accepted v k (rejected e _) = absurd (reject_is_other v.kind k e)
    Shown-Accepted v k (of_signing e) = absurd (signing_is_other v.kind k e)
    Shown-Accepted v k (of_verifying e) = absurd (verifying_is_other v.kind k e)

    Shown-Rejected : (v : Vector) → v.kind ≡ codes "reject" → Shown v → Rejected v.bytes
    unfolding compare_bytes
    Shown-Rejected v e (accepted k _) = absurd (reject_is_other v.kind k e)
    Shown-Rejected v e (rejected _ r) = r
    Shown-Rejected v e (of_signing e') =
        absurd (differ (codes "envelope-sign") (codes "reject") refl (sym e' ∙ e))
    Shown-Rejected v e (of_verifying e') =
        absurd (differ (codes "envelope-verify") (codes "reject") refl (sym e' ∙ e))

    -- Where an encode, content-id or schema-reject vector passes its check, no reject vector passes whose
    -- hex, however it is spelled, is of the same bytes.
    pub check_exclusive :
        (v w : Vector)
        → Accepting v.kind
        → w.kind ≡ codes "reject"
        → from_hex w.bytes ≡ from_hex v.cbor
        → check is_nfc read_json sum256 lib v ≡ ok tt
        → check is_nfc read_json sum256 lib w ≢ ok tt
    check_exclusive v w k e same hv hw =
        let a = Shown-Accepted v k (Ensures-ok (check-Shown v) hv) in
        let (raw, spelled, never) = Shown-Rejected w e (Ensures-ok (check-Shown w) hw) in
        let one : raw ≡ a.raw = cc (same, spelled, a.spelled) in
        never a.value (ap (decode is_nfc) one ∙ a.decoded)
