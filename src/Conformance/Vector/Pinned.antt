-- ===== src/Conformance/Vector/Pinned.antt =====
-- What the checks of conformance/conformance.go that pin bytes come to.
use murmur_go.Common.{
  ℕ, ◌≡◌, ◌≤◌, ◌↔◌, refl, sym, ap, Bool, not, Option, none, some, List, arith, length, All, ok, err,
  Ensures, Ensures-ok, Ensures-if, Ensures-bind, Ensures-weaken, returned, refused, map_err-Ensures,
  not-false→true, anything,
}
use murmur_go.Cbor.Value.{Value}
use murmur_go.Cbor.Head.Form.{IsByte}
use murmur_go.Cbor.Order.{same_bytes}
use murmur_go.Cbor.Order.Laws.{same_bytes-eq, same_bytes_self}
use murmur_go.Cbor.Encode.{encode}
use murmur_go.Cbor.Decode.{decode, max_alloc, max_items}
use murmur_go.Cbor.Wire.{wire, size}
use murmur_go.Cbor.Canonicity.{encode-decode}
use murmur_go.Cbor.RoundTrip.{decode-encode}
use murmur_go.ContentId.{sum}
use murmur_go.Conformance.Hex.{hex_encode, hex_decode}
use murmur_go.Conformance.Hex.RoundTrip.{
  hex_decode-hex_encode, hex_encode_back, hex_decode-IsByte, hex_decode-length, length-hex_encode,
}
use murmur_go.Conformance.Json.{Json}
use murmur_go.Conformance.Walk.{parse_value}
use murmur_go.Conformance.Vector.{
  Vector, Failure, from_hex, expect_hex, check_round_trip, check_encode, check_content_id,
}

pub from_hex-Ensures : (s : List ℕ) → Ensures (λ bs. hex_decode s ≡ some bs) (from_hex s)
unfolding from_hex
from_hex-Ensures s = answer (hex_decode s) refl
  where
    answer :
        (o : Option (List ℕ))
        → hex_decode s ≡ o
        → Ensures
            (λ bs. hex_decode s ≡ some bs)
            (elim o [ some bs ↦ ok bs | none ↦ err Failure.bad_hex ])
    answer none h = refused
    answer (some bs) h = returned h

pub expect_hex-Ensures :
    (got want : List ℕ) (f : Failure) → Ensures (λ _. hex_encode got ≡ want) (expect_hex got want f)
unfolding expect_hex
expect_hex-Ensures got want f =
    Ensures-if (not (same_bytes (hex_encode got) want)) (λ _. refused)
      λ h. returned (same_bytes-eq (hex_encode got) want (not-false→true _ h))

pub expect_hex_same : (got : List ℕ) (f : Failure) → expect_hex got (hex_encode got) f ≡ ok tt
unfolding expect_hex
expect_hex_same got f = rw (same_bytes_self (hex_encode got)) refl

pub from_hex-hex_encode : (bs : List ℕ) → All IsByte bs → from_hex (hex_encode bs) ≡ ok bs
unfolding from_hex
from_hex-hex_encode bs h = rw (hex_decode-hex_encode bs h, from_hex) refl

module _ (is_nfc : List ℕ → Bool) where
  check_round_trip-Ensures :
      (pinned cbor : List ℕ) (f : Failure)
      → All IsByte pinned
      → length pinned ≤ max_alloc
      → Ensures
          (λ _. ((v : Value) × (decode is_nfc pinned ≡ ok v)) × (hex_encode pinned ≡ cbor))
          (check_round_trip is_nfc pinned cbor f)
  unfolding check_round_trip
  check_round_trip-Ensures pinned cbor f hb hs =
      Ensures-bind (map_err-Ensures _ (decode is_nfc pinned)) λ dec hd.
        Ensures-bind (map_err-Ensures _ (encode is_nfc dec)) λ re he.
          Ensures-weaken
            (λ _ same.
              let back : re ≡ pinned = cc (he, encode-decode is_nfc pinned dec hb hs hd) in
              ((dec, hd), cc (back, same)))
            (expect_hex-Ensures re cbor f)

  check_round_trip_pinned :
      (pinned : List ℕ) (v : Value) (f : Failure)
      → All IsByte pinned
      → length pinned ≤ max_alloc
      → decode is_nfc pinned ≡ ok v
      → check_round_trip is_nfc pinned (hex_encode pinned) f ≡ ok tt
  unfolding check_round_trip
  check_round_trip_pinned pinned v f hb hs hd =
      rw (hd, encode-decode is_nfc pinned v hb hs hd) (expect_hex_same pinned f)

  -- The hex of bytes that Decode accepts, and of their address.
  pub record Pinned (sum256 : List ℕ → List ℕ) (v : Vector) : Type 0 where
    pub pinned : List ℕ
    pub are_bytes : All IsByte pinned
    pub decoded : (x : Value) × (decode is_nfc pinned ≡ ok x)
    pub spelled : hex_encode pinned ≡ v.cbor
    pub addressed : hex_encode (sum sum256 pinned) ≡ v.sha256

  -- A content-id vector, of no more hex than a slice can be, passes its check exactly if it holds the
  -- lower-case hex of bytes that Decode accepts and of the address of these bytes: that the bytes
  -- encode again to themselves, which the check tests too, never fails.
  pub check_content_id_iff :
      (sum256 : List ℕ → List ℕ) (v : Vector)
      → length v.cbor ≤ max_alloc
      → (check_content_id is_nfc sum256 v ≡ ok tt) ↔ Pinned sum256 v
  unfolding check_content_id
  check_content_id_iff sum256 v short = (there, back)
    where
      there : check_content_id is_nfc sum256 v ≡ ok tt → Pinned sum256 v
      there h =
          Ensures-ok {P = λ _. Pinned sum256 v}
            (Ensures-bind (from_hex-Ensures v.cbor) λ b hx.
              let hb = hex_decode-IsByte v.cbor b hx in
              Ensures-bind
                (check_round_trip-Ensures b v.cbor _ hb
                  (omega (arith, hex_decode-length v.cbor b hx)))
                λ _ trip.
                  Ensures-weaken
                    (λ _ address. record {
                      pinned = b;
                      are_bytes = hb;
                      decoded = trip.0;
                      spelled = trip.1;
                      addressed = address;
                    })
                    (expect_hex-Ensures (sum sum256 b) v.sha256 _))
            h

      back : Pinned sum256 v → check_content_id is_nfc sum256 v ≡ ok tt
      back p =
          let fits : length p.pinned ≤ max_alloc =
            omega (arith, length-hex_encode p.pinned, ap length p.spelled, short) in
          let read = from_hex-hex_encode p.pinned p.are_bytes in
          let trip =
            check_round_trip_pinned p.pinned p.decoded.0 Failure.not_canonical p.are_bytes fits
              p.decoded.1 in
          rw (sym p.spelled, sym p.addressed, read, trip)
            (expect_hex_same (sum sum256 p.pinned) Failure.content_id_mismatch)

  -- The hex of the encoding of the value of a vector.
  pub record Encoded (val : Value) (v : Vector) : Type 0 where
    pub encoding : List ℕ
    pub are_bytes : All IsByte encoding
    pub encoded : encode is_nfc val ≡ ok encoding
    pub spelled : hex_encode encoding ≡ v.cbor

  -- An encode vector, of no more hex than a slice can be and with a value of at most MaxItems items,
  -- passes its check exactly if it holds the lower-case hex of what Encode writes for the value: that
  -- these bytes decode, and encode again to themselves, which the check tests too, never fails.
  pub check_encode_iff :
      (read_json : List ℕ → Option Json) (v : Vector) (val : Value)
      → length v.cbor ≤ max_alloc
      → parse_value read_json v.value ≡ ok val
      → size val ≤ max_items
      → (check_encode is_nfc read_json v ≡ ok tt) ↔ Encoded val v
  unfolding check_encode
  check_encode_iff read_json v val short parsed few = (there, back)
    where
      there : check_encode is_nfc read_json v ≡ ok tt → Encoded val v
      there h =
          Ensures-ok {P = λ _. Encoded val v}
            (Ensures-bind (from_hex-Ensures v.cbor) λ want hx.
              Ensures-bind (map_err-Ensures _ (parse_value read_json v.value)) λ val' hv.
                Ensures-bind (map_err-Ensures _ (encode is_nfc val')) λ got he.
                  Ensures-bind (expect_hex-Ensures got v.cbor _) λ _ same.
                    let same_value : val' ≡ val = cc (hv, parsed) in
                    let same_bytes : want ≡ got = hex_encode_back got want (rw same hx) in
                    Ensures-weaken
                      (λ _ _. record {
                        encoding = want;
                        are_bytes = hex_decode-IsByte v.cbor want hx;
                        encoded = cc (he, same_value, same_bytes);
                        spelled = cc (same, same_bytes);
                      })
                      (anything (check_round_trip is_nfc want v.cbor _)))
            h

      back : Encoded val v → check_encode is_nfc read_json v ≡ ok tt
      back p =
          let fits : length p.encoding ≤ max_alloc =
            omega (arith, length-hex_encode p.encoding, ap length p.spelled, short) in
          let read = from_hex-hex_encode p.encoding p.are_bytes in
          let trip =
            check_round_trip_pinned p.encoding (wire val) Failure.round_trip_mismatch p.are_bytes
              fits (decode-encode is_nfc val p.encoding p.encoded fits few) in
          rw
            (
              sym p.spelled,
              read,
              parsed,
              p.encoded,
              expect_hex_same p.encoding Failure.encode_mismatch,
            )
            trip
