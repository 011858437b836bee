-- ===== src/Conformance/Vector/Signed.antt =====
-- The signing check of conformance/conformance.go beside its verifying check.
use murmur_go.Common.{
  ℕ, ◌≡◌, sym, true, not, some, List, length, All, ok, ◌==◌, ==_iff, Ensures, Ensures-ok,
  Ensures-if, Ensures-bind, Ensures-weaken, Ensures-both, returned, refused, map_err-Ensures,
  not-false→true, itself, Bool,
}
use murmur_go.Cbor.Head.Form.{IsByte}
use murmur_go.Envelope.{Ed25519, seed_size, public_key_size, blank_key, gate, sign, verify}
use murmur_go.Envelope.Canonical.{copy_same, verify-sign}
use murmur_go.Conformance.Hex.{hex_encode}
use murmur_go.Conformance.Hex.RoundTrip.{hex_decode-IsByte}
use murmur_go.Conformance.Vector.{
  Vector, from_hex, check_envelope_sign, check_envelope_verify, verify_as, expect_answer,
}
use murmur_go.Conformance.Vector.Pinned.{from_hex-Ensures, expect_hex-Ensures, from_hex-hex_encode}

-- A vector that asks whether its signature is valid, and says that it is.
abbrev pub as_valid : Vector → Vector
as_valid v = record v { valid = some true }

from_hex-IsByte : (s : List ℕ) → Ensures (λ bs. (from_hex s ≡ ok bs) × All IsByte bs) (from_hex s)
from_hex-IsByte s =
    Ensures-both (itself (from_hex s))
      (Ensures-weaken (λ bs h. hex_decode-IsByte s bs h) (from_hex-Ensures s))

module _ (is_nfc : List ℕ → Bool) (lib : Ed25519)
    (sizes : (s : List ℕ)
      → length s ≡ seed_size
      → length (lib.public (lib.new_key_from_seed s)) ≡ public_key_size)
    (correct : (s m : List ℕ)
      → length s ≡ seed_size
      → lib.verify (lib.public (lib.new_key_from_seed s)) m (lib.sign (lib.new_key_from_seed s) m)
        ≡ true)
    (keys_are_bytes : (s : List ℕ)
      → All IsByte s
      → All IsByte (lib.public (lib.new_key_from_seed s)))
    (signatures_are_bytes : (s m : List ℕ)
      → All IsByte s
      → All IsByte m
      → All IsByte (lib.sign (lib.new_key_from_seed s) m)) where
  -- What Sign makes.
  record Made (seed claims pub_key sig : List ℕ) : Type 0 where
    seed_fits : length seed ≡ seed_size
    passes : gate is_nfc claims ≡ ok tt
    key : All IsByte pub_key
    signature : All IsByte sig

  sign-Made :
      (seed claims : List ℕ)
      → All IsByte seed
      → All IsByte claims
      → Ensures (λ (pub_key, sig). Made seed claims pub_key sig) (sign is_nfc lib seed claims)
  unfolding sign
  sign-Made seed claims bytes bytes' =
      Ensures-if (not (length seed == seed_size)) (λ _. refused)
        λ fits.
          let size = (==_iff (length seed) seed_size).0 (not-false→true _ fits) in
          Ensures-bind (itself (gate is_nfc claims)) λ _ passes. returned (record {
            seed_fits = size;
            passes = passes;
            key =
                rw (copy_same blank_key (lib.public (lib.new_key_from_seed seed)) (sizes seed size))
                  (keys_are_bytes seed bytes);
            signature = signatures_are_bytes seed claims bytes bytes';
          })

  Made-verify :
      (seed claims pub_key sig : List ℕ)
      → Made seed claims pub_key sig
      → sign is_nfc lib seed claims ≡ ok (pub_key, sig)
      → verify is_nfc lib pub_key claims sig ≡ ok true
  Made-verify seed claims pub_key sig made signed =
      rw signed at (verify-sign is_nfc lib seed claims sizes correct made.seed_fits made.passes)

  verify_as-ok :
      (seed claims pub_key sig : List ℕ) (v : Vector)
      → Made seed claims pub_key sig
      → sign is_nfc lib seed claims ≡ ok (pub_key, sig)
      → from_hex v.claims_cbor ≡ ok claims
      → hex_encode pub_key ≡ v.public_key
      → hex_encode sig ≡ v.signature
      → verify_as is_nfc lib true v ≡ ok tt
  unfolding verify_as expect_answer
  verify_as-ok seed claims pub_key sig v made signed read key signature = rw (
    sym key,
    sym signature,
    from_hex-hex_encode pub_key made.key,
    from_hex-hex_encode sig made.signature,
    read,
    Made-verify seed claims pub_key sig made signed,
  )

  -- Of an envelope-sign vector that passes its check, the envelope-verify vector with the same public
  -- key, claims and signature that says they are valid passes its check too, with an Ed25519 whose
  -- public keys have 32 bytes, whose keys and signatures are bytes, and that verifies what it signed.
  pub check_envelope_verify-sign :
      (v : Vector)
      → check_envelope_sign is_nfc lib v ≡ ok tt
      → check_envelope_verify is_nfc lib (as_valid v) ≡ ok tt
  unfolding check_envelope_sign check_envelope_verify
  check_envelope_verify-sign v h =
      Ensures-ok {P = λ _. check_envelope_verify is_nfc lib (as_valid v) ≡ ok tt}
        (Ensures-bind (from_hex-IsByte v.seed) λ seed (_, bytes).
          Ensures-bind (from_hex-IsByte v.claims_cbor) λ claims (read, bytes').
            Ensures-bind (map_err-Ensures _ (sign is_nfc lib seed claims)) λ (pub_key, sig) signed.
              Ensures-bind (expect_hex-Ensures pub_key v.public_key _) λ _ key.
                Ensures-weaken
                  (λ _ signature.
                    verify_as-ok seed claims pub_key sig (as_valid v)
                      (Ensures-ok (sign-Made seed claims bytes bytes') signed) signed read key
                      signature)
                  (expect_hex-Ensures sig v.signature _))
        h
