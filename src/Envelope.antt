-- ===== src/Envelope.antt =====
-- envelope/envelope.go: the signature over canonical claims. crypto/ed25519 is a parameter.
pub mod Canonical
pub mod Signable
pub mod Examples
use murmur_go.Common.{
  ℕ, Bool, true, false, not, List, [], ◌∷◌, ◌++◌, ◌==◌, if◌then◌else◌, length, take, drop, Result,
  ok, err, panics, ◌>>=◌, ◌>>◌,
}
use murmur_go.Cbor.Value.{Value, map}
use murmur_go.Cbor.Errors.{DecodeError}
use murmur_go.Cbor.Decode.{decode}

-- The errors of Sign and Verify.
pub data EnvelopeError : Type 0 where
  non_canonical_claims claims_not_a_map bad_seed_length bad_key_length : EnvelopeError

abbrev pub seed_size : ℕ
seed_size = 32

abbrev pub public_key_size : ℕ
public_key_size = 32

-- What the code calls of crypto/ed25519.
pub record Ed25519 : Type 0 where
  pub new_key_from_seed : List ℕ → List ℕ
  pub public : List ℕ → List ℕ
  pub sign : List ℕ → List ℕ → List ℕ
  pub verify : List ℕ → List ℕ → List ℕ → Bool

-- `copy(dst, src)`.
abbrev pub copy : List ℕ → List ℕ → List ℕ
copy dst src = take (length dst) src ++ drop (length src) dst

-- `make([]byte, ed25519.PublicKeySize)`.
abbrev pub blank_key : List ℕ
blank_key =
    0 ∷ 0 ∷ 0 ∷ 0 ∷ 0 ∷ 0 ∷ 0 ∷ 0 ∷ 0 ∷ 0 ∷ 0 ∷ 0 ∷ 0 ∷ 0 ∷ 0 ∷ 0 ∷ 0 ∷ 0 ∷ 0 ∷ 0 ∷ 0 ∷ 0 ∷ 0 ∷ 0
    ∷ 0 ∷ 0 ∷ 0 ∷ 0 ∷ 0 ∷ 0 ∷ 0 ∷ 0 ∷ []

unfoldable pub check_map : Value → Result EnvelopeError (Unit {0})
check_map (map es) = ok tt
check_map _ = err claims_not_a_map

-- What `gate` makes of the decoder's answer.
unfoldable pub gate_of : Result DecodeError Value → Result EnvelopeError (Unit {0})
gate_of (ok v) = check_map v
gate_of (err e) = err non_canonical_claims
gate_of panics = panics

module _ (is_nfc : List ℕ → Bool) where
  unfoldable pub gate : List ℕ → Result EnvelopeError (Unit {0})
  gate claims = gate_of (decode is_nfc claims)

  module _ (lib : Ed25519) where
    unfoldable pub sign : List ℕ → List ℕ → Result EnvelopeError (List ℕ × List ℕ)
    sign seed claims =
        if not (length seed == seed_size)
        then err bad_seed_length
        else gate claims
          >> (let priv = lib.new_key_from_seed seed in
              ok (copy blank_key (lib.public priv), lib.sign priv claims))

    unfoldable pub verify : List ℕ → List ℕ → List ℕ → Result EnvelopeError Bool
    verify pub_key claims sig =
        if not (length pub_key == public_key_size)
        then err bad_key_length
        else gate claims >> ok (lib.verify pub_key claims sig)
