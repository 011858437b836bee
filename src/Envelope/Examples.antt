-- ===== src/Envelope/Examples.antt =====
-- Concrete runs of the envelope, and its theorems at concrete inputs.
use murmur_go.Common.{
  ℕ, ◌≡◌, ◌↔◌, refl, Bool, true, false, ◌&&◌, ◌==◌, eq→==, List, [], ◌∷◌, ◌++◌, ok, err, ◌>>=◌,
  arith,
}
use murmur_go.Cbor.Examples.{any, run_decode}
use murmur_go.Envelope.{
  Ed25519, blank_key, non_canonical_claims, claims_not_a_map, check_map, gate_of, gate, sign,
  verify,
}
use murmur_go.Envelope.Signable.{Signed, sign_iff}
use murmur_go.Envelope.Canonical.{Verified, verify-Verified, verify-sign}

unfoldable pub eq_bytes : List ℕ → List ℕ → Bool
eq_bytes [] [] = true
eq_bytes [] (y ∷ b) = false
eq_bytes (x ∷ a) [] = false
eq_bytes (x ∷ a) (y ∷ b) = x == y && eq_bytes a b

pub eq_bytes_refl : (a : List ℕ) → eq_bytes a a ≡ true
unfolding eq_bytes
eq_bytes_refl [] = refl
eq_bytes_refl (x ∷ a) = rw (eq→== x x refl, eq_bytes_refl a) refl

-- A signature that shows its key and its message.
abbrev pub toy : Ed25519
toy = record {
  new_key_from_seed = λ seed. seed;
  public = λ key. key;
  sign = λ key message. key ++ message;
  verify = λ key message sig. eq_bytes (key ++ message) sig;
}

-- {1: 2}
abbrev claims : List ℕ
claims = 0xa1 ∷ 0x01 ∷ 0x02 ∷ []

claims_pass : gate any claims ≡ ok tt
unfolding gate gate_of check_map run_decode
claims_pass = refl

-- 1 in two bytes, and 1.
gate_refuses_long_form : gate any (0x18 ∷ 0x01 ∷ []) ≡ err non_canonical_claims
unfolding gate gate_of check_map run_decode
gate_refuses_long_form = refl

gate_refuses_integer : gate any (0x01 ∷ []) ≡ err claims_not_a_map
unfolding gate gate_of check_map run_decode
gate_refuses_integer = refl

verify_claims : verify any toy blank_key claims (blank_key ++ claims) ≡ ok true
unfolding verify eq_bytes gate gate_of check_map run_decode
verify_claims = refl

verify-Verified_example : Verified any toy blank_key claims (blank_key ++ claims) true
verify-Verified_example =
    verify-Verified any toy blank_key claims (blank_key ++ claims) true (omega arith) (omega arith)
      verify_claims

verify-sign_example :
    (sign any toy blank_key claims >>= λ (pub_key, sig). verify any toy pub_key claims sig)
    ≡ ok true
verify-sign_example =
    verify-sign any toy blank_key claims (λ s h. h) (λ s m h. eq_bytes_refl (s ++ m)) refl
      claims_pass

sign_iff_example :
    (sign any toy blank_key claims ≡ ok (blank_key, blank_key ++ claims))
    ↔ Signed any toy blank_key claims (blank_key, blank_key ++ claims)
sign_iff_example =
    sign_iff any claims (omega arith) (omega arith) toy blank_key (blank_key, blank_key ++ claims)
