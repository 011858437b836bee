-- ===== src/Envelope/Canonical.antt =====
-- Signing and verifying by envelope/envelope.go, and the gate before them.
use murmur_go.Common.{
  ℕ, ◌≡◌, ◌≤◌, refl, ap, Bool, true, not, List, [], ◌∷◌, ◌==◌, eq→==, ==_iff, length, All, Result,
  ok, err, panics, ◌>>=◌, Ensures, Ensures-ok, returned, refused, crashed, Ensures-if, Ensures-bind,
  not-false→true, arith,
}
use murmur_go.Cbor.Value.{Value, Entries, map}
use murmur_go.Cbor.Errors.{DecodeError}
use murmur_go.Cbor.Head.Form.{IsByte}
use murmur_go.Cbor.Encode.{encode}
use murmur_go.Cbor.Decode.{decode, max_alloc}
use murmur_go.Cbor.Canonicity.{encode-decode}
use murmur_go.Envelope.{
  Ed25519, seed_size, public_key_size, copy, blank_key, check_map, gate_of, gate, sign, verify,
}

pub gate_of-Ensures :
    (r : Result DecodeError Value) → Ensures (λ _. (es : Entries) × (r ≡ ok (map es))) (gate_of r)
unfolding gate_of check_map
gate_of-Ensures (ok (map es)) = returned (es, refl)
gate_of-Ensures (ok _) = refused
gate_of-Ensures (err e) = refused
gate_of-Ensures panics = crashed

-- A source of the size of the destination replaces it.
pub copy_same : (dst src : List ℕ) → length src ≡ length dst → copy dst src ≡ src
copy_same [] [] h = refl
copy_same [] (x ∷ src) h = ground arith
copy_same (d ∷ dst) [] h = ground arith
copy_same (d ∷ dst) (x ∷ src) h = ap (◌∷◌ x) (copy_same dst src (omega (arith, h)))

-- The claims are the canonical bytes of a map, the key has its size, and the answer is the library's.
pub record Verified (is_nfc : List ℕ → Bool) (lib : Ed25519) (pub_key claims sig : List ℕ)
    (answer : Bool) : Type 0 where
  pub claimed : Entries
  pub canonical : encode is_nfc (map claimed) ≡ ok claims
  pub sized : length pub_key ≡ public_key_size
  pub answered : answer ≡ lib.verify pub_key claims sig

module _ (is_nfc : List ℕ → Bool) (lib : Ed25519) where
  -- Verify gives an answer only on claims, no longer than a slice can be, that are the canonical bytes
  -- of a map, and for a public key of 32 bytes; the answer is then the one of Ed25519 on these very
  -- bytes.
  pub verify-Verified :
      (pub_key claims sig : List ℕ) (answer : Bool)
      → All IsByte claims
      → length claims ≤ max_alloc
      → verify is_nfc lib pub_key claims sig ≡ ok answer
      → Verified is_nfc lib pub_key claims sig answer
  unfolding verify gate
  verify-Verified pub_key claims sig answer hb hs h =
      Ensures-ok {P = Verified is_nfc lib pub_key claims sig}
        (Ensures-if (not (length pub_key == public_key_size)) (λ _. refused)
          λ sized. Ensures-bind (gate_of-Ensures (decode is_nfc claims)) λ _ (es, decoded).
            returned (record {
              claimed = es;
              canonical = encode-decode is_nfc claims (map es) hb hs decoded;
              sized =
                  (==_iff (length pub_key) public_key_size).0
                    (not-false→true (length pub_key == public_key_size) sized);
              answered = refl;
            }))
        h

  -- With an Ed25519 whose public keys have 32 bytes and that verifies what it signed, the public key
  -- and the signature that Sign makes from a seed of 32 bytes over claims that pass the gate are
  -- accepted by Verify over the same claims.
  pub verify-sign :
      (seed claims : List ℕ)
      → ((s : List ℕ)
          → length s ≡ seed_size
          → length (lib.public (lib.new_key_from_seed s)) ≡ public_key_size)
      → ((s m : List ℕ)
          → length s ≡ seed_size
          → lib.verify
              (lib.public (lib.new_key_from_seed s))
              m
              (lib.sign (lib.new_key_from_seed s) m)
            ≡ true)
      → length seed ≡ seed_size
      → gate is_nfc claims ≡ ok tt
      → (sign is_nfc lib seed claims >>= λ (pub_key, sig). verify is_nfc lib pub_key claims sig)
        ≡ ok true
  unfolding sign verify
  verify-sign seed claims sizes correct hs hg =
      let key = lib.public (lib.new_key_from_seed seed) in
      let size = sizes seed hs in
      let whole = copy_same blank_key key size in
      rw
        (
          eq→== (length seed) seed_size hs,
          hg,
          whole,
          eq→== (length key) public_key_size size,
          correct seed claims hs,
        )
        refl
