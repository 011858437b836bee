-- ===== src/Envelope/Signable.antt =====
-- What envelope/envelope.go signs.
use murmur_go.Common.{
  ℕ, ◌≡◌, ◌↔◌, ◌≤◌, refl, Bool, not, List, ◌==◌, eq→==, ==_iff, length, All, ok, Ensures,
  Ensures-ok, returned, refused, Ensures-if, Ensures-bind, Ensures-weaken, not-false→true,
}
use murmur_go.Cbor.Value.{Entries, map}
use murmur_go.Cbor.Head.Form.{IsByte}
use murmur_go.Cbor.Encode.{encode}
use murmur_go.Cbor.Decode.{decode, max_alloc, max_items}
use murmur_go.Cbor.Canonicity.{encode-decode}
use murmur_go.Cbor.Bounds.{decode-bounds}
use murmur_go.Cbor.RoundTrip.{decode-encode}
use murmur_go.Cbor.Wire.{wire, size}
use murmur_go.Envelope.{Ed25519, seed_size, copy, blank_key, check_map, gate_of, gate, sign}
use murmur_go.Envelope.Canonical.{gate_of-Ensures}

-- What Encode writes for some map of at most MaxItems items.
abbrev pub IsClaims : (List ℕ → Bool) → List ℕ → Type 0
IsClaims is_nfc bs = (es : Entries) × (encode is_nfc (map es) ≡ ok bs) × (size (map es) ≤ max_items)

-- What Sign makes of a seed and claims.
abbrev pub Signed : (List ℕ → Bool) → Ed25519 → List ℕ → List ℕ → List ℕ × List ℕ → Type 0
Signed is_nfc lib seed claims out =
    (length seed ≡ seed_size)
    × IsClaims is_nfc claims
    × (out ≡ (
      copy blank_key (lib.public (lib.new_key_from_seed seed)),
      lib.sign (lib.new_key_from_seed seed) claims,
    ))

module _ (is_nfc : List ℕ → Bool) (claims : List ℕ) (hb : All IsByte claims)
    (hs : length claims ≤ max_alloc) where
  gate-IsClaims : Ensures (λ _. IsClaims is_nfc claims) (gate is_nfc claims)
  unfolding gate
  gate-IsClaims =
      Ensures-weaken
        (λ _ (es, h). (
          es,
          encode-decode is_nfc claims (map es) hb hs h,
          (decode-bounds is_nfc claims (map es) h).0,
        ))
        (gate_of-Ensures (decode is_nfc claims))

  gate_passes : IsClaims is_nfc claims → gate is_nfc claims ≡ ok tt
  unfolding gate gate_of check_map wire
  gate_passes (es, h, few) = rw (decode-encode is_nfc (map es) claims h hs few) refl

  -- Of claims no longer than a slice can be, Sign signs exactly those that Encode writes for some map of at
  -- most MaxItems items, from a seed of 32 bytes; what it makes is then the public key of the seed, copied
  -- into 32 bytes, and the signature over these very claims.
  pub sign_iff :
      (lib : Ed25519) (seed : List ℕ) (out : List ℕ × List ℕ)
      → (sign is_nfc lib seed claims ≡ ok out) ↔ Signed is_nfc lib seed claims out
  unfolding sign
  sign_iff lib seed out = (
    λ h.
        Ensures-ok {P = Signed is_nfc lib seed claims}
          (Ensures-if (not (length seed == seed_size)) (λ _. refused)
            λ fits. Ensures-bind gate-IsClaims λ _ canonical.
              returned
                ((==_iff (length seed) seed_size).0 (not-false→true _ fits), canonical, refl))
          h,
    λ (fits, canonical, made).
        rw (eq→== (length seed) seed_size fits, gate_passes canonical, made) refl,
  )
