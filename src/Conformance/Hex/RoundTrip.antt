-- ===== src/Conformance/Hex/RoundTrip.antt =====
-- `encoding/hex` there and back.
use murmur_go.Common.{
  ℕ, ◌+◌, ◌*◌, ◌/◌, ◌%◌, ◌<◌, ◌≡◌, refl, ap, Option, none, some, List, [], ◌∷◌, arith, All, length,
}
use murmur_go.Cbor.Head.Form.{IsByte}
use murmur_go.Conformance.Hex.{hex_digit, hex_value, hex_pair, hex_encode, hex_decode}

hex_value-hex_digit : (n : ℕ) → n < 16 → hex_value (hex_digit n) ≡ some n
unfolding hex_value hex_digit
hex_value-hex_digit n h = ground arith

-- A letter that reads back stood for a digit.
hex_value_back : (n m : ℕ) → hex_value (hex_digit n) ≡ some m → (m ≡ n) × (n < 16)
unfolding hex_value hex_digit
hex_value_back n m h = ground arith

hex_value-lt : (c m : ℕ) → hex_value c ≡ some m → m < 16
unfolding hex_value
hex_value-lt c m h = ground arith

data Pair (x y : Option ℕ) (r : Option (List ℕ)) (bs : List ℕ) : Type 0 where
  pair :
      {hi lo : ℕ} {rest : List ℕ}
      → x ≡ some hi
      → y ≡ some lo
      → r ≡ some rest
      → bs ≡ (hi * 16 + lo) ∷ rest
      → Pair x y r bs

hex_pair-Pair :
    (x y : Option ℕ) (r : Option (List ℕ)) (bs : List ℕ) → hex_pair x y r ≡ some bs → Pair x y r bs
unfolding hex_pair
hex_pair-Pair (some hi) (some lo) (some rest) bs h = pair refl refl refl (cc)
hex_pair-Pair none y r bs h = cc
hex_pair-Pair (some hi) none r bs h = cc
hex_pair-Pair (some hi) (some lo) none bs h = cc

-- Bytes written in hex are read back.
pub hex_decode-hex_encode : (bs : List ℕ) → All IsByte bs → hex_decode (hex_encode bs) ≡ some bs
unfolding hex_decode hex_encode hex_pair
hex_decode-hex_encode [] h = refl
hex_decode-hex_encode (b ∷ bs) h =
    let hi = hex_value-hex_digit (b / 16) (omega (arith, h.0)) in
    let lo = hex_value-hex_digit (b % 16) (omega arith) in
    let whole : b / 16 * 16 + b % 16 ≡ b = omega arith in
    rw (hi, lo, hex_decode-hex_encode bs h.1, whole) refl

pair_back :
    (x : ℕ) (xs ys : List ℕ)
    → ((zs : List ℕ) → hex_decode (hex_encode xs) ≡ some zs → zs ≡ xs)
    → Pair
        (hex_value (hex_digit (x / 16)))
        (hex_value (hex_digit (x % 16)))
        (hex_decode (hex_encode xs))
        ys
    → ys ≡ x ∷ xs
pair_back x xs ys ih (pair {hi} {lo} {rest} a b c e) =
    let first : hi ≡ x / 16 = (hex_value_back (x / 16) hi a).0 in
    let second : lo ≡ x % 16 = (hex_value_back (x % 16) lo b).0 in
    let whole : hi * 16 + lo ≡ x = omega (arith, first, second) in cc (e, whole, ih rest c)

-- What is read of a text that was written is what was written.
pub hex_encode_back : (xs ys : List ℕ) → hex_decode (hex_encode xs) ≡ some ys → ys ≡ xs
unfolding hex_decode hex_encode
hex_encode_back [] ys h = cc
hex_encode_back (x ∷ xs) ys h = pair_back x xs ys (hex_encode_back xs) (
    hex_pair-Pair (hex_value (hex_digit (x / 16))) (hex_value (hex_digit (x % 16)))
      (hex_decode (hex_encode xs)) ys h)

pair-IsByte :
    (c d : ℕ) (s bs : List ℕ)
    → ((zs : List ℕ) → hex_decode s ≡ some zs → All IsByte zs)
    → Pair (hex_value c) (hex_value d) (hex_decode s) bs
    → All IsByte bs
pair-IsByte c d s bs ih (pair {hi} {lo} {rest} a b r e) =
    let first : hi < 16 = hex_value-lt c hi a in
    let second : lo < 16 = hex_value-lt d lo b in
    let here : hi * 16 + lo < 256 = omega (arith, first, second) in rw e (here, ih rest r)

pub hex_decode-IsByte : (s bs : List ℕ) → hex_decode s ≡ some bs → All IsByte bs
unfolding hex_decode
hex_decode-IsByte [] bs h = let empty : bs ≡ [] = cc in rw empty tt
hex_decode-IsByte (c ∷ []) bs h = cc
hex_decode-IsByte (c ∷ d ∷ s) bs h =
    pair-IsByte c d s bs (hex_decode-IsByte s)
      (hex_pair-Pair (hex_value c) (hex_value d) (hex_decode s) bs h)

pub length-hex_encode : (bs : List ℕ) → length (hex_encode bs) ≡ 2 * length bs
unfolding hex_encode
length-hex_encode [] = refl
length-hex_encode (b ∷ bs) = omega (arith, length-hex_encode bs)

pair-length :
    (c d : ℕ) (s bs : List ℕ)
    → ((zs : List ℕ) → hex_decode s ≡ some zs → 2 * length zs ≡ length s)
    → Pair (hex_value c) (hex_value d) (hex_decode s) bs
    → 2 * length bs ≡ length (c ∷ d ∷ s)
pair-length c d s bs ih (pair {rest} a b r e) = omega (arith, ap length e, ih rest r)

pub hex_decode-length : (s bs : List ℕ) → hex_decode s ≡ some bs → 2 * length bs ≡ length s
unfolding hex_decode
hex_decode-length [] bs h = let empty : bs ≡ [] = cc in rw empty refl
hex_decode-length (c ∷ []) bs h = cc
hex_decode-length (c ∷ d ∷ s) bs h =
    pair-length c d s bs (hex_decode-length s)
      (hex_pair-Pair (hex_value c) (hex_value d) (hex_decode s) bs h)
