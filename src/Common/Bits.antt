-- ===== src/Common/Bits.antt =====
-- Facts about the native `bit_and` and `bit_or`.
use Prim.Native.Nat.{
  ℕ, zero, suc, ◌+◌, ◌*◌, ◌/◌, ◌%◌, ◌^◌, ◌≤◌, ◌<◌, max, bit_and, bit_or, digits, bit_or-bitwise,
}
use mathlib.Core.Path.{◌≡◌, refl, ap, sym, ◌∙◌}
use mathlib.Core.Bool.{Bool, true, ◌&&◌}
use native.Mathlib.Decide.{dec_le}
use native.Mathlib.Omega.{arith}
use native.Mathlib.Nat.{pow-suc}
use murmur_go.Common.Tests.{◌==◌}

-- `bit_and` with a mask of five ones, on the first n numbers.
masks_five : ℕ → Bool
masks_five zero = true
masks_five (suc n) = masks_five n && bit_and n 0x1f == n % 32

masks_five-at : (n b : ℕ) → masks_five n ≡ true → b < n → bit_and b 0x1f ≡ b % 32
unfolding masks_five
masks_five-at zero b all h = elim h [ ]
masks_five-at (suc n) b all h = ground (arith, masks_five-at n b)

-- The additional information of a head is its byte modulo 32.
pub low_five : (b : ℕ) → b < 256 → bit_and b 0x1f ≡ b % 32
unfolding masks_five
low_five b h = masks_five-at 256 b refl h

-- The definition that `bit_or` stands for, with a count of digits to go.
abbrev joined : ℕ → ℕ → ℕ → ℕ
joined count a b = digits (λ b. b) max count a b

joined_spare : (count a b : ℕ) → a ≤ count → joined (suc count) a b ≡ joined count a b
joined_spare zero a b h = let none_set : a ≡ 0 = omega arith in rw none_set
joined_spare (suc count) zero b h = refl
joined_spare (suc count) (suc a) b h =
    omega (arith, joined_spare count (suc a / 2) (b / 2) (omega arith))

joined_enough : (count a b : ℕ) → a ≤ count → joined count a b ≡ bit_or a b
joined_enough zero a b h =
    let none_set : a ≡ 0 = omega arith in rw none_set (sym (bit_or-bitwise 0 b))
joined_enough (suc count) a b h = elim (dec_le a count) [
  | yes fits ↦ joined_spare count a b fits ∙ joined_enough count a b fits
  | no full ↦
      let exact : a ≡ suc count = omega arith in rw exact (sym (bit_or-bitwise (suc count) b))
]

bit_or-digit : (a b : ℕ) → bit_or a b ≡ bit_or (a / 2) (b / 2) * 2 + max (a % 2) (b % 2)
bit_or-digit zero b = omega (arith, bit_or-bitwise 0 b, bit_or-bitwise 0 (b / 2))
bit_or-digit (suc a) b = omega (
  arith,
  joined_enough (suc a) (suc a) b (omega arith),
  joined_enough a (suc a / 2) (b / 2) (omega arith),
)

bit_or-zero_below : (bound a : ℕ) → a < bound → bit_or a 0 ≡ a
bit_or-zero_below zero a h = elim h [ ]
bit_or-zero_below (suc bound) zero h = refl
bit_or-zero_below (suc bound) (suc a) h =
    omega (arith, bit_or-digit (suc a) 0, bit_or-zero_below bound (suc a / 2) (omega arith))

pub bit_or-zero : (a : ℕ) → bit_or a 0 ≡ a
bit_or-zero a = bit_or-zero_below (suc a) a (omega arith)

double-bit_or : (v b : ℕ) → bit_or (v * 2) b ≡ bit_or v (b / 2) * 2 + b % 2
double-bit_or v b =
    let half : v * 2 / 2 ≡ v = omega arith in
    omega (arith, bit_or-digit (v * 2) b, ap (λ (t : ℕ). bit_or t (b / 2)) half)

-- Digits that do not overlap: `v<<k | b` is a sum.
pub bit_or_shift : (k v b : ℕ) → b < 2 ^ k → bit_or (v * 2 ^ k) b ≡ v * 2 ^ k + b
bit_or_shift zero v b h =
    let none_left : b ≡ 0 = omega arith in rw none_left (omega (arith, bit_or-zero (v * 1)))
bit_or_shift (suc k) v b h =
    let split : v * 2 ^ suc k ≡ v * 2 ^ k * 2 =
      omega (arith, ap (λ (t : ℕ). v * t) (pow-suc 2 k)) in
    rw split (
      omega
        (arith, double-bit_or (v * 2 ^ k) b, bit_or_shift k v (b / 2) (omega (arith, pow-suc 2 k))))
