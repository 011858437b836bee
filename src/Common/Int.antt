-- ===== src/Common/Int.antt =====
-- Big integers (`math/big`) over the native numbers, under the library's names: its own ℤ stands on
-- another ℕ. `negsuc n` is -(n + 1).
use murmur_go.Common.Tests.{leb, ltb, ◌==◌, ==_iff, eq→==, Bool-cases}
use Prim.Native.Nat.{ℕ, suc, ◌^◌}
use mathlib.Core.Path.{◌≡◌, refl, ap}
use mathlib.Core.Logic.{inl, inr}
use mathlib.Core.Bool.{Bool, true, false}

pub data ℤ : Type 0 where
  pos : ℕ → ℤ
  negsuc : ℕ → ℤ

-- `Abs`.
abbrev pub abs : ℤ → ℕ
abs (pos n) = n
abs (negsuc n) = suc n

-- `Sign() < 0` and `Sign() == 0`.
abbrev pub is_neg : ℤ → Bool
is_neg (pos n) = false
is_neg (negsuc n) = true

abbrev pub is_zero : ℤ → Bool
is_zero (pos n) = leb n 0
is_zero (negsuc n) = false

infix 50 ◌==ℤ◌
abbrev pub ◌==ℤ◌ : ℤ → ℤ → Bool
pos a ==ℤ pos b = a == b
negsuc a ==ℤ negsuc b = a == b
_ ==ℤ _ = false

-- `IsInt64`.
unfoldable pub is_int64 : ℤ → Bool
is_int64 (pos n) = ltb n (2 ^ 63)
is_int64 (negsuc n) = ltb n (2 ^ 63)

pub ==ℤ→eq : (a b : ℤ) → (a ==ℤ b) ≡ true → a ≡ b
==ℤ→eq (pos a) (pos b) h = ap pos ((==_iff a b).0 h)
==ℤ→eq (pos a) (negsuc b) h = cc
==ℤ→eq (negsuc a) (pos b) h = cc
==ℤ→eq (negsuc a) (negsuc b) h = ap negsuc ((==_iff a b).0 h)

pub ==ℤ-refl : (a : ℤ) → (a ==ℤ a) ≡ true
==ℤ-refl (pos a) = eq→== a a refl
==ℤ-refl (negsuc a) = eq→== a a refl

pub ==ℤ_comm : (a b : ℤ) → (a ==ℤ b) ≡ (b ==ℤ a)
==ℤ_comm a b = elim (Bool-cases (a ==ℤ b)) [
  | inl same ↦ rw (==ℤ→eq a b same) refl
  | inr differ ↦ elim (Bool-cases (b ==ℤ a)) [
    | inl same ↦ rw (==ℤ→eq b a same) refl
    | inr differ' ↦ cc
  ]
]
