-- ===== src/Cbor/Canonical.antt =====
-- cbor/canonical.go: the canonical forms of a decimal and of a rational. A nil pointer is `none`.
-- The greatest common divisor is Euclid's, as `math/big` documents it.
pub mod Divisors
pub mod Numbers
use murmur_go.Common.{
  ℕ, zero, suc, ◌%◌, ◌<◌, not, Option, none, some, if◌then◌else◌, ◌==◌, Result, ok, arith, ◌||◌,
}
use murmur_go.Common.Int.{ℤ, abs, is_neg, is_zero}
use murmur_go.Cbor.Errors.{EncodeError, encode_error}
use mathlib.Core.WellFounded.{Acc}

pub acc_below : (k n : ℕ) → n < k → Acc ◌<◌ n
acc_below zero n h = absurd (omega arith)
acc_below (suc k) n h = Acc.intro n λ m below. acc_below k m (omega arith)

pub remainder_lt : (a b : ℕ) → a % suc b < suc b
remainder_lt a b = omega arith

pub gcd_loop : (a b : ℕ) → Acc ◌<◌ b → ℕ
gcd_loop a b (Acc.intro zero _) = a
gcd_loop a b (Acc.intro (suc c) smaller) =
    gcd_loop (suc c) (a % suc c) (smaller (a % suc c) (remainder_lt a c))

-- `GCD(nil, nil, a, b)` of two numbers that are not negative.
unfoldable pub gcd : ℕ → ℕ → ℕ
unfolding gcd_loop acc_below
gcd a b = gcd_loop a b (acc_below (suc b) b (omega arith))

-- `Mod` is Euclidean, so it is zero exactly when ten divides the magnitude.
unfoldable pub check_decimal : Option ℤ → Option ℤ → Result EncodeError (Unit {0})
check_decimal none mantissa = encode_error "decimal has a nil component"
check_decimal (some scale) none = encode_error "decimal has a nil component"
check_decimal (some scale) (some mantissa) =
    if is_zero mantissa
    then (if not (is_zero scale) then encode_error "canonical zero decimal is [0, 0]" else ok tt)
    else if abs mantissa % 10 == 0
    then encode_error "decimal mantissa must not be divisible by ten"
    else ok tt

unfoldable pub check_rational : Option ℤ → Option ℤ → Result EncodeError (Unit {0})
check_rational none den = encode_error "rational has a nil component"
check_rational (some num) none = encode_error "rational has a nil component"
check_rational (some num) (some den) =
    if is_neg den || is_zero den
    then encode_error "rational denominator must be positive"
    else if is_zero num
    then (if not (abs den == 1) then encode_error "canonical zero rational is [0, 1]" else ok tt)
    else if not (gcd (abs num) (abs den) == 1)
    then encode_error "rational numerator and denominator must be coprime"
    else ok tt
