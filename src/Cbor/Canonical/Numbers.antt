-- ===== src/Cbor/Canonical/Numbers.antt =====
-- cbor/canonical.go: a number has one canonical decimal and one canonical rational.
use murmur_go.Common.{
  ℕ, zero, suc, ◌+◌, ◌*◌, ◌-◌, ◌%◌, ◌^◌, ◌<◌, ◌≡◌, ◌≢◌, refl, ap, sym, ◌∙◌, subst, arith, true,
  false, some, ok, err, inl, inr, leb, leb→le, leb-false→lt, eq→==, ◌==◌, ==_iff, if◌then◌else◌,
  Bool-cases,
}
use murmur_go.Common.Int.{ℤ, pos, negsuc, abs, is_zero}
use murmur_go.Cbor.Canonical.{gcd, check_decimal, check_rational}
use murmur_go.Cbor.Canonical.Divisors.{dvd_of_coprime}
use native.Mathlib.Nat
use Prim.Native.Nat.{◌∣◌}

abbrev times : ℤ → ℕ → ℤ
times (pos n) k = pos (n * k)
times (negsuc n) zero = pos 0
times (negsuc n) (suc k) = negsuc (n * suc k + k)

abbrev plus : ℤ → ℕ → ℤ
plus (pos n) k = pos (n + k)
plus (negsuc n) k = if leb k n then negsuc (n - k) else pos (k - suc n)

-- Mantissas times ten to their scales are the same number: the mantissa of the smaller scale is the
-- other one times the power of ten between the scales.
pub data SameDecimal (s m t n : ℤ) : Type 0 where
  up : (k : ℕ) → t ≡ plus s k → m ≡ times n (10 ^ k) → SameDecimal s m t n
  down : (k : ℕ) → s ≡ plus t k → n ≡ times m (10 ^ k) → SameDecimal s m t n

abs-times : (z : ℤ) (k : ℕ) → abs (times z k) ≡ abs z * k
abs-times (pos n) k = refl
abs-times (negsuc n) zero = omega arith
abs-times (negsuc n) (suc k) = grind arith

times_one : (z : ℤ) → times z 1 ≡ z
times_one (pos n) = ap pos (omega arith)
times_one (negsuc n) = ap negsuc (omega arith)

zero_below : (n : ℕ) → leb 0 n ≡ true
zero_below n = elim (Bool-cases (leb 0 n)) [
  | inl le ↦ le
  | inr gt ↦ absurd (omega (arith, leb-false→lt 0 n gt))
]

not_below : (n : ℕ) → leb (suc n) 0 ≡ false
not_below n = elim (Bool-cases (leb (suc n) 0)) [
  | inl le ↦ absurd (omega (arith, leb→le (suc n) 0 le))
  | inr gt ↦ gt
]

plus_zero : (z : ℤ) → plus z 0 ≡ z
plus_zero (pos n) = ap pos (omega arith)
plus_zero (negsuc n) = rw (zero_below n) (ap negsuc (omega arith))

zero_of_abs : (z : ℤ) → abs z ≡ 0 → z ≡ pos 0
zero_of_abs (pos n) h = ap pos h
zero_of_abs (negsuc n) h = absurd (omega (arith, h))

is_zero-eq : (z : ℤ) → is_zero z ≡ true → z ≡ pos 0
is_zero-eq (pos n) h = ap pos (omega (arith, leb→le n 0 h))
is_zero-eq (negsuc n) h = cc

abs-nonzero : (z : ℤ) → is_zero z ≡ false → abs z ≢ 0
abs-nonzero (pos n) h e = omega (arith, leb-false→lt n 0 h)
abs-nonzero (negsuc n) h e = omega arith

times_cancel : (y z : ℤ) (k : ℕ) → times y (suc k) ≡ times z (suc k) → y ≡ z
times_cancel (pos a) (pos b) k h =
    ap pos (Nat.eq_of_mul-eq-mul_right (suc k) (omega arith) a b (ap abs h))
times_cancel (pos a) (negsuc b) k h = cc
times_cancel (negsuc a) (pos b) k h = cc
times_cancel (negsuc a) (negsuc b) k h =
    ap negsuc (Nat.eq_of_mul-eq-mul_right (suc k) (omega arith) a b (omega (arith, ap abs h)))

-- What the check of a decimal lets through.
data Decimal (s m : ℤ) : Type 0 where
  nothing : m ≡ pos 0 → s ≡ pos 0 → Decimal s m
  digits : abs m ≢ 0 → abs m % 10 ≢ 0 → Decimal s m

check_decimal-Decimal : (s m : ℤ) → check_decimal (some s) (some m) ≡ ok tt → Decimal s m
unfolding check_decimal
check_decimal-Decimal s m h = elim (Bool-cases (is_zero m)) [
  | inl nil ↦ elim (Bool-cases (is_zero s)) [
    | inl none_too ↦ nothing (is_zero-eq m nil) (is_zero-eq s none_too)
    | inr other ↦ (let bad : err _ ≡ ok tt = rw (nil, other) at h in cc)
  ]
  | inr other ↦ elim (Bool-cases (abs m % 10 == 0)) [
    | inl ten ↦ (let bad : err _ ≡ ok tt = rw (other, ten) at h in cc)
    | inr odd ↦ digits (abs-nonzero m other) (λ e. let hit = eq→== (abs m % 10) 0 e in cc)
  ]
]

data Rational (num den : ℤ) : Type 0 where
  nothing : num ≡ pos 0 → den ≡ pos 1 → Rational num den
  parts : (k : ℕ) → den ≡ pos (suc k) → abs num ≢ 0 → gcd (abs num) (abs den) ≡ 1 → Rational num den

check_rational-Rational :
    (num den : ℤ) → check_rational (some num) (some den) ≡ ok tt → Rational num den
unfolding check_rational
check_rational-Rational num (negsuc n) h = cc
check_rational-Rational num (pos zero) h = cc
check_rational-Rational num (pos (suc k)) h = elim (Bool-cases (is_zero num)) [
  | inl nil ↦ elim (Bool-cases (suc k == 1)) [
    | inl whole ↦ nothing (is_zero-eq num nil) (ap pos ((==_iff (suc k) 1).0 whole))
    | inr other ↦ (let bad : err _ ≡ ok tt = rw (not_below k, nil, other) at h in cc)
  ]
  | inr other ↦ elim (Bool-cases (gcd (abs num) (suc k) == 1)) [
    | inl coprime ↦
        parts k refl (abs-nonzero num other) ((==_iff (gcd (abs num) (suc k)) 1).0 coprime)
    | inr shared ↦ (let bad : err _ ≡ ok tt = rw (not_below k, other, shared) at h in cc)
  ]
]

power_positive : (k : ℕ) → 0 < 10 ^ k
power_positive zero = omega arith
power_positive (suc k) = omega (arith, Nat.pow-suc 10 k, power_positive k)

tens : (n : ℤ) (k : ℕ) → abs (times n (10 ^ suc k)) % 10 ≡ 0
tens n k =
    ap (λ (x : ℕ). x % 10)
      (abs-times n (10 ^ suc k)
        ∙ ap (λ (x : ℕ). abs n * x) (Nat.pow-suc 10 k)
        ∙ sym (Nat.mul_assoc (abs n) (10 ^ k) 10))
    ∙ Nat.mul-mod_left (abs n * 10 ^ k) 10

times-zero : (z : ℤ) (k : ℕ) → 0 < k → times z k ≡ pos 0 → z ≡ pos 0
times-zero z k positive h = zero_of_abs z (
    Nat.eq_of_mul-eq-mul_right k positive (abs z) 0
      (sym (abs-times z k) ∙ ap abs h ∙ sym (Nat.zero-mul k)))

scale_of_zero : (s m : ℤ) → m ≡ pos 0 → Decimal s m → s ≡ pos 0
scale_of_zero s m nil (nothing _ none_too) = none_too
scale_of_zero s m nil (digits some_digit _) = absurd (some_digit (ap abs nil))

same_or_up :
    (k : ℕ) (s m t n : ℤ)
    → t ≡ plus s k
    → m ≡ times n (10 ^ k)
    → Decimal s m
    → Decimal t n
    → (s ≡ t) × (m ≡ n)
same_or_up zero s m t n scales values low high =
    (sym (plus_zero s) ∙ sym scales, values ∙ times_one n)
same_or_up (suc k) s m t n scales values (digits some_digit odd) high =
    absurd (odd (ap (λ z. abs z % 10) values ∙ tens n k))
same_or_up (suc k) s m t n scales values (nothing nil none_too) high =
    let right_nil : n ≡ pos 0 =
      times-zero n (10 ^ suc k) (power_positive (suc k)) (sym values ∙ nil) in
    (none_too ∙ sym (scale_of_zero t n right_nil high), nil ∙ sym right_nil)

-- Two decimals that pass the check and are the same number, mantissa times ten to the scale, have the
-- same scale and the same mantissa.
pub check_decimal_unique :
    (s m t n : ℤ)
    → SameDecimal s m t n
    → check_decimal (some s) (some m) ≡ ok tt
    → check_decimal (some t) (some n) ≡ ok tt
    → (s ≡ t) × (m ≡ n)
check_decimal_unique s m t n (up k scales values) first second =
    same_or_up k s m t n scales values (check_decimal-Decimal s m first)
      (check_decimal-Decimal t n second)
check_decimal_unique s m t n (down k scales values) first second =
    let same =
      same_or_up k t n s m scales values (check_decimal-Decimal t n second)
        (check_decimal-Decimal s m first) in
    (sym same.0, sym same.1)

-- Cross multiplication on magnitudes.
cross-abs : (a b c d : ℤ) → times a (abs d) ≡ times c (abs b) → abs a * abs d ≡ abs c * abs b
cross-abs a b c d same = sym (abs-times a (abs d)) ∙ ap abs same ∙ abs-times c (abs b)

no_part : (a b c d : ℤ) → times a (abs d) ≡ times c (abs b) → a ≡ pos 0 → b ≡ pos 1 → abs c ≡ 0
no_part a b c d same nil whole =
    let sizes = cross-abs a b c d same in
    sym (
      sym (Nat.zero-mul (abs d))
      ∙ ap (λ (x : ℕ). x * abs d) (sym (ap abs nil))
      ∙ sizes
      ∙ ap (λ (x : ℕ). abs c * x) (ap abs whole)
      ∙ Nat.mul-one (abs c))

same_ratio :
    (a b c d : ℤ)
    → Rational a b
    → Rational c d
    → times a (abs d) ≡ times c (abs b)
    → (a ≡ c) × (b ≡ d)
same_ratio a b c d (nothing nil whole) (nothing nil' whole') same =
    (nil ∙ sym nil', whole ∙ sym whole')
same_ratio a b c d (nothing nil whole) (parts k den some_part coprime) same =
    absurd (some_part (no_part a b c d same nil whole))
same_ratio a b c d (parts k den some_part coprime) (nothing nil whole) same =
    absurd (some_part (no_part c d a b (sym same) nil whole))
same_ratio a b c d (parts k den _ coprime) (parts j den' _ coprime') same =
    let sizes = cross-abs a b c d same in
    let dens : abs b ≡ abs d =
      Nat.dvd_antisymm
        (dvd_of_coprime (abs b) (abs a) (abs b) (abs d) coprime
          (subst (λ t. abs b ∣ t) (sym sizes) (Nat.dvd-mul_left (abs b) (abs c)))
          (Nat.dvd-mul_right (abs b) (abs d)))
        (dvd_of_coprime (abs d) (abs c) (abs d) (abs b) coprime'
          (subst (λ t. abs d ∣ t) sizes (Nat.dvd-mul_left (abs d) (abs a)))
          (Nat.dvd-mul_right (abs d) (abs b))) in
    (
      times_cancel a c k (
          ap (λ (x : ℕ). times a x) (sym (ap abs den) ∙ dens)
          ∙ same
          ∙ ap (λ (x : ℕ). times c x) (ap abs den)),
      den ∙ ap pos (sym (ap abs den) ∙ dens ∙ ap abs den') ∙ sym den',
    )

-- Two rationals that pass the check and are the same number, by cross multiplication, have the same
-- numerator and the same denominator.
pub check_rational_unique :
    (a b c d : ℤ)
    → times a (abs d) ≡ times c (abs b)
    → check_rational (some a) (some b) ≡ ok tt
    → check_rational (some c) (some d) ≡ ok tt
    → (a ≡ c) × (b ≡ d)
check_rational_unique a b c d same first second =
    same_ratio a b c d (check_rational-Rational a b first) (check_rational-Rational c d second) same
