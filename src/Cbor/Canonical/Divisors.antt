-- ===== src/Cbor/Canonical/Divisors.antt =====
-- What divides both numbers of Euclid's loop.
use murmur_go.Common.{ℕ, zero, suc, ◌+◌, ◌*◌, ◌/◌, ◌%◌, ◌<◌, ◌≡◌, ap, sym, ◌∙◌, subst, arith}
use murmur_go.Cbor.Canonical.{gcd, gcd_loop, acc_below, remainder_lt}
use mathlib.Core.WellFounded.{Acc}
use native.Mathlib.Nat
use Prim.Native.Nat.{◌∣◌}

-- One round, with both numbers times `c`.
remainder_of : (a b c : ℕ) → a * c ≡ a / b * (b * c) + a % b * c
remainder_of a b c =
    ap (λ (t : ℕ). t * c) (sym (Nat.div-add-mod' a b))
    ∙ Nat.add-mul (a / b * b) (a % b) c
    ∙ ap (λ (t : ℕ). t + a % b * c) (Nat.mul_assoc (a / b) b c)

dvd-remainder : (k a b c : ℕ) → k ∣ a * c → k ∣ b * c → k ∣ a % b * c
dvd-remainder k a b c ha hb =
    let multiple : k ∣ a / b * (b * c) = Nat.dvd-mul_left_of_dvd k hb (a / b) in
    (Nat.dvd-add_iff_right k multiple).1 (subst (λ t. k ∣ t) (remainder_of a b c) ha)

dvd-gcd_loop : (k c a b : ℕ) (w : Acc ◌<◌ b) → k ∣ a * c → k ∣ b * c → k ∣ gcd_loop a b w * c
unfolding gcd_loop
dvd-gcd_loop k c a b (Acc.intro zero _) ha hb = ha
dvd-gcd_loop k c a b (Acc.intro (suc d) smaller) ha hb =
    dvd-gcd_loop k c (suc d) (a % suc d) (smaller (a % suc d) (remainder_lt a d)) hb
      (dvd-remainder k a (suc d) c ha hb)

-- What divides `a * c` and `b * c`, and `a` and `b` are coprime, divides `c`.
pub dvd_of_coprime : (k a b c : ℕ) → gcd a b ≡ 1 → k ∣ a * c → k ∣ b * c → k ∣ c
unfolding gcd
dvd_of_coprime k a b c coprime ha hb =
    subst (λ t. k ∣ t) (ap (λ (t : ℕ). t * c) coprime ∙ Nat.one-mul c)
      (dvd-gcd_loop k c a b (acc_below (suc b) b (omega arith)) ha hb)
