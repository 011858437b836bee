-- ===== src/Cbor/Huge/Lengths.antt =====
-- The lengths at which `make` panics behind the guards of cbor/decode.go.
use murmur_go.Common.{
  or_true, ℕ, ◌+◌, ◌%◌, ◌^◌, ◌≤◌, ◌<◌, ◌≡◌, true, false, arith, ltb-false→le, ltb→lt, inl, inr,
  Bool-cases,
}
use murmur_go.Cbor.Decode.{max_alloc, int_lt, int_min, make_panics}

-- A length that makes `make` panic behind the guard of `bytes` is at least 2^63 together with the most
-- that a slice can be.
pub make_panics_guarded :
    (start len arg : ℕ)
    → start + len ≤ max_alloc
    → arg < 2 ^ 64
    → int_lt (start + len) ((start + arg) % 2 ^ 64) ≡ false
    → make_panics arg ≡ true
    → 2 ^ 63 ≤ arg + max_alloc
make_panics_guarded start len arg fits h long made =
    let passed =
      ltb-false→le ((start + len + 2 ^ 63) % 2 ^ 64) (((start + arg) % 2 ^ 64 + 2 ^ 63) % 2 ^ 64)
        long in
    elim (or_true (int_lt arg 0) (int_lt max_alloc arg) made) [
      | inl negative ↦ omega (arith, ltb→lt ((arg + 2 ^ 63) % 2 ^ 64) (2 ^ 63) negative)
      | inr huge ↦
          omega
            (arith, passed, ltb→lt ((max_alloc + 2 ^ 63) % 2 ^ 64) ((arg + 2 ^ 63) % 2 ^ 64) huge)
    ]

pub capacity_guarded :
    (arg : ℕ) → arg < 2 ^ 64 → make_panics (int_min arg 1024) ≡ true → 2 ^ 63 ≤ arg + max_alloc
capacity_guarded arg h made = elim (Bool-cases (int_lt arg 1024)) [
  | inl less ↦
      let small = ltb→lt ((arg + 2 ^ 63) % 2 ^ 64) ((1024 + 2 ^ 63) % 2 ^ 64) less in
      elim (or_true (int_lt arg 0) (int_lt max_alloc arg) (rw less at made)) [
        | inl negative ↦ omega (arith, ltb→lt ((arg + 2 ^ 63) % 2 ^ 64) (2 ^ 63) negative)
        | inr huge ↦
            omega
              (arith, small, ltb→lt ((max_alloc + 2 ^ 63) % 2 ^ 64) ((arg + 2 ^ 63) % 2 ^ 64) huge)
      ]
  | inr more ↦ let small : make_panics 1024 ≡ true = rw more at made in cc small
]
