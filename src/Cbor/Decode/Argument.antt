-- ===== src/Cbor/Decode/Argument.antt =====
-- `readArg` and `takeUint` of cbor/decode.go against the forms of a head.
use murmur_go.Common.{
  ℕ, zero, suc, ◌+◌, ◌*◌, ◌%◌, ◌^◌, ◌≤◌, ◌<◌, ◌≡◌, refl, ap, sym, List, [], ◌∷◌, ◌++◌, bit_or,
  arith, length, take, take-append-drop, length-take_le, All-append_left, All, ltb, lt→ltb, le→ltb,
  ltb-false→le, ok, Ensures, returned, refused, Ensures-if, Ensures-bind, Ensures-weaken, ltb→lt,
  drop, length-append, drop-length-append, ◌==◌, ==_iff,
}
use murmur_go.Common.Bits.{bit_or_shift}
use murmur_go.Cbor.Head.Form.{IsByte, Form, immediate, one, two, four, eight}
use murmur_go.Cbor.Decode.{Decoder, data_length, take_loop, take_uint, long_arg, read_arg}
use native.Mathlib.Nat.{add-zero, pow-suc, mul-le-mul_right, mul-le-mul_left}

-- `bs` was read off the data.
pub record Consumed (d d' : Decoder) (bs : List ℕ) : Type 0 where
  pub split : d.rest ≡ bs ++ d'.rest
  pub moved : d'.pos ≡ d.pos + length bs

-- The number that bytes spell behind `v`, highest first.
abbrev spelt : List ℕ → ℕ → ℕ
spelt [] v = v
spelt (b ∷ bs) v = spelt bs (v * 256 + b)

next_digit : (v b : ℕ) → v < 2 ^ 56 → b < 256 → bit_or (v * 2 ^ 8 % 2 ^ 64) b ≡ v * 256 + b
next_digit v b hv hb =
    let fits : v * 2 ^ 8 % 2 ^ 64 ≡ v * 2 ^ 8 = omega arith in rw fits (bit_or_shift 8 v b hb)

digits_fit :
    (n v b : ℕ) → b < 256 → (v + 1) * 256 ^ suc n ≤ 2 ^ 64 → (v * 256 + b + 1) * 256 ^ n ≤ 2 ^ 64
digits_fit n v b hb h =
    let room : v * 256 + b + 1 ≤ (v + 1) * 256 = omega arith in
    omega (arith, ap (λ (t : ℕ). (v + 1) * t) (pow-suc 256 n), mul-le-mul_right (256 ^ n) room)

power_pos : (n : ℕ) → 1 ≤ 256 ^ n
power_pos zero = omega arith
power_pos (suc n) = omega (arith, pow-suc 256 n, power_pos n)

first_fits : (n v : ℕ) → (v + 1) * 256 ^ suc n ≤ 2 ^ 64 → v < 2 ^ 56
first_fits n v h = omega (
  arith,
  ap (λ (t : ℕ). (v + 1) * t) (pow-suc 256 n),
  mul-le-mul_left ((v + 1) * 256) (power_pos n),
)

take_loop-spelt :
    (bs more : List ℕ) (v : ℕ)
    → All IsByte bs
    → (v + 1) * 256 ^ length bs ≤ 2 ^ 64
    → take_loop (length bs) (bs ++ more) v ≡ ok (spelt bs v)
unfolding take_loop
take_loop-spelt [] more v hb h = refl
take_loop-spelt (b ∷ bs) more v hb h =
    rw (next_digit v b (first_fits (length bs) v h) hb.0)
      (take_loop-spelt bs more (v * 256 + b) hb.1 (digits_fit (length bs) v b hb.0 h))

module _ (head_pos pos items : ℕ) (more : List ℕ) where
  abbrev before : List ℕ → Decoder
  before bs = record { rest = bs ++ more; pos = pos; items = items }

  abbrev after : List ℕ → Decoder
  after bs = record { rest = more; pos = pos + length bs; items = items }

  -- What `takeUint` makes of n bytes that are there.
  take_uint-append :
      (bs : List ℕ)
      → All IsByte bs
      → 256 ^ length bs ≤ 2 ^ 64
      → take_uint (length bs) head_pos (before bs) ≡ ok (spelt bs 0, after bs)
  unfolding take_uint
  take_uint-append bs hb hp = rw (
    le→ltb (pos + length (bs ++ more)) (pos + length bs) (omega (arith, length-append bs more)),
    take_loop-spelt bs more 0 hb (omega arith),
    drop-length-append bs more,
  )

  long_arg-append :
      (least : ℕ) (bs : List ℕ) (arg : ℕ)
      → All IsByte bs
      → 256 ^ length bs ≤ 2 ^ 64
      → spelt bs 0 ≡ arg
      → least ≤ arg
      → long_arg (length bs) least head_pos (before bs) ≡ ok (arg, after bs)
  unfolding long_arg
  long_arg-append least bs arg hb hp e h =
      rw (take_uint-append bs hb hp) (rw (e, le→ltb arg least h))

  -- `readArg` reads back the argument that a head has.
  pub read_arg-Form :
      {ai arg : ℕ} {bs : List ℕ}
      → Form ai arg bs
      → read_arg ai head_pos (before bs) ≡ ok (arg, after bs)
  unfolding read_arg
  read_arg-Form {arg} (immediate h ha hb) = rw (ha, hb, lt→ltb arg 24 h, add-zero)
  read_arg-Form {arg} (one lo h ha hb) =
      rw (ha, hb) (long_arg-append 24 (arg ∷ []) arg (omega arith) (omega arith) (omega arith) lo)
  read_arg-Form {arg} (two b₁ b₀ h₁ h₀ e lo ha hb) =
      rw (ha, hb)
        (long_arg-append (2 ^ 8) (b₁ ∷ b₀ ∷ []) arg (omega arith) (omega arith) (omega arith) lo)
  read_arg-Form {arg} (four b₃ b₂ b₁ b₀ h₃ h₂ h₁ h₀ e lo ha hb) =
      rw (ha, hb)
        (long_arg-append (2 ^ 16) (b₃ ∷ b₂ ∷ b₁ ∷ b₀ ∷ []) arg (omega arith) (omega arith)
          (omega arith) lo)
  read_arg-Form {arg} (eight b₇ b₆ b₅ b₄ b₃ b₂ b₁ b₀ h₇ h₆ h₅ h₄ h₃ h₂ h₁ h₀ e lo ha hb) =
      rw (ha, hb)
        (long_arg-append (2 ^ 32) (b₇ ∷ b₆ ∷ b₅ ∷ b₄ ∷ b₃ ∷ b₂ ∷ b₁ ∷ b₀ ∷ []) arg (omega arith)
          (omega arith) (omega arith) lo)

-- What was read: n bytes, and the number that they spell.
record Number (n v : ℕ) (bs : List ℕ) : Type 0 where
  are_bytes : All IsByte bs
  size : length bs ≡ n
  spells : spelt bs 0 ≡ v

-- `takeUint` fails, or takes n bytes and returns what they spell.
take_uint-Ensures :
    (n head_pos : ℕ) (d : Decoder)
    → All IsByte d.rest
    → 256 ^ n ≤ 2 ^ 64
    → Ensures (λ (v, d'). (bs : List ℕ) × Consumed d d' bs × Number n v bs) (take_uint n head_pos d)
unfolding take_uint
take_uint-Ensures n head_pos d hb hp =
    Ensures-if (ltb (data_length d) (d.pos + n)) (λ short. refused)
      λ long.
        let there : n ≤ length d.rest =
          omega (arith, ltb-false→le (data_length d) (d.pos + n) long) in
        let size : length (take n d.rest) ≡ n = length-take_le n d.rest there in
        let whole : take n d.rest ++ drop n d.rest ≡ d.rest = take-append-drop n d.rest in
        let front : All IsByte (take n d.rest) =
          All-append_left IsByte (take n d.rest) (drop n d.rest) (rw whole hb) in
        let value : take_loop n d.rest 0 ≡ ok (spelt (take n d.rest) 0) =
          rw (size, whole) at
            (take_loop-spelt (take n d.rest) (drop n d.rest) 0 front (rw size (omega arith))) in
        rw value (
          returned (
            take n d.rest,
            record { split = sym whole; moved = ap (λ (t : ℕ). d.pos + t) (sym size) },
            record { are_bytes = front; size = size; spells = refl },
          ))

long_arg-Ensures :
    (n least head_pos : ℕ) (d : Decoder)
    → All IsByte d.rest
    → 256 ^ n ≤ 2 ^ 64
    → Ensures
        (λ (v, d'). (bs : List ℕ) × Consumed d d' bs × Number n v bs × (least ≤ v))
        (long_arg n least head_pos d)
unfolding long_arg
long_arg-Ensures n least head_pos d hb hp =
    Ensures-bind (take_uint-Ensures n head_pos d hb hp) λ (v, d₁) (bs, c, m).
      Ensures-if (ltb v least) (λ short. refused)
        (λ long. returned (bs, c, m, ltb-false→le v least long))

Form-one : (bs : List ℕ) {v : ℕ} → Number 1 v bs → 24 ≤ v → Form 24 v bs
Form-one [] m h = absurd (omega arith)
Form-one (b₀ ∷ []) m h = one h (omega arith) refl (ap (λ t. t ∷ []) (omega arith))
Form-one _ m h = absurd (omega arith)

Form-two : (bs : List ℕ) {v : ℕ} → Number 2 v bs → 2 ^ 8 ≤ v → Form 25 v bs
Form-two (b₁ ∷ b₀ ∷ []) m h = two b₁ b₀ (omega arith) (omega arith) (omega arith) h refl refl
Form-two _ m h = absurd (omega arith)

Form-four : (bs : List ℕ) {v : ℕ} → Number 4 v bs → 2 ^ 16 ≤ v → Form 26 v bs
Form-four (b₃ ∷ b₂ ∷ b₁ ∷ b₀ ∷ []) m h =
    four b₃ b₂ b₁ b₀ (omega arith) (omega arith) (omega arith) (omega arith) (omega arith) h refl
      refl
Form-four _ m h = absurd (omega arith)

Form-eight : (bs : List ℕ) {v : ℕ} → Number 8 v bs → 2 ^ 32 ≤ v → Form 27 v bs
Form-eight (b₇ ∷ b₆ ∷ b₅ ∷ b₄ ∷ b₃ ∷ b₂ ∷ b₁ ∷ b₀ ∷ []) m h =
    eight b₇ b₆ b₅ b₄ b₃ b₂ b₁ b₀ (omega arith) (omega arith) (omega arith) (omega arith)
      (omega arith) (omega arith) (omega arith) (omega arith) (omega arith) h refl refl
Form-eight _ m h = absurd (omega arith)

-- `readArg` fails, or takes the bytes of a form and returns its argument.
pub read_arg-Ensures :
    (ai head_pos : ℕ) (d : Decoder)
    → All IsByte d.rest
    → Ensures
        (λ (arg, d'). (bs : List ℕ) × Consumed d d' bs × Form ai arg bs)
        (read_arg ai head_pos d)
unfolding read_arg
read_arg-Ensures ai head_pos d hb =
    Ensures-if (ltb ai 24)
      (λ h.
        returned
          ([], record { split = refl; moved = omega arith }, immediate (ltb→lt ai 24 h) refl refl))
      λ _.
        Ensures-if (ai == 24)
          (λ e. form 1 24 (omega arith) λ bs v m h. rw ((==_iff ai 24).0 e) (Form-one bs m h))
          λ _.
            Ensures-if (ai == 25)
              (λ e.
                form 2 (2 ^ 8) (omega arith) λ bs v m h. rw ((==_iff ai 25).0 e) (Form-two bs m h))
              λ _.
                Ensures-if (ai == 26)
                  (λ e.
                    form 4 (2 ^ 16) (omega arith)
                      λ bs v m h. rw ((==_iff ai 26).0 e) (Form-four bs m h))
                  λ _.
                    Ensures-if (ai == 27)
                      (λ e.
                        form 8 (2 ^ 32) (omega arith)
                          λ bs v m h. rw ((==_iff ai 27).0 e) (Form-eight bs m h))
                      λ _. Ensures-if (ai == 31) (λ _. refused) (λ _. refused)
  where
    form :
        (n least : ℕ)
        → 256 ^ n ≤ 2 ^ 64
        → ((bs : List ℕ) (v : ℕ) → Number n v bs → least ≤ v → Form ai v bs)
        → Ensures
            (λ (arg, d'). (bs : List ℕ) × Consumed d d' bs × Form ai arg bs)
            (long_arg n least head_pos d)
    form n least hp k =
        Ensures-weaken (λ (v, d') (bs, c, m, h). (bs, c, k bs v m h))
          (long_arg-Ensures n least head_pos d hb hp)
