-- ===== src/Cbor/Head/Form.antt =====
-- The five forms of a head, and that `head` of cbor/encode.go writes the one for its argument.
use murmur_go.Common.{
  ℕ, ◌+◌, ◌*◌, ◌/◌, ◌%◌, ◌^◌, ◌≤◌, ◌<◌, ◌≡◌, refl, ap, List, [], ◌∷◌, bit_or, arith, lt→ltb, le→ltb,
}
use murmur_go.Common.Bits.{bit_or_shift}
use murmur_go.Cbor.Head.{head_bytes}
use native.Mathlib.Decide.{dec_lt}

abbrev pub IsByte : ℕ → Type 0
IsByte b = b < 256

-- `Form ai arg bs`: an argument, the additional information of its head, and the bytes after the
-- first, highest digit first.
pub data Form : ℕ → ℕ → List ℕ → Type 0 where
  immediate : {ai arg : ℕ} {bs : List ℕ} → arg < 24 → ai ≡ arg → bs ≡ [] → Form ai arg bs
  one :
      {ai arg : ℕ} {bs : List ℕ} → 24 ≤ arg → IsByte arg → ai ≡ 24 → bs ≡ arg ∷ [] → Form ai arg bs
  two :
      {ai arg : ℕ} {bs : List ℕ} (b₁ b₀ : ℕ)
      → IsByte b₁
      → IsByte b₀
      → arg ≡ b₁ * 2 ^ 8 + b₀
      → 2 ^ 8 ≤ arg
      → ai ≡ 25
      → bs ≡ b₁ ∷ b₀ ∷ []
      → Form ai arg bs
  four :
      {ai arg : ℕ} {bs : List ℕ} (b₃ b₂ b₁ b₀ : ℕ)
      → IsByte b₃
      → IsByte b₂
      → IsByte b₁
      → IsByte b₀
      → arg ≡ b₃ * 2 ^ 24 + b₂ * 2 ^ 16 + b₁ * 2 ^ 8 + b₀
      → 2 ^ 16 ≤ arg
      → ai ≡ 26
      → bs ≡ b₃ ∷ b₂ ∷ b₁ ∷ b₀ ∷ []
      → Form ai arg bs
  eight :
      {ai arg : ℕ} {bs : List ℕ} (b₇ b₆ b₅ b₄ b₃ b₂ b₁ b₀ : ℕ)
      → IsByte b₇
      → IsByte b₆
      → IsByte b₅
      → IsByte b₄
      → IsByte b₃
      → IsByte b₂
      → IsByte b₁
      → IsByte b₀
      → arg
        ≡ b₇ * 2 ^ 56
          + b₆ * 2 ^ 48
          + b₅ * 2 ^ 40
          + b₄ * 2 ^ 32
          + b₃ * 2 ^ 24
          + b₂ * 2 ^ 16
          + b₁ * 2 ^ 8
          + b₀
      → 2 ^ 32 ≤ arg
      → ai ≡ 27
      → bs ≡ b₇ ∷ b₆ ∷ b₅ ∷ b₄ ∷ b₃ ∷ b₂ ∷ b₁ ∷ b₀ ∷ []
      → Form ai arg bs

pub first_byte_sum :
    (major ai : ℕ) → major < 8 → ai < 32 → bit_or (major * 2 ^ 5 % 256) ai ≡ major * 32 + ai
first_byte_sum major ai hm ha =
    let fits : major * 2 ^ 5 % 256 ≡ major * 2 ^ 5 = omega arith in
    rw fits (bit_or_shift 5 major ai ha)

module _ (major arg : ℕ) (hm : major < 8) where
  head_bytes_immediate : arg < 24 → head_bytes major arg ≡ (major * 32 + arg) ∷ []
  unfolding head_bytes
  head_bytes_immediate h =
      let low : arg % 256 ≡ arg = omega arith in
      rw (lt→ltb arg 24 h, low) (ap (λ t. t ∷ []) (first_byte_sum major arg hm (omega arith)))

  head_bytes_one : 24 ≤ arg → arg < 2 ^ 8 → head_bytes major arg ≡ (major * 32 + 24) ∷ arg ∷ []
  unfolding head_bytes
  head_bytes_one lo hi =
      let low : arg % 256 ≡ arg = omega arith in
      rw (le→ltb arg 24 lo, lt→ltb arg (2 ^ 8) hi, low)
        (ap (λ t. t ∷ arg ∷ []) (first_byte_sum major 24 hm (omega arith)))

  head_bytes_two :
      2 ^ 8 ≤ arg
      → arg < 2 ^ 16
      → head_bytes major arg ≡ (major * 32 + 25) ∷ arg / 2 ^ 8 % 256 ∷ arg % 256 ∷ []
  unfolding head_bytes
  head_bytes_two lo hi =
      rw (le→ltb arg 24 (omega arith), le→ltb arg (2 ^ 8) lo, lt→ltb arg (2 ^ 16) hi)
        (ap (λ t. t ∷ arg / 2 ^ 8 % 256 ∷ arg % 256 ∷ [])
          (first_byte_sum major 25 hm (omega arith)))

  head_bytes_four :
      2 ^ 16 ≤ arg
      → arg < 2 ^ 32
      → head_bytes major arg
        ≡ (major * 32 + 26)
          ∷ arg / 2 ^ 24 % 256
          ∷ arg / 2 ^ 16 % 256
          ∷ arg / 2 ^ 8 % 256
          ∷ arg % 256
          ∷ []
  unfolding head_bytes
  head_bytes_four lo hi =
      rw
        (
          le→ltb arg 24 (omega arith),
          le→ltb arg (2 ^ 8) (omega arith),
          le→ltb arg (2 ^ 16) lo,
          lt→ltb arg (2 ^ 32) hi,
        )
        (ap (λ t. t ∷ arg / 2 ^ 24 % 256 ∷ arg / 2 ^ 16 % 256 ∷ arg / 2 ^ 8 % 256 ∷ arg % 256 ∷ [])
          (first_byte_sum major 26 hm (omega arith)))

  head_bytes_eight :
      2 ^ 32 ≤ arg
      → head_bytes major arg
        ≡ (major * 32 + 27)
          ∷ arg / 2 ^ 56 % 256
          ∷ arg / 2 ^ 48 % 256
          ∷ arg / 2 ^ 40 % 256
          ∷ arg / 2 ^ 32 % 256
          ∷ arg / 2 ^ 24 % 256
          ∷ arg / 2 ^ 16 % 256
          ∷ arg / 2 ^ 8 % 256
          ∷ arg % 256
          ∷ []
  unfolding head_bytes
  head_bytes_eight lo =
      rw
        (
          le→ltb arg 24 (omega arith),
          le→ltb arg (2 ^ 8) (omega arith),
          le→ltb arg (2 ^ 16) (omega arith),
          le→ltb arg (2 ^ 32) lo,
        )
        (ap
          (λ t.
            t
            ∷ arg / 2 ^ 56 % 256
            ∷ arg / 2 ^ 48 % 256
            ∷ arg / 2 ^ 40 % 256
            ∷ arg / 2 ^ 32 % 256
            ∷ arg / 2 ^ 24 % 256
            ∷ arg / 2 ^ 16 % 256
            ∷ arg / 2 ^ 8 % 256
            ∷ arg % 256
            ∷ [])
          (first_byte_sum major 27 hm (omega arith)))

pub head_bytes-Form :
    (major : ℕ) {ai arg : ℕ} {bs : List ℕ}
    → major < 8
    → Form ai arg bs
    → head_bytes major arg ≡ (major * 32 + ai) ∷ bs
head_bytes-Form major {ai} {arg} hm (immediate h ha hb) =
    rw (ha, hb) (head_bytes_immediate major arg hm h)
head_bytes-Form major {ai} {arg} hm (one lo h ha hb) =
    rw (ha, hb) (head_bytes_one major arg hm lo h)
head_bytes-Form major {ai} {arg} hm (two b₁ b₀ h₁ h₀ e lo ha hb) =
    let d₁ : arg / 2 ^ 8 % 256 ≡ b₁ = omega arith in
    let d₀ : arg % 256 ≡ b₀ = omega arith in
    rw (ha, hb) (rw (d₁, d₀) at (head_bytes_two major arg hm lo (omega arith)))
head_bytes-Form major {ai} {arg} hm (four b₃ b₂ b₁ b₀ h₃ h₂ h₁ h₀ e lo ha hb) =
    let d₃ : arg / 2 ^ 24 % 256 ≡ b₃ = omega arith in
    let d₂ : arg / 2 ^ 16 % 256 ≡ b₂ = omega arith in
    let d₁ : arg / 2 ^ 8 % 256 ≡ b₁ = omega arith in
    let d₀ : arg % 256 ≡ b₀ = omega arith in
    rw (ha, hb) (rw (d₃, d₂, d₁, d₀) at (head_bytes_four major arg hm lo (omega arith)))
head_bytes-Form major {ai} {arg} hm
      (eight b₇ b₆ b₅ b₄ b₃ b₂ b₁ b₀ h₇ h₆ h₅ h₄ h₃ h₂ h₁ h₀ e lo ha hb) =
    let d₇ : arg / 2 ^ 56 % 256 ≡ b₇ = omega arith in
    let d₆ : arg / 2 ^ 48 % 256 ≡ b₆ = omega arith in
    let d₅ : arg / 2 ^ 40 % 256 ≡ b₅ = omega arith in
    let d₄ : arg / 2 ^ 32 % 256 ≡ b₄ = omega arith in
    let d₃ : arg / 2 ^ 24 % 256 ≡ b₃ = omega arith in
    let d₂ : arg / 2 ^ 16 % 256 ≡ b₂ = omega arith in
    let d₁ : arg / 2 ^ 8 % 256 ≡ b₁ = omega arith in
    let d₀ : arg % 256 ≡ b₀ = omega arith in
    rw (ha, hb) (rw (d₇, d₆, d₅, d₄, d₃, d₂, d₁, d₀) at (head_bytes_eight major arg hm lo))

-- Every uint64 has a form.
pub Form-exists : (arg : ℕ) → arg < 2 ^ 64 → (ai : ℕ) × (bs : List ℕ) × Form ai arg bs
Form-exists arg h = elim (dec_lt arg 24) [
  | yes p ↦ (_, _, immediate p refl refl)
  | no p ↦ elim (dec_lt arg (2 ^ 8)) [
    | yes p₁ ↦ (_, _, one (omega arith) p₁ refl refl)
    | no p₁ ↦ elim (dec_lt arg (2 ^ 16)) [
      | yes p₂ ↦ (
        _,
        _,
        two (arg / 2 ^ 8) (arg % 2 ^ 8) (omega arith) (omega arith) (omega arith) (omega arith) refl
            refl,
      )
      | no p₂ ↦ elim (dec_lt arg (2 ^ 32)) [
        | yes p₃ ↦ (
          _,
          _,
          four (arg / 2 ^ 24) (arg / 2 ^ 16 % 256) (arg / 2 ^ 8 % 256) (arg % 256) (omega arith)
              (omega arith) (omega arith) (omega arith) (omega arith) (omega arith) refl refl,
        )
        | no p₃ ↦ (
          _,
          _,
          eight (arg / 2 ^ 56) (arg / 2 ^ 48 % 256) (arg / 2 ^ 40 % 256) (arg / 2 ^ 32 % 256)
              (arg / 2 ^ 24 % 256) (arg / 2 ^ 16 % 256) (arg / 2 ^ 8 % 256) (arg % 256)
              (omega arith) (omega arith) (omega arith) (omega arith) (omega arith) (omega arith)
              (omega arith) (omega arith) (omega arith) (omega arith) refl refl,
        )
      ]
    ]
  ]
]
