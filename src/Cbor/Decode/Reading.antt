-- ===== src/Cbor/Decode/Reading.antt =====
-- What a successful read of cbor/decode.go takes off its data.
use murmur_go.Common.{
  ℕ, ◌+◌, ◌%◌, ◌^◌, ◌≤◌, ◌<◌, ◌≡◌, sym, ap, ◌∙◌, Bool, false, List, ◌++◌, append_assoc, arith,
  length, All, All-append_right, All-append_left, length-append, ltb-false→le, Ensures, returned,
  refused, crashed, Ensures-if, take, take-append-drop, length-take_le, take-length-append, ◌||◌,
  ◌-◌,
}
use murmur_go.Cbor.Head.Form.{IsByte, Form, immediate, one, two, four, eight}
use murmur_go.Cbor.Decode.{Decoder, data_length, max_alloc, int_lt, make_panics, take_bytes}
use murmur_go.Cbor.Decode.Argument.{Consumed}

-- The data are bytes, and no more than a slice can hold.
pub record Fits (d : Decoder) : Type 0 where
  pub are_bytes : All IsByte d.rest
  pub short : data_length d ≤ max_alloc

pub Form-lt : {ai arg : ℕ} {bs : List ℕ} → Form ai arg bs → arg < 2 ^ 64
Form-lt (immediate h ha hb) = omega arith
Form-lt (one lo h ha hb) = omega arith
Form-lt (two b₁ b₀ h₁ h₀ e lo ha hb) = omega arith
Form-lt (four b₃ b₂ b₁ b₀ h₃ h₂ h₁ h₀ e lo ha hb) = omega arith
Form-lt (eight b₇ b₆ b₅ b₄ b₃ b₂ b₁ b₀ h₇ h₆ h₅ h₄ h₃ h₂ h₁ h₀ e lo ha hb) = omega arith

module _ {d d' : Decoder} {bs : List ℕ} (c : Consumed d d' bs) where
  pub Consumed-Fits : Fits d → Fits d'
  Consumed-Fits f = record {
    are_bytes = All-append_right IsByte bs d'.rest (rw (sym c.split) f.are_bytes);
    short = omega (arith, f.short, c.moved, ap length c.split, length-append bs d'.rest);
  }

  pub Consumed-are_bytes : Fits d → All IsByte bs
  Consumed-are_bytes f = All-append_left IsByte bs d'.rest (rw (sym c.split) f.are_bytes)

  -- The slice `data[d.pos:d'.pos]`.
  pub take-Consumed : take (d'.pos - d.pos) d.rest ≡ bs
  take-Consumed =
      let size : d'.pos - d.pos ≡ length bs = omega (arith, c.moved) in
      rw (size, c.split) (take-length-append bs d'.rest)

pub Consumed-trans :
    {d d₁ d₂ : Decoder} {bs cs : List ℕ}
    → Consumed d d₁ bs
    → Consumed d₁ d₂ cs
    → Consumed d d₂ (bs ++ cs)
Consumed-trans {d₂} {bs} {cs} c c' = record {
  split = c.split ∙ ap (λ t. bs ++ t) c'.split ∙ sym (append_assoc bs cs d₂.rest);
  moved = omega (arith, c.moved, c'.moved, length-append bs cs);
}

or_false : (a b : Bool) → (a || b) ≡ false → (a ≡ false) × (b ≡ false)
or_false a b h = ground arith

-- A length that passes both guards is a length that is there.
made_within :
    (start len arg : ℕ)
    → start + len ≤ max_alloc
    → arg < 2 ^ 64
    → int_lt (start + len) ((start + arg) % 2 ^ 64) ≡ false
    → make_panics arg ≡ false
    → arg ≤ len
made_within start len arg fits h long made =
    let (not_neg, not_huge) = or_false (int_lt arg 0) (int_lt max_alloc arg) made in
    omega (
      arith,
      ltb-false→le ((start + len + 2 ^ 63) % 2 ^ 64) (((start + arg) % 2 ^ 64 + 2 ^ 63) % 2 ^ 64)
          long,
      ltb-false→le ((arg + 2 ^ 63) % 2 ^ 64) (2 ^ 63) not_neg,
      ltb-false→le ((max_alloc + 2 ^ 63) % 2 ^ 64) ((arg + 2 ^ 63) % 2 ^ 64) not_huge,
    )

-- `bytes` fails, panics, or takes as many bytes as it was asked for.
pub take_bytes-Ensures :
    (arg head_pos : ℕ) (d : Decoder)
    → Fits d
    → arg < 2 ^ 64
    → Ensures (λ (raw, d'). Consumed d d' raw × (length raw ≡ arg)) (take_bytes arg head_pos d)
unfolding take_bytes
take_bytes-Ensures arg head_pos d f h =
    Ensures-if (int_lt (data_length d) ((d.pos + arg) % 2 ^ 64)) (λ _. refused)
      λ long.
        Ensures-if (make_panics arg) (λ _. crashed)
          λ made.
            let within : arg ≤ length d.rest =
              made_within d.pos (length d.rest) arg f.short h long made in
            let size : length (take arg d.rest) ≡ arg = length-take_le arg d.rest within in
            returned (
              record {
                split = sym (take-append-drop arg d.rest);
                moved = ap (λ (t : ℕ). d.pos + t) (sym size);
              },
              size,
            )
