-- ===== src/Cbor/RoundTrip/Heads.antt =====
-- The decoder of cbor/decode.go on a head that the encoder wrote, and on a string behind it.
use murmur_go.Common.{
  ℕ, suc, ◌+◌, ◌*◌, ◌/◌, ◌%◌, ◌^◌, ◌≤◌, ◌<◌, ◌≡◌, ◌∙◌, Bool, false, List, ◌∷◌, ◌++◌, arith, length,
  length-append, take-length-append, drop-length-append, le→ltb, ok, bit_and, ne→==, Bool-cases,
  inl, inr,
}
use murmur_go.Common.Bits.{low_five}
use murmur_go.Cbor.Value.{Value}
use murmur_go.Cbor.Head.{head_bytes}
use murmur_go.Cbor.Head.Form.{Form, immediate, one, two, four, eight, head_bytes-Form, Form-exists}
use murmur_go.Cbor.Decode.{
  Decoder, Decoding, max_items, max_alloc, content, first_byte, item_body, item, take_bytes, int_lt,
  int_min, make_panics,
}
use murmur_go.Cbor.Decode.Argument.{read_arg-Form}

Form-ai : {ai arg : ℕ} {bs : List ℕ} → Form ai arg bs → ai < 32
Form-ai (immediate h ha hb) = omega arith
Form-ai (one lo h ha hb) = omega arith
Form-ai (two b₁ b₀ h₁ h₀ e lo ha hb) = omega arith
Form-ai (four b₃ b₂ b₁ b₀ h₃ h₂ h₁ h₀ e lo ha hb) = omega arith
Form-ai (eight b₇ b₆ b₅ b₄ b₃ b₂ b₁ b₀ h₇ h₆ h₅ h₄ h₃ h₂ h₁ h₀ e lo ha hb) = omega arith

-- The decoder in front of `bs` and what follows, and behind `bs`.
abbrev pub at : ℕ → ℕ → List ℕ → Decoder
at pos items rest = record { rest = rest; pos = pos; items = items }

module _ (is_nfc : List ℕ → Bool) (rec : Decoder → Decoding Value) where
  first_byte-Form :
      (major : ℕ) {ai arg : ℕ} {hs : List ℕ} (pos items : ℕ) (more : List ℕ)
      → major < 6
      → Form ai arg hs
      → first_byte is_nfc rec
          ((major * 32 + ai) ∷ (hs ++ more))
          (at pos items ((major * 32 + ai) ∷ (hs ++ more)))
        ≡ content is_nfc rec major arg pos (at (pos + 1 + length hs) items more)
  unfolding first_byte
  first_byte-Form major {ai} {arg} {hs} pos items more hm form =
      let small : ai < 32 = Form-ai form in
      let high : (major * 32 + ai) / 2 ^ 5 ≡ major = omega arith in
      let low : bit_and (major * 32 + ai) 0x1f ≡ ai =
        low_five (major * 32 + ai) (omega arith) ∙ omega arith in
      rw (high, low, ne→== major 7 (omega arith), ne→== major 6 (omega arith))
        (rw (read_arg-Form pos (pos + 1) items more form))

-- `item` on a head written for a major type below 6.
pub item-head :
    (is_nfc : List ℕ → Bool) (room major arg pos items : ℕ) (more : List ℕ)
    → major < 6
    → arg < 2 ^ 64
    → items < max_items
    → item is_nfc (suc room) (at pos items (head_bytes major arg ++ more))
      ≡ content is_nfc
          (item is_nfc room)
          major
          arg
          pos
          (at (pos + length (head_bytes major arg)) (items + 1) more)
unfolding item item_body
item-head is_nfc room major arg pos items more hm ha hi =
    let (ai, hs, form) = Form-exists arg ha in
    let moved : pos + 1 + length hs ≡ pos + suc (length hs) = omega arith in
    rw (head_bytes-Form major (omega arith) form, le→ltb max_items (items + 1) (omega arith))
      (first_byte-Form is_nfc (item is_nfc room) major pos (items + 1) more hm form ∙ rw moved)

make_panics-small : (n : ℕ) → n ≤ max_alloc → make_panics n ≡ false
make_panics-small n h = rw (
  le→ltb ((n + 2 ^ 63) % 2 ^ 64) (2 ^ 63) (omega arith),
  le→ltb ((max_alloc + 2 ^ 63) % 2 ^ 64) ((n + 2 ^ 63) % 2 ^ 64) (omega arith),
)

-- The capacity that `array` and `mapValue` ask for is small.
pub capacity_small : (n : ℕ) → n ≤ max_items → make_panics (int_min n 1024) ≡ false
capacity_small n h = make_panics-small (int_min n 1024) (elim (Bool-cases (int_lt n 1024)) [
  | inl less ↦ rw less (omega arith)
  | inr more ↦ rw more (omega arith)
])

-- `bytes` reads back a string that is there.
pub take_bytes-append :
    (raw more : List ℕ) (head_pos pos items : ℕ)
    → pos + length (raw ++ more) ≤ max_alloc
    → take_bytes (length raw) head_pos (at pos items (raw ++ more))
      ≡ ok (raw, at (pos + length raw) items more)
unfolding take_bytes
take_bytes-append raw more head_pos pos items h =
    let size = length-append raw more in
    let there : int_lt (pos + length (raw ++ more)) ((pos + length raw) % 2 ^ 64) ≡ false =
      le→ltb _ _ (omega (arith, size)) in
    let made : make_panics (length raw) ≡ false =
      make_panics-small (length raw) (omega (arith, size)) in
    rw (there, made, take-length-append raw more, drop-length-append raw more)
