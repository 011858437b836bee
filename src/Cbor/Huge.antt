-- ===== src/Cbor/Huge.antt =====
-- The only inputs on which cbor/decode.go panics.
mod Answers
mod Lengths
use murmur_go.Common.{
  ℕ, zero, suc, ◌+◌, ◌-◌, ◌>>=◌, ◌*◌, ◌/◌, ◌%◌, ◌^◌, ◌≤◌, ◌<◌, ◌≡◌, refl, sym, ap, ◌∙◌, Bool, true,
  false, not, ◌||◌, Option, none, some, List, [], ◌∷◌, ◌++◌, append_assoc, arith, length, take, ltb,
  ltb-false→le, ltb→lt, ◌==◌, ==_iff, if◌then◌else◌, bit_and, All, panics, ok, err, Result, map_err,
  Ensures, Ensures-bind, Crashes, answered, declined, because, Crashes-panics, Crashes-if,
  Crashes-weaken, Crashes-bind, map_err-Crashes, ◌⊎◌, inl, inr, anything, Bool-cases, le→ltb,
}
use murmur_go.Common.Bits.{low_five}
use murmur_go.Cbor.Value.{Value, int, text, Values, Entries}
use murmur_go.Cbor.Errors.{DecodeError}
use murmur_go.Cbor.Head.{head_bytes}
use murmur_go.Cbor.Head.Form.{IsByte, Form, head_bytes-Form}
use murmur_go.Cbor.Order.{compare_bytes}
use murmur_go.Cbor.Text.{validate_text, valid_string, has_byte_order_mark}
use murmur_go.Cbor.Encode.{max_depth}
use murmur_go.Cbor.Decode.{
  Decoder, Decoding, Previous, max_items, max_alloc, data_length, int_lt, int_min, make_panics,
  advance, take_uint, long_arg, read_arg, take_bytes, simple, array_loop, decode_array,
  check_key_kind, check_key_order, map_loop, decode_map, check_text, content, first_byte, item_body,
  item, decode,
}
use murmur_go.Cbor.Decode.Argument.{Consumed, read_arg-Ensures}
use murmur_go.Cbor.Decode.Reading.{
  Fits, Form-lt, Consumed-Fits, Consumed-trans, Consumed-are_bytes, take_bytes-Ensures,
}
use murmur_go.Cbor.Canonicity.Loops.{ReadsItem, array_loop-Ensures, map_loop-Ensures}
use murmur_go.Cbor.Canonicity.Items.{item-Ensures, Consumed-first}
use Prim.Native.Nat.{Ordering}
use Answers.{
  check_key_kind-Crashes, compared-Crashes, check_key_order-Crashes, take_uint-Crashes,
  long_arg-Crashes, read_arg-Crashes, simple-Crashes, check_text-Crashes,
}
use Lengths.{make_panics_guarded, capacity_guarded}

-- A head in the data that declares a string, an array or a map of such a length.
pub record Huge (rest : List ℕ) : Type 0 where
  pub before : List ℕ
  pub major : ℕ
  pub arg : ℕ
  pub more : List ℕ
  pub stands : rest ≡ before ++ (head_bytes major arg ++ more)
  pub sized : (2 ≤ major) × (major ≤ 5)
  pub huge : 2 ^ 63 ≤ arg + max_alloc
  pub fits : arg < 2 ^ 64

Huge-Consumed : {d d' : Decoder} {bs : List ℕ} → Consumed d d' bs → Huge d'.rest → Huge d.rest
Huge-Consumed {bs} c u = record {
  before = bs ++ u.before;
  major = u.major;
  arg = u.arg;
  more = u.more;
  stands = c.split ∙ ap (λ t. bs ++ t) u.stands ∙ sym (append_assoc bs u.before _);
  sized = u.sized;
  huge = u.huge;
  fits = u.fits;
}

module _ (is_nfc : List ℕ → Bool) (room : ℕ) (rec : Decoder → Decoding Value)
    (reads : (d : Decoder) → Fits d → Ensures (ReadsItem is_nfc room d) (rec d))
    (crashes : (d : Decoder) → Fits d → Crashes (Huge d.rest) (rec d)) where
  array_loop-Crashes : (n : ℕ) (d : Decoder) → Fits d → Crashes (Huge d.rest) (array_loop rec n d)
  unfolding array_loop
  array_loop-Crashes zero d f = answered
  array_loop-Crashes (suc n) d f = Crashes-bind (crashes d f) (reads d f) λ (v, d₁) (bs, c, enc).
      Crashes-weaken (Huge-Consumed c) (
        Crashes-bind (array_loop-Crashes n d₁ (Consumed-Fits c f)) (anything (array_loop rec n d₁))
          λ (vs, d₂) _. answered)

  map_loop-Crashes :
      (n : ℕ) (prev : Previous) (d : Decoder)
      → Fits d
      → Crashes (Huge d.rest) (map_loop rec n prev d)
  unfolding map_loop
  map_loop-Crashes zero prev d f = answered
  map_loop-Crashes (suc n) prev d f = Crashes-bind (crashes d f) (reads d f) λ (k, d₁) (ks, ck, _).
      Crashes-bind (check_key_kind-Crashes k prev d.pos) (anything (check_key_kind k prev d.pos))
        λ t _.
          let key = take (d₁.pos - d.pos) d.rest in
          Crashes-bind (check_key_order-Crashes prev key d.pos)
            (anything (check_key_order prev key d.pos))
            λ _ _.
              let f₁ = Consumed-Fits ck f in
              Crashes-weaken (Huge-Consumed ck) (
                Crashes-bind (crashes d₁ f₁) (reads d₁ f₁) λ (v, d₂) (vs, cv, _).
                  Crashes-weaken (Huge-Consumed cv) (
                    Crashes-bind (map_loop-Crashes n (some (t, key)) d₂ (Consumed-Fits cv f₁))
                      (anything (map_loop rec n (some (t, key)) d₂)) λ (es, d₃) _. answered))

  -- A length of its own, or one further on.
  abbrev Cause : ℕ → ℕ → Decoder → Type 0
  Cause major arg d = (((2 ≤ major) × (major ≤ 5)) × (2 ^ 63 ≤ arg + max_alloc)) ⊎ Huge d.rest

  own_length :
      (major n arg : ℕ) (d : Decoder)
      → (major == n) ≡ true
      → 2 ≤ n
      → n ≤ 5
      → 2 ^ 63 ≤ arg + max_alloc
      → Cause major arg d
  own_length major n arg d e lo hi huge =
      let same = (==_iff major n).0 e in
      inl ((omega (arith, same, lo), omega (arith, same, hi)), huge)

  take_bytes-Crashes :
      (arg p : ℕ) (d : Decoder)
      → Fits d
      → arg < 2 ^ 64
      → Crashes (2 ^ 63 ≤ arg + max_alloc) (take_bytes arg p d)
  unfolding take_bytes
  take_bytes-Crashes arg p d f h =
      Crashes-if (int_lt (data_length d) ((d.pos + arg) % 2 ^ 64)) (λ _. declined)
        λ long.
          Crashes-if (make_panics arg)
            (λ made. because (make_panics_guarded d.pos (length d.rest) arg f.short h long made))
            (λ _. answered)

  content-Crashes :
      (major arg p : ℕ) (d : Decoder)
      → Fits d
      → arg < 2 ^ 64
      → Crashes (Cause major arg d) (content is_nfc rec major arg p d)
  unfolding content decode_array decode_map
  content-Crashes major arg p d f h =
      Crashes-if (major == 0) (λ _. answered)
        λ _.
          Crashes-if (major == 1) (λ _. answered)
            λ _.
              Crashes-if (major == 2)
                (λ e.
                  Crashes-bind
                    (Crashes-weaken (own_length major 2 arg d e (omega arith) (omega arith))
                      (take_bytes-Crashes arg p d f h))
                    (anything (take_bytes arg p d)) λ (raw, d₁) _. answered)
                λ _.
                  Crashes-if (major == 3)
                    (λ e.
                      Crashes-bind
                        (Crashes-weaken (own_length major 3 arg d e (omega arith) (omega arith))
                          (take_bytes-Crashes arg p d f h))
                        (anything (take_bytes arg p d))
                        λ (raw, d₁) _.
                          Crashes-bind (check_text-Crashes is_nfc raw p)
                            (anything (check_text is_nfc raw p)) λ _ _. answered)
                    λ _.
                      Crashes-if (major == 4)
                        (λ e.
                          Crashes-if (make_panics (int_min arg 1024))
                            (λ made. because (
                              own_length major 4 arg d e (omega arith) (omega arith)
                                (capacity_guarded arg h made)))
                            λ _.
                              Crashes-bind (Crashes-weaken inr (array_loop-Crashes arg d f))
                                (anything (array_loop rec arg d)) λ (vs, d₁) _. answered)
                        λ _.
                          Crashes-if (major == 5)
                            (λ e.
                              Crashes-if (make_panics (int_min arg 1024))
                                (λ made. because (
                                  own_length major 5 arg d e (omega arith) (omega arith)
                                    (capacity_guarded arg h made)))
                                λ _.
                                  Crashes-bind (Crashes-weaken inr (map_loop-Crashes arg none d f))
                                    (anything (map_loop rec arg none d)) λ (es, d₁) _. answered)
                            λ _. declined

  -- A length behind the head of an item is one in the data of the item.
  Huge-Cause :
      (major arg : ℕ) (d d₁ : Decoder) (b : ℕ) (hs : List ℕ)
      → head_bytes major arg ≡ b ∷ hs
      → Consumed d d₁ (b ∷ hs)
      → arg < 2 ^ 64
      → Cause major arg d₁
      → Huge d.rest
  Huge-Cause major arg d d₁ b hs head c fits (inl (sized, huge)) = record {
    before = [];
    major = major;
    arg = arg;
    more = d₁.rest;
    stands = c.split ∙ ap (λ t. t ++ d₁.rest) (sym head);
    sized = sized;
    huge = huge;
    fits = fits;
  }
  Huge-Cause major arg d d₁ b hs head c fits (inr u) = Huge-Consumed c u

  headed-Crashes :
      (b : ℕ) {bs : List ℕ} (d : Decoder)
      → d.rest ≡ b ∷ bs
      → Fits d
      → Crashes (Huge d.rest) (
          read_arg (b % 32) d.pos (advance 1 d) >>= λ (arg, d₁).
          content is_nfc rec (b / 2 ^ 5) arg d.pos d₁)
  headed-Crashes b d e f =
      let c₀ = Consumed-first d e in
      let f₁ : Fits (advance 1 d) = Consumed-Fits c₀ f in
      let b-IsByte : IsByte b = (Consumed-are_bytes c₀ f).0 in
      Crashes-bind (read_arg-Crashes (b % 32) d.pos (advance 1 d))
        (read_arg-Ensures (b % 32) d.pos (advance 1 d) f₁.are_bytes)
        λ (arg, d₁) (hs, c₁, form).
          let first : b / 2 ^ 5 * 32 + b % 32 ≡ b = omega arith in
          let head : head_bytes (b / 2 ^ 5) arg ≡ b ∷ hs =
            rw first at (head_bytes-Form (b / 2 ^ 5) (omega arith) form) in
          Crashes-weaken
            (Huge-Cause (b / 2 ^ 5) arg d d₁ b hs head (Consumed-trans c₀ c₁) (Form-lt form))
            (content-Crashes (b / 2 ^ 5) arg d.pos d₁ (Consumed-Fits c₁ f₁) (Form-lt form))

  first_byte-Crashes :
      (rest : List ℕ) (d : Decoder)
      → d.rest ≡ rest
      → Fits d
      → Crashes (Huge d.rest) (first_byte is_nfc rec rest d)
  unfolding first_byte
  first_byte-Crashes [] d e f = declined
  first_byte-Crashes (b ∷ bs) d e f =
      let b-IsByte : IsByte b = (Consumed-are_bytes (Consumed-first d e) f).0 in
      rw (low_five b b-IsByte) (
        Crashes-if (b / 2 ^ 5 == 7) (λ _. simple-Crashes (b % 32) d)
          λ _. Crashes-if (b / 2 ^ 5 == 6) (λ _. declined) λ _. headed-Crashes b d e f)

  item_body-Crashes : (d : Decoder) → Fits d → Crashes (Huge d.rest) (item_body is_nfc rec d)
  unfolding item_body
  item_body-Crashes d f =
      Crashes-if (ltb max_items (d.items + 1)) (λ _. declined)
        λ _.
          first_byte-Crashes d.rest (record d { items = d.items + 1 }) refl
            (record { are_bytes = f.are_bytes; short = f.short })

item-Crashes :
    (is_nfc : List ℕ → Bool) (room : ℕ) (d : Decoder)
    → Fits d
    → Crashes (Huge d.rest) (item is_nfc room d)
unfolding item
item-Crashes is_nfc zero d f = declined
item-Crashes is_nfc (suc room) d f =
    item_body-Crashes is_nfc room (item is_nfc room) (item-Ensures is_nfc room)
      (item-Crashes is_nfc room) d f

decode-Crashes :
    (is_nfc : List ℕ → Bool) (input : List ℕ)
    → All IsByte input
    → length input ≤ max_alloc
    → Crashes (Huge input) (decode is_nfc input)
unfolding decode
decode-Crashes is_nfc input hb hs =
    let d : Decoder = record { rest = input; pos = 0; items = 0 } in
    let f : Fits d = record { are_bytes = hb; short = omega arith } in
    Crashes-bind (item-Crashes is_nfc (max_depth + 1) d f)
      (anything (item is_nfc (max_depth + 1) d))
      λ (v, d₁) _. Crashes-if (not (d₁.pos == length input)) (λ _. declined) (λ _. answered)

-- Of bytes, no longer than a slice can be, on which Decode panics, some stretch is the head of a byte
-- string, a text, an array or a map of a length that, with the most that a slice can be added, is 2^63
-- or more. On all other bytes Decode answers with a value or an error.
pub decode-Huge :
    (is_nfc : List ℕ → Bool) (input : List ℕ)
    → All IsByte input
    → length input ≤ max_alloc
    → decode is_nfc input ≡ panics
    → Huge input
decode-Huge is_nfc input hb hs h = Crashes-panics (decode-Crashes is_nfc input hb hs) h
