-- ===== src/Cbor/Canonicity/Items.antt =====
-- `item` of cbor/decode.go: what it returns, the encoder writes as the bytes it took.
use murmur_go.Common.{
  ℕ, zero, suc, ◌+◌, ◌*◌, ◌/◌, ◌%◌, ◌^◌, ◌≤◌, ◌<◌, ◌≡◌, refl, ap, ◌∙◌, Bool, false, List, [], ◌∷◌,
  ◌++◌, append_assoc, arith, length, ok, ◌>>=◌, Ensures, returned, refused, crashed, Ensures-bind,
  Ensures-if, Ensures-weaken, ◌==◌, ==_iff, ltb, leb, map_err-Ensures, append-nil, ◌||◌, none,
}
use murmur_go.Common.Bits.{low_five}
use murmur_go.Common.Int.{pos, negsuc}
use murmur_go.Cbor.Value.{Value, Values, Entries, int, bytes, text, array, map, count}
use murmur_go.Cbor.Head.{head_bytes}
use murmur_go.Cbor.Head.Form.{IsByte, head_bytes-Form}
use murmur_go.Cbor.Text.{validate_text}
use murmur_go.Cbor.Order.{Encoded}
use murmur_go.Cbor.Order.Laws.{AscendsFrom}
use murmur_go.Cbor.Encode.{max_depth, Buffer, value, array_items, encode_entries, integer, head}
use murmur_go.Cbor.Encode.Buffer.{flat, write_map-AscendsFrom, guard_depth-ok}
use murmur_go.Cbor.Decode.{
  Decoder, Decoding, advance, simple, content, first_byte, item_body, item, decode_array,
  decode_map, read_arg, check_text, max_items, make_panics, int_min,
}
use murmur_go.Cbor.Decode.Argument.{Consumed, read_arg-Ensures}
use murmur_go.Cbor.Decode.Reading.{
  Fits, Form-lt, Consumed-are_bytes, Consumed-Fits, Consumed-trans, take_bytes-Ensures,
}
use murmur_go.Cbor.Canonicity.Loops.{ReadsItem, array_loop-Ensures, map_loop-Ensures}

leb_lt : (arg : ℕ) → arg < 2 ^ 64 → leb (2 ^ 64) arg ≡ false
leb_lt arg h = ground arith

check_text-Ensures :
    (is_nfc : List ℕ → Bool) (s : List ℕ) (at : ℕ)
    → Ensures (λ _. validate_text is_nfc s ≡ ok tt) (check_text is_nfc s at)
unfolding check_text
check_text-Ensures is_nfc s at = map_err-Ensures _ (validate_text is_nfc s)

-- The head of `arg` in front of a value's own bytes.
module _ (is_nfc : List ℕ → Bool) (room major arg : ℕ) where
  abbrev HeadThen : Value → List ℕ → Type 0
  HeadThen v bs =
      (depth : ℕ) (buf : Buffer)
      → depth + suc room ≡ max_depth + 1
      → value is_nfc v depth buf ≡ ok ((buf ++ head_bytes major arg) ++ bs)

  -- `content` on the data behind the head.
  abbrev ReadsContent : Decoder → Value × Decoder → Type 0
  ReadsContent d (v, d') = (bs : List ℕ) × Consumed d d' bs × HeadThen v bs

  within : (depth : ℕ) → depth + suc room ≡ max_depth + 1 → depth ≤ max_depth
  within depth h = omega arith

  HeadThen-int : major ≡ 0 → arg < 2 ^ 64 → HeadThen (int (pos arg)) []
  unfolding value integer head
  HeadThen-int e ha depth buf h =
      guard_depth-ok depth _ (within depth h) ∙ rw (leb_lt arg ha, e, append-nil)

  HeadThen-negative : major ≡ 1 → arg < 2 ^ 64 → HeadThen (int (negsuc arg)) []
  unfolding value integer head
  HeadThen-negative e ha depth buf h =
      guard_depth-ok depth _ (within depth h) ∙ rw (leb_lt arg ha, e, append-nil)

  HeadThen-bytes : (raw : List ℕ) → major ≡ 2 → length raw ≡ arg → HeadThen (bytes raw) raw
  unfolding value head
  HeadThen-bytes raw e size depth buf h = guard_depth-ok depth _ (within depth h) ∙ rw (size, e)

  HeadThen-text :
      (raw : List ℕ)
      → major ≡ 3
      → length raw ≡ arg
      → validate_text is_nfc raw ≡ ok tt
      → HeadThen (text raw) raw
  unfolding value head
  HeadThen-text raw e size valid depth buf h =
      guard_depth-ok depth _ (within depth h) ∙ rw (valid, size, e)

  HeadThen-array :
      (vs : Values) (bs : List ℕ)
      → major ≡ 4
      → count vs ≡ arg
      → ((depth : ℕ) (buf : Buffer)
          → depth + room ≡ max_depth + 1
          → array_items is_nfc vs depth buf ≡ ok (buf ++ bs))
      → HeadThen (array vs) bs
  unfolding value head
  HeadThen-array vs bs e size encs depth buf h =
      guard_depth-ok depth _ (within depth h)
      ∙ rw (size, encs (depth + 1) (buf ++ head_bytes 4 arg) (omega arith), e)

  HeadThen-map :
      (es : Entries) (ps : List Encoded)
      → major ≡ 5
      → length ps ≡ arg
      → AscendsFrom none ps
      → ((depth : ℕ) → depth + room ≡ max_depth + 1 → encode_entries is_nfc es depth none ≡ ok ps)
      → HeadThen (map es) (flat ps)
  unfolding value
  HeadThen-map es ps e size ascends encs depth buf h =
      guard_depth-ok depth _ (within depth h)
      ∙ rw (encs (depth + 1) (omega arith))
          (rw (write_map-AscendsFrom none ps buf ascends, size, e, append_assoc))

  module _ (rec : Decoder → Decoding Value)
      (reads : (d : Decoder) → Fits d → Ensures (ReadsItem is_nfc room d) (rec d)) where
    pub content-Ensures :
        (at : ℕ) (d : Decoder)
        → arg < 2 ^ 64
        → Fits d
        → Ensures (ReadsContent d) (content is_nfc rec major arg at d)
    unfolding content decode_array decode_map
    content-Ensures at d ha f =
        Ensures-if (major == 0)
          (λ e. returned (
            [],
            record { split = refl; moved = omega arith },
            HeadThen-int ((==_iff major 0).0 e) ha,
          ))
          λ _.
            Ensures-if (major == 1)
              (λ e. returned (
                [],
                record { split = refl; moved = omega arith },
                HeadThen-negative ((==_iff major 1).0 e) ha,
              ))
              λ _.
                Ensures-if (major == 2)
                  (λ e. Ensures-bind (take_bytes-Ensures arg at d f ha) λ (raw, d₁) (c, size).
                    returned (raw, c, HeadThen-bytes raw ((==_iff major 2).0 e) size))
                  λ _.
                    Ensures-if (major == 3)
                      (λ e. Ensures-bind (take_bytes-Ensures arg at d f ha) λ (raw, d₁) (c, size).
                        Ensures-bind (check_text-Ensures is_nfc raw at) λ _ valid.
                          returned (raw, c, HeadThen-text raw ((==_iff major 3).0 e) size valid))
                      λ _.
                        Ensures-if (major == 4)
                          (λ e.
                            Ensures-if (make_panics (int_min arg 1024)) (λ _. crashed)
                              λ _.
                                Ensures-bind (array_loop-Ensures is_nfc room rec reads arg d f)
                                  λ (vs, d₁) (bs, c, size, encs).
                                    returned (
                                      bs,
                                      c,
                                      HeadThen-array vs bs ((==_iff major 4).0 e) size encs,
                                    ))
                          λ _.
                            Ensures-if (major == 5)
                              (λ e.
                                Ensures-if (make_panics (int_min arg 1024)) (λ _. crashed)
                                  λ _.
                                    Ensures-bind
                                      (map_loop-Ensures is_nfc room rec reads arg none d f)
                                      λ (es, d₁) (ps, c, size, ascends, encs). returned (
                                        flat ps,
                                        c,
                                        HeadThen-map es ps ((==_iff major 5).0 e) size ascends encs,
                                      ))
                              λ _. refused

pub Consumed-first :
    (d : Decoder) {b : ℕ} {bs : List ℕ} → d.rest ≡ b ∷ bs → Consumed d (advance 1 d) (b ∷ [])
Consumed-first d e = record { split = rw e; moved = refl }

module _ (is_nfc : List ℕ → Bool) (room : ℕ) where
  simple-Ensures :
      (b : ℕ) {bs : List ℕ} (d : Decoder)
      → d.rest ≡ b ∷ bs
      → b / 2 ^ 5 ≡ 7
      → Ensures (ReadsItem is_nfc (suc room) d) (simple (b % 32) d)
  unfolding simple value
  simple-Ensures b d e seven =
      Ensures-if (b % 32 == 20)
        (λ h. returned (
          b ∷ [],
          Consumed-first d e,
          λ depth buf within.
              guard_depth-ok depth _ (omega arith)
              ∙ ap (λ (t : ℕ). ok (buf ++ t ∷ [])) (omega (arith, (==_iff (b % 32) 20).0 h)),
        ))
        λ _.
          Ensures-if (b % 32 == 21)
            (λ h. returned (
              b ∷ [],
              Consumed-first d e,
              λ depth buf within.
                  guard_depth-ok depth _ (omega arith)
                  ∙ ap (λ (t : ℕ). ok (buf ++ t ∷ [])) (omega (arith, (==_iff (b % 32) 21).0 h)),
            ))
            λ _.
              Ensures-if (b % 32 == 22 || b % 32 == 23) (λ _. refused)
                λ _.
                  Ensures-if (b % 32 == 25 || b % 32 == 26 || b % 32 == 27) (λ _. refused)
                    λ _. Ensures-if (b % 32 == 31) (λ _. refused) λ _. refused

  module _ (rec : Decoder → Decoding Value)
      (reads : (d : Decoder) → Fits d → Ensures (ReadsItem is_nfc room d) (rec d)) where
    headed-Ensures :
        (b : ℕ) {bs : List ℕ} (d : Decoder)
        → d.rest ≡ b ∷ bs
        → Fits d
        → Ensures (ReadsItem is_nfc (suc room) d) (
            read_arg (b % 32) d.pos (advance 1 d) >>= λ (arg, d₁).
            content is_nfc rec (b / 2 ^ 5) arg d.pos d₁)
    headed-Ensures b d e f =
        let c₀ = Consumed-first d e in
        let f₁ : Fits (advance 1 d) = Consumed-Fits c₀ f in
        let b-IsByte : IsByte b = (Consumed-are_bytes c₀ f).0 in
        Ensures-bind (read_arg-Ensures (b % 32) d.pos (advance 1 d) f₁.are_bytes)
          λ (arg, d₁) (hs, c₁, form).
            let first : b / 2 ^ 5 * 32 + b % 32 ≡ b = omega arith in
            let head : head_bytes (b / 2 ^ 5) arg ≡ b ∷ hs =
              rw first at (head_bytes-Form (b / 2 ^ 5) (omega arith) form) in
            Ensures-weaken
              (λ (v, d₂) (bs, c₂, enc). (
                (b ∷ []) ++ (hs ++ bs),
                Consumed-trans c₀ (Consumed-trans c₁ c₂),
                λ depth buf h. enc depth buf h ∙ rw (head, append_assoc),
              ))
              (content-Ensures is_nfc room (b / 2 ^ 5) arg rec reads d.pos d₁ (Form-lt form)
                (Consumed-Fits c₁ f₁))

    first_byte-Ensures :
        (rest : List ℕ) (d : Decoder)
        → d.rest ≡ rest
        → Fits d
        → Ensures (ReadsItem is_nfc (suc room) d) (first_byte is_nfc rec rest d)
    unfolding first_byte
    first_byte-Ensures [] d e f = refused
    first_byte-Ensures (b ∷ bs) d e f =
        let b-IsByte : IsByte b = (Consumed-are_bytes (Consumed-first d e) f).0 in
        rw (low_five b b-IsByte) (
          Ensures-if (b / 2 ^ 5 == 7) (λ h. simple-Ensures b d e ((==_iff (b / 2 ^ 5) 7).0 h))
            λ _. Ensures-if (b / 2 ^ 5 == 6) (λ _. refused) λ _. headed-Ensures b d e f)

    item_body-Ensures :
        (d : Decoder) → Fits d → Ensures (ReadsItem is_nfc (suc room) d) (item_body is_nfc rec d)
    unfolding item_body
    item_body-Ensures d f =
        Ensures-if (ltb max_items (d.items + 1)) (λ _. refused)
          λ _.
            Ensures-weaken
              (λ (v, d') (bs, c, enc). (bs, record { split = c.split; moved = c.moved }, enc))
              (first_byte-Ensures d.rest (record d { items = d.items + 1 }) refl
                (record { are_bytes = f.are_bytes; short = f.short }))

-- `item` at a depth that leaves `room`.
pub item-Ensures :
    (is_nfc : List ℕ → Bool) (room : ℕ) (d : Decoder)
    → Fits d
    → Ensures (ReadsItem is_nfc room d) (item is_nfc room d)
unfolding item
item-Ensures is_nfc zero d f = refused
item-Ensures is_nfc (suc room) d f =
    item_body-Ensures is_nfc room (item is_nfc room) (item-Ensures is_nfc room) d f
