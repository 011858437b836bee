-- ===== src/Cbor/Bounds.antt =====
-- The limits that cbor/decode.go keeps to: MaxItems and MaxDepth.
use murmur_go.Common.{
  ℕ, zero, suc, ◌+◌, ◌/◌, ◌%◌, ◌^◌, ◌≤◌, ◌≡◌, refl, Bool, List, [], ◌∷◌, arith, ltb, leb,
  ltb-false→le, ◌==◌, ◌||◌, not, bit_and, if◌then◌else◌, ok, length, Ensures, Ensures-ok, returned,
  refused, crashed, Ensures-if, Ensures-bind, Ensures-weaken, anything,
}
use murmur_go.Cbor.Value.{Value, Values, Entries, array, map, nil, cons, end, entry}
use murmur_go.Cbor.Encode.{max_depth}
use murmur_go.Cbor.Decode.{
  Decoder, Decoding, Previous, max_items, data_length, int_lt, int_min, make_panics, take_loop,
  take_uint, long_arg, read_arg, take_bytes, simple, array_loop, decode_array, check_key_kind,
  check_key_order, map_loop, decode_map, check_text, content, first_byte, item_body, item, decode,
  advance,
}
use murmur_go.Cbor.Wire.{size, size_items, size_entries}

abbrev max : ℕ → ℕ → ℕ
max a b = if leb a b then b else a

max_le : (a b c : ℕ) → a ≤ c → b ≤ c → max a b ≤ c
max_le a b c h k = ground arith

-- How many values stand in one another.
unfoldable mutual
  pub nesting : Value → ℕ
  nesting (array vs) = 1 + nesting_items vs
  nesting (map es) = 1 + nesting_entries es
  nesting _ = 1

  pub nesting_items : Values → ℕ
  nesting_items nil = 0
  nesting_items (cons v vs) = max (nesting v) (nesting_items vs)

  pub nesting_entries : Entries → ℕ
  nesting_entries end = 0
  nesting_entries (entry k v es) = max (nesting k) (max (nesting v) (nesting_entries es))

-- The count of items grew by `n`, and is within the limit.
record Grew (d d' : Decoder) (n : ℕ) : Type 0 where
  grown : d'.items ≡ d.items + n
  limited : d'.items ≤ max_items

abbrev Counts : ℕ → Decoder → Value × Decoder → Type 0
Counts room d (v, d') = Grew d d' (size v) × (nesting v ≤ room)

abbrev Keeps : {A : Type 0} → Decoder → A × Decoder → Type 0
Keeps d (a, d') = d'.items ≡ d.items

take_uint-Keeps : (n p : ℕ) (d : Decoder) → Ensures (Keeps d) (take_uint n p d)
unfolding take_uint
take_uint-Keeps n p d =
    Ensures-if (ltb (data_length d) (d.pos + n)) (λ _. refused)
      (λ _. Ensures-bind (anything (take_loop n d.rest 0)) (λ v _. returned refl))

long_arg-Keeps : (n least p : ℕ) (d : Decoder) → Ensures (Keeps d) (long_arg n least p d)
unfolding long_arg
long_arg-Keeps n least p d =
    Ensures-bind (take_uint-Keeps n p d)
      λ (v, d₁) k. Ensures-if (ltb v least) (λ _. refused) (λ _. returned k)

read_arg-Keeps : (ai p : ℕ) (d : Decoder) → Ensures (Keeps d) (read_arg ai p d)
unfolding read_arg
read_arg-Keeps ai p d =
    Ensures-if (ltb ai 24) (λ _. returned refl)
      λ _.
        Ensures-if (ai == 24) (λ _. long_arg-Keeps 1 24 p d)
          λ _.
            Ensures-if (ai == 25) (λ _. long_arg-Keeps 2 (2 ^ 8) p d)
              λ _.
                Ensures-if (ai == 26) (λ _. long_arg-Keeps 4 (2 ^ 16) p d)
                  λ _.
                    Ensures-if (ai == 27) (λ _. long_arg-Keeps 8 (2 ^ 32) p d)
                      λ _. Ensures-if (ai == 31) (λ _. refused) (λ _. refused)

take_bytes-Keeps : (arg p : ℕ) (d : Decoder) → Ensures (Keeps d) (take_bytes arg p d)
unfolding take_bytes
take_bytes-Keeps arg p d =
    Ensures-if (int_lt (data_length d) ((d.pos + arg) % 2 ^ 64)) (λ _. refused)
      λ _. Ensures-if (make_panics arg) (λ _. crashed) (λ _. returned refl)

-- A value alone.
alone : (d : Decoder) → d.items ≤ max_items → Grew d d 0
alone d h = record { grown = omega arith; limited = h }

module _ (room : ℕ) (rec : Decoder → Decoding Value)
    (counts : (d : Decoder) → Ensures (Counts room d) (rec d)) where
  array_loop-Counts :
      (n : ℕ) (d : Decoder)
      → d.items ≤ max_items
      → Ensures
          (λ (vs, d'). Grew d d' (size_items vs) × (nesting_items vs ≤ room))
          (array_loop rec n d)
  unfolding array_loop size nesting
  array_loop-Counts zero d h = returned (alone d h, omega arith)
  array_loop-Counts (suc n) d h = Ensures-bind (counts d) λ (v, d₁) (g, deep).
      Ensures-bind (array_loop-Counts n d₁ g.limited) λ (vs, d₂) (gs, deeps). returned (
        record { grown = omega (arith, g.grown, gs.grown); limited = gs.limited },
        max_le (nesting v) (nesting_items vs) room deep deeps,
      )

  map_loop-Counts :
      (n : ℕ) (prev : Previous) (d : Decoder)
      → d.items ≤ max_items
      → Ensures
          (λ (es, d'). Grew d d' (size_entries es) × (nesting_entries es ≤ room))
          (map_loop rec n prev d)
  unfolding map_loop size nesting
  map_loop-Counts zero prev d h = returned (alone d h, omega arith)
  map_loop-Counts (suc n) prev d h = Ensures-bind (counts d) λ (k, d₁) (gk, deep_key).
      Ensures-bind (anything (check_key_kind k prev d.pos)) λ t _.
        Ensures-bind (anything (check_key_order prev _ d.pos)) λ _ _.
          Ensures-bind (counts d₁) λ (v, d₂) (gv, deep).
            Ensures-bind (map_loop-Counts n _ d₂ gv.limited) λ (es, d₃) (gs, deeps). returned (
              record { grown = omega (arith, gk.grown, gv.grown, gs.grown); limited = gs.limited },
              max_le (nesting k) (max (nesting v) (nesting_entries es)) room deep_key
                  (max_le (nesting v) (nesting_entries es) room deep deeps),
            )

  -- What follows a head: the item itself is counted before.
  abbrev Content : Decoder → Value × Decoder → Type 0
  Content d (v, d') =
      (d'.items + 1 ≡ d.items + size v) × (d'.items ≤ max_items) × (nesting v ≤ suc room)

  content-Counts :
      (is_nfc : List ℕ → Bool) (major arg p : ℕ) (d : Decoder)
      → d.items ≤ max_items
      → Ensures (Content d) (content is_nfc rec major arg p d)
  unfolding content decode_array decode_map size nesting
  content-Counts is_nfc major arg p d h =
      Ensures-if (major == 0) (λ _. returned (refl, h, omega arith))
        λ _.
          Ensures-if (major == 1) (λ _. returned (refl, h, omega arith))
            λ _.
              Ensures-if (major == 2)
                (λ _.
                  Ensures-bind (take_bytes-Keeps arg p d)
                    λ (raw, d₁) k. returned (omega (arith, k), omega (arith, k), omega arith))
                λ _.
                  Ensures-if (major == 3)
                    (λ _. Ensures-bind (take_bytes-Keeps arg p d) λ (raw, d₁) k.
                      Ensures-bind (anything (check_text is_nfc raw p))
                        λ _ _. returned (omega (arith, k), omega (arith, k), omega arith))
                    λ _.
                      Ensures-if (major == 4)
                        (λ _.
                          Ensures-if (make_panics (int_min arg 1024)) (λ _. crashed)
                            λ _. Ensures-bind (array_loop-Counts arg d h) λ (vs, d₁) (g, deep).
                              returned (omega (arith, g.grown), g.limited, omega (arith, deep)))
                        λ _.
                          Ensures-if (major == 5)
                            (λ _.
                              Ensures-if (make_panics (int_min arg 1024)) (λ _. crashed)
                                λ _. Ensures-bind (map_loop-Counts arg _ d h) λ (es, d₁) (g, deep).
                                  returned (omega (arith, g.grown), g.limited, omega (arith, deep)))
                            λ _. refused

  simple-Counts : (ai : ℕ) (d : Decoder) → d.items ≤ max_items → Ensures (Content d) (simple ai d)
  unfolding simple size nesting
  simple-Counts ai d h =
      Ensures-if (ai == 20) (λ _. returned (refl, h, omega arith))
        λ _.
          Ensures-if (ai == 21) (λ _. returned (refl, h, omega arith))
            λ _.
              Ensures-if (ai == 22 || ai == 23) (λ _. refused)
                λ _.
                  Ensures-if (ai == 25 || ai == 26 || ai == 27) (λ _. refused)
                    λ _. Ensures-if (ai == 31) (λ _. refused) (λ _. refused)

  first_byte-Counts :
      (is_nfc : List ℕ → Bool) (rest : List ℕ) (d : Decoder)
      → d.items ≤ max_items
      → Ensures (Content d) (first_byte is_nfc rec rest d)
  unfolding first_byte
  first_byte-Counts is_nfc [] d h = refused
  first_byte-Counts is_nfc (b ∷ bs) d h =
      Ensures-if (b / 2 ^ 5 == 7) (λ _. simple-Counts (bit_and b 0x1f) d h)
        λ _.
          Ensures-if (b / 2 ^ 5 == 6) (λ _. refused)
            λ _. Ensures-bind (read_arg-Keeps (bit_and b 0x1f) d.pos (advance 1 d)) λ (arg, d₁) k.
              Ensures-weaken
                (λ (v, d₂) (grown, limited, deep). (omega (arith, k, grown), limited, deep))
                (content-Counts is_nfc (b / 2 ^ 5) arg d.pos d₁ (omega (arith, k)))

  item_body-Counts :
      (is_nfc : List ℕ → Bool) (d : Decoder)
      → Ensures (Counts (suc room) d) (item_body is_nfc rec d)
  unfolding item_body
  item_body-Counts is_nfc d =
      Ensures-if (ltb max_items (d.items + 1)) (λ _. refused)
        λ fits.
          Ensures-weaken
            (λ (v, d') (grown, limited, deep).
              (record { grown = omega (arith, grown); limited = limited }, deep))
            (first_byte-Counts is_nfc d.rest (record d { items = d.items + 1 })
              (ltb-false→le max_items (d.items + 1) fits))

item-Counts :
    (is_nfc : List ℕ → Bool) (room : ℕ) (d : Decoder) → Ensures (Counts room d) (item is_nfc room d)
unfolding item
item-Counts is_nfc zero d = refused
item-Counts is_nfc (suc room) d =
    item_body-Counts room (item is_nfc room) (item-Counts is_nfc room) is_nfc d

decode-Ensures :
    (is_nfc : List ℕ → Bool) (input : List ℕ)
    → Ensures (λ v. (size v ≤ max_items) × (nesting v ≤ max_depth + 1)) (decode is_nfc input)
unfolding decode
decode-Ensures is_nfc input =
    Ensures-bind (item-Counts is_nfc (max_depth + 1) _) λ (v, d) (g, deep).
      Ensures-if (not (d.pos == length input)) (λ _. refused)
        (λ _. returned (omega (arith, g.grown, g.limited), deep))

-- A value that Decode returns, of whatever input, has at most MaxItems items, and is nested at most
-- MaxDepth deep below its outermost value.
pub decode-bounds :
    (is_nfc : List ℕ → Bool) (input : List ℕ) (v : Value)
    → decode is_nfc input ≡ ok v
    → (size v ≤ max_items) × (nesting v ≤ max_depth + 1)
decode-bounds is_nfc input v h = Ensures-ok (decode-Ensures is_nfc input) h
