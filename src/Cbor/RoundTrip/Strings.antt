-- ===== src/Cbor/RoundTrip/Strings.antt =====
-- Encodings that are a head and a string, or that are put together from encodings: what the decoder of
-- cbor/decode.go reads from them.
use murmur_go.Common.{
  ℕ, suc, ◌+◌, ◌^◌, ◌≤◌, ◌<◌, ◌≡◌, sym, ◌∙◌, Bool, true, false, List, [], ◌∷◌, ◌++◌, append_assoc,
  arith, length, length-append, ok, le→ltb, All, none,
}
use murmur_go.Common.Int.{pos, negsuc}
use murmur_go.Cbor.Value.{Value, Values, int, bytes, text, bool, array, map, nil, cons}
use murmur_go.Cbor.Head.{head_bytes}
use murmur_go.Cbor.Text.{validate_text}
use murmur_go.Cbor.Order.Laws.{AscendsFrom}
use murmur_go.Cbor.Encode.Buffer.{flat}
use murmur_go.Cbor.Wire.{to_entries}
use murmur_go.Cbor.Decode.{
  max_alloc, max_items, item, content, check_text, decode_array, array_loop, decode_map, simple,
  first_byte, item_body,
}
use murmur_go.Cbor.RoundTrip.Heads.{at, item-head, take_bytes-append, capacity_small}
use murmur_go.Cbor.RoundTrip.Maps.{
  Reads, Written, IsRead, weight, field_of, pair_of, map_loop-IsRead,
}
use murmur_go.Cbor.RoundTrip.Sorting.{total}
use mathlib.Core.List
use native.Mathlib.Nat.{add-zero}

module _ (is_nfc : List ℕ → Bool) (room : ℕ) where
  pub Reads-int : (n : ℕ) → n < 2 ^ 64 → Reads is_nfc (suc room) (head_bytes 0 n) (int (pos n)) 1
  unfolding content
  Reads-int n h more start items fits few =
      item-head is_nfc room 0 n start items more (omega arith) h (omega arith)

  pub Reads-negative :
      (k : ℕ) → k < 2 ^ 64 → Reads is_nfc (suc room) (head_bytes 1 k) (int (negsuc k)) 1
  unfolding content
  Reads-negative k h more start items fits few =
      item-head is_nfc room 1 k start items more (omega arith) h (omega arith)

  pub Reads-bytes :
      (raw : List ℕ) → Reads is_nfc (suc room) (head_bytes 2 (length raw) ++ raw) (bytes raw) 1
  unfolding content
  Reads-bytes raw more start items fits few =
      let hd : List ℕ = head_bytes 2 (length raw) in
      let sizes = length-append hd (raw ++ more) in
      let sizes' = length-append raw more in
      let fits' : start + length (hd ++ (raw ++ more)) ≤ max_alloc =
        rw (sym (append_assoc hd raw more)) fits in
      let here : start + length hd + length raw ≡ start + length (hd ++ raw) =
        omega (arith, length-append hd raw) in
      rw (append_assoc hd raw more) (
        item-head is_nfc room 2 (length raw) start items (raw ++ more) (omega arith)
          (omega (arith, sizes, sizes', fits')) (omega arith)
        ∙ rw
            (take_bytes-append raw more start (start + length hd) (items + 1)
              (omega (arith, sizes, fits')))
            (rw here))

  pub Reads-text :
      (raw : List ℕ)
      → validate_text is_nfc raw ≡ ok tt
      → Reads is_nfc (suc room) (head_bytes 3 (length raw) ++ raw) (text raw) 1
  unfolding content check_text
  Reads-text raw valid more start items fits few =
      let hd : List ℕ = head_bytes 3 (length raw) in
      let sizes = length-append hd (raw ++ more) in
      let sizes' = length-append raw more in
      let fits' : start + length (hd ++ (raw ++ more)) ≤ max_alloc =
        rw (sym (append_assoc hd raw more)) fits in
      let here : start + length hd + length raw ≡ start + length (hd ++ raw) =
        omega (arith, length-append hd raw) in
      rw (append_assoc hd raw more) (
        item-head is_nfc room 3 (length raw) start items (raw ++ more) (omega arith)
          (omega (arith, sizes, sizes', fits')) (omega arith)
        ∙ rw
            (
              take_bytes-append raw more start (start + length hd) (items + 1)
                  (omega (arith, sizes, fits')),
              valid,
            )
            (rw here))

  pub Reads-true : Reads is_nfc (suc room) (0xf5 ∷ []) (bool true) 1
  unfolding item item_body first_byte simple
  Reads-true more start items fits few = rw (le→ltb max_items (items + 1) (omega arith))

  pub Reads-false : Reads is_nfc (suc room) (0xf4 ∷ []) (bool false) 1
  unfolding item item_body first_byte simple
  Reads-false more start items fits few = rw (le→ltb max_items (items + 1) (omega arith))

  -- What `array_loop` reads, n items of `size` data items together.
  abbrev pub ReadsItems : List ℕ → Values → ℕ → ℕ → Type 0
  ReadsItems bs vs n size =
      (more : List ℕ) (start items : ℕ)
      → start + length (bs ++ more) ≤ max_alloc
      → items + size ≤ max_items
      → array_loop (item is_nfc room) n (at start items (bs ++ more))
        ≡ ok (vs, at (start + length bs) (items + size) more)

  pub ReadsItems-nil : ReadsItems [] nil 0 0
  unfolding array_loop
  ReadsItems-nil more start items fits few = rw (add-zero start, add-zero items)

  pub ReadsItems-cons :
      (b bs : List ℕ) (v : Value) (vs : Values) (n s size : ℕ)
      → Reads is_nfc room b v s
      → ReadsItems bs vs n size
      → ReadsItems (b ++ bs) (cons v vs) (suc n) (s + size)
  unfolding array_loop
  ReadsItems-cons b bs v vs n s size first rest more start items fits few =
      let sizes = length-append b (bs ++ more) in
      let fits' : start + length (b ++ (bs ++ more)) ≤ max_alloc =
        rw (sym (append_assoc b bs more)) fits in
      let here : start + length b + length bs ≡ start + length (b ++ bs) =
        omega (arith, length-append b bs) in
      let counted : items + s + size ≡ items + (s + size) = omega arith in
      rw (append_assoc b bs more) (
        rw
          (
            first (bs ++ more) start items fits' (omega arith),
            rest more (start + length b) (items + s) (omega (arith, sizes, fits')) (omega arith),
          )
          (rw (here, counted)))

  pub Reads-array :
      (bs : List ℕ) (vs : Values) (n size : ℕ)
      → n ≤ size
      → ReadsItems bs vs n size
      → Reads is_nfc (suc room) (head_bytes 4 n ++ bs) (array vs) (1 + size)
  unfolding content decode_array
  Reads-array bs vs n size small reads more start items fits few =
      let hd : List ℕ = head_bytes 4 n in
      let sizes = length-append hd (bs ++ more) in
      let fits' : start + length (hd ++ (bs ++ more)) ≤ max_alloc =
        rw (sym (append_assoc hd bs more)) fits in
      let here : start + length hd + length bs ≡ start + length (hd ++ bs) =
        omega (arith, length-append hd bs) in
      let counted : items + 1 + size ≡ items + (1 + size) = omega arith in
      rw (append_assoc hd bs more) (
        item-head is_nfc room 4 n start items (bs ++ more) (omega arith) (omega arith) (omega arith)
        ∙ rw
            (
              capacity_small n (omega arith),
              reads more (start + length hd) (items + 1) (omega (arith, sizes, fits'))
                  (omega arith),
            )
            (rw (here, counted)))

  pub Reads-map :
      (t : Bool) (ws : List Written)
      → All (IsRead is_nfc room t) ws
      → length ws ≤ total weight ws
      → AscendsFrom none (List.map pair_of ws)
      → Reads is_nfc
          (suc room)
          (head_bytes 5 (length ws) ++ flat (List.map pair_of ws))
          (map (to_entries (List.map field_of ws)))
          (1 + total weight ws)
  unfolding content decode_map
  Reads-map t ws reads small ascends more start items fits few =
      let hd : List ℕ = head_bytes 5 (length ws) in
      let bs : List ℕ = flat (List.map pair_of ws) in
      let sizes = length-append hd (bs ++ more) in
      let fits' : start + length (hd ++ (bs ++ more)) ≤ max_alloc =
        rw (sym (append_assoc hd bs more)) fits in
      let here : start + length hd + length bs ≡ start + length (hd ++ bs) =
        omega (arith, length-append hd bs) in
      let counted : items + 1 + total weight ws ≡ items + (1 + total weight ws) = omega arith in
      rw (append_assoc hd bs more) (
        item-head is_nfc room 5 (length ws) start items (bs ++ more) (omega arith) (omega arith)
          (omega arith)
        ∙ rw
            (
              capacity_small (length ws) (omega arith),
              map_loop-IsRead is_nfc room t ws none more (start + length hd) (items + 1) reads
                  ascends (omega (arith, sizes, fits')) (omega arith),
            )
            (rw (here, counted)))
