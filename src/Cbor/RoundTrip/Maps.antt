-- ===== src/Cbor/RoundTrip/Maps.antt =====
-- The entries of a map: what the loop of `mapValue` in cbor/encode.go encodes, the loop of `mapValue`
-- in cbor/decode.go reads back, in the order of the encoded keys.
use murmur_go.Common.{
  ℕ, ◌+◌, ◌-◌, ◌≤◌, ◌≡◌, refl, sym, Bool, true, false, Option, none, some, List, [], ◌∷◌, ◌++◌,
  append_assoc, arith, length, length-append, take, take-length-append, All, ok, Ensures, returned,
  refused,
}
use murmur_go.Cbor.Value.{Value, int, text}
use murmur_go.Cbor.Order.{Encoded}
use murmur_go.Cbor.Order.Laws.{AscendsFrom}
use murmur_go.Cbor.Encode.{key_kind}
use murmur_go.Cbor.Encode.Buffer.{flat}
use murmur_go.Cbor.Wire.{Field, to_entries}
use murmur_go.Cbor.Decode.{
  max_alloc, max_items, item, Previous, map_loop, check_key_kind, check_key_order,
}
use murmur_go.Cbor.RoundTrip.Heads.{at}
use murmur_go.Cbor.RoundTrip.Sorting.{total}
use mathlib.Core.List
use native.Mathlib.Nat.{add-zero}

-- Within the bounds of `Decode`, `item` at a depth that leaves `room` reads `bs` as `v`, which is `n`
-- data items.
abbrev pub Reads : (is_nfc : List ℕ → Bool) → ℕ → List ℕ → Value → ℕ → Type 0
Reads is_nfc room bs v n =
    (more : List ℕ) (pos items : ℕ)
    → pos + length (bs ++ more) ≤ max_alloc
    → items + n ≤ max_items
    → item is_nfc room (at pos items (bs ++ more)) ≡ ok (v, at (pos + length bs) (items + n) more)

-- An entry as it is written and as it is read.
pub record Written : Type 0 where
  pub pair : Encoded
  pub key : Value
  pub val : Value
  pub key_size : ℕ
  pub val_size : ℕ

abbrev pub weight : Written → ℕ
weight w = w.key_size + w.val_size

abbrev pub field_of : Written → Field
field_of w = record { bytes_of_key = w.pair.key; key = w.key; val = w.val }

abbrev pub pair_of : Written → Encoded
pair_of w = w.pair

-- A key of the one type or of the other.
abbrev pub KeyIs : Bool → Value → Type 0
KeyIs false (int n) = Unit
KeyIs true (text s) = Unit
KeyIs _ _ = ⊥

-- Keys of one type agree with the keys before.
abbrev pub Agrees : Option Bool → Bool → Type 0
Agrees none t = Unit
Agrees (some s) t = s ≡ t

pub key_kind-Ensures :
    (k : Value) (kind : Option Bool) → Ensures (λ t. KeyIs t k × Agrees kind t) (key_kind k kind)
unfolding key_kind
key_kind-Ensures (int n) none = returned (tt, tt)
key_kind-Ensures (int n) (some true) = refused
key_kind-Ensures (int n) (some false) = returned (tt, refl)
key_kind-Ensures (text s) none = returned (tt, tt)
key_kind-Ensures (text s) (some true) = returned (tt, refl)
key_kind-Ensures (text s) (some false) = refused
key_kind-Ensures _ kind = refused

module _ (is_nfc : List ℕ → Bool) (room : ℕ) where
  pub record IsRead (t : Bool) (w : Written) : Type 0 where
    pub key_is : KeyIs t w.key
    pub reads_key : Reads is_nfc room w.pair.key w.key w.key_size
    pub reads_val : Reads is_nfc room w.pair.val w.val w.val_size

abbrev before : Bool → Option (List ℕ) → Previous
before t none = none
before t (some key) = some (t, key)

check_key_kind-KeyIs :
    (t : Bool) (k : Value) (prev : Option (List ℕ)) (start : ℕ)
    → KeyIs t k
    → check_key_kind k (before t prev) start ≡ ok t
unfolding check_key_kind
check_key_kind-KeyIs false (int n) none s h = refl
check_key_kind-KeyIs false (int n) (some key) s h = refl
check_key_kind-KeyIs true (text n) none s h = refl
check_key_kind-KeyIs true (text n) (some key) s h = refl
check_key_kind-KeyIs _ _ prev s h = absurd h

check_key_order-Follows :
    (t : Bool) (prev : Option (List ℕ)) (p : Encoded) (ps : List Encoded) (start : ℕ)
    → AscendsFrom prev (p ∷ ps)
    → check_key_order (before t prev) p.key start ≡ ok tt
unfolding check_key_order
check_key_order-Follows t none p ps s h = refl
check_key_order-Follows t (some key) p ps s h = rw (h.0, check_key_order)

-- The slice between two positions.
slice : (pos : ℕ) (front back : List ℕ) → take (pos + length front - pos) (front ++ back) ≡ front
slice pos front back =
    let size : pos + length front - pos ≡ length front = omega arith in
    rw size (take-length-append front back)

module _ (is_nfc : List ℕ → Bool) (room : ℕ) (t : Bool) where
  pub map_loop-IsRead :
      (ws : List Written) (prev : Option (List ℕ)) (more : List ℕ) (pos items : ℕ)
      → All (IsRead is_nfc room t) ws
      → AscendsFrom prev (List.map pair_of ws)
      → pos + length (flat (List.map pair_of ws) ++ more) ≤ max_alloc
      → items + total weight ws ≤ max_items
      → map_loop
          (item is_nfc room)
          (length ws)
          (before t prev)
          (at pos items (flat (List.map pair_of ws) ++ more))
        ≡ ok (
          to_entries (List.map field_of ws),
          at (pos + length (flat (List.map pair_of ws))) (items + total weight ws) more,
        )
  unfolding map_loop to_entries
  map_loop-IsRead [] prev more pos items reads ascends fits few = rw (add-zero pos, add-zero items)
  map_loop-IsRead (w ∷ ws) prev more pos items reads ascends fits few =
      let F : List ℕ = flat (List.map pair_of ws) in
      let kb : List ℕ = w.pair.key in
      let vb : List ℕ = w.pair.val in
      let grouped : (kb ++ (vb ++ F)) ++ more ≡ kb ++ (vb ++ (F ++ more)) = simp append_assoc in
      let sizes = length-append kb (vb ++ (F ++ more)) in
      let sizes' = length-append vb (F ++ more) in
      let whole : pos + length (kb ++ (vb ++ (F ++ more))) ≤ max_alloc = rw (sym grouped) fits in
      let key : _ ≡ _ = reads.0.reads_key (vb ++ (F ++ more)) pos items whole (omega arith) in
      let val : _ ≡ _ =
        reads.0.reads_val (F ++ more) (pos + length kb) (items + w.key_size)
          (omega (arith, sizes, whole)) (omega arith) in
      let rest : _ ≡ _ =
        map_loop-IsRead ws (some kb) more (pos + length kb + length vb)
          (items + w.key_size + w.val_size) reads.1 ascends.1 (omega (arith, sizes, sizes', whole))
          (omega arith) in
      let here : pos + length kb + length vb + length F ≡ pos + length (kb ++ (vb ++ F)) =
        omega (arith, length-append kb (vb ++ F), length-append vb F) in
      let counted : items + w.key_size + w.val_size + total weight ws
          ≡ items + (weight w + total weight ws) =
        omega arith in
      rw grouped (
        rw
          (
            key,
            slice pos kb (vb ++ (F ++ more)),
            check_key_kind-KeyIs t w.key prev pos reads.0.key_is,
            check_key_order-Follows t prev w.pair (List.map pair_of ws) pos ascends,
            val,
            rest,
          )
          (rw (here, counted)))
