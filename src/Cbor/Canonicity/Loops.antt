-- ===== src/Cbor/Canonicity/Loops.antt =====
-- The loops of cbor/decode.go over arrays and maps, against those of cbor/encode.go.
use murmur_go.Common.{
  ℕ, zero, suc, ◌+◌, ◌-◌, ◌≡◌, refl, ap, Bool, true, false, Option, none, some, List, [], ◌∷◌, ◌++◌,
  append_assoc, append-nil, arith, length, take, ok, Ensures, returned, refused, Ensures-bind,
}
use murmur_go.Cbor.Value.{Value, int, text, count}
use murmur_go.Cbor.Order.{Encoded, compare_bytes}
use murmur_go.Cbor.Order.Laws.{Follows, AscendsFrom}
use murmur_go.Cbor.Encode.{max_depth, Buffer, value, array_items, encode_entries, key_kind}
use murmur_go.Cbor.Encode.Buffer.{flat}
use murmur_go.Cbor.Decode.{
  Decoder, Decoding, Previous, array_loop, map_loop, check_key_kind, check_key_order,
}
use murmur_go.Cbor.Decode.Argument.{Consumed}
use murmur_go.Cbor.Decode.Reading.{Fits, Consumed-Fits, take-Consumed, Consumed-trans}
use Prim.Native.Nat.{Ordering}

-- What the encoder sees of the keys before.
abbrev pub kind_of : Previous → Option Bool
kind_of none = none
kind_of (some (keys_are_text, prev_key)) = some keys_are_text

abbrev pub last_key : Previous → Option (List ℕ)
last_key none = none
last_key (some (keys_are_text, prev_key)) = some prev_key

check_key_kind-Ensures :
    (key : Value) (prev : Previous) (key_start : ℕ)
    → Ensures (λ t. key_kind key (kind_of prev) ≡ ok t) (check_key_kind key prev key_start)
unfolding check_key_kind key_kind
check_key_kind-Ensures (int n) none s = returned refl
check_key_kind-Ensures (int n) (some (true, k)) s = refused
check_key_kind-Ensures (int n) (some (false, k)) s = returned refl
check_key_kind-Ensures (text n) none s = returned refl
check_key_kind-Ensures (text n) (some (true, k)) s = returned refl
check_key_kind-Ensures (text n) (some (false, k)) s = refused
check_key_kind-Ensures _ prev s = refused

check_key_order-Ensures :
    (prev : Previous) (key_bytes : List ℕ) (key_start : ℕ)
    → Ensures (λ _. Follows (last_key prev) key_bytes) (check_key_order prev key_bytes key_start)
unfolding check_key_order
check_key_order-Ensures none k s = returned tt
check_key_order-Ensures (some (t, prev_key)) k s = split (compare_bytes prev_key k) refl
  where
    split :
        (o : Ordering)
        → compare_bytes prev_key k ≡ o
        → Ensures
            (λ _. compare_bytes prev_key k ≡ Ordering.lt)
            (check_key_order (some (t, prev_key)) k s)
    split Ordering.lt e = rw (e, check_key_order) (returned refl)
    split Ordering.eq e = rw (e, check_key_order) refused
    split Ordering.gt e = rw (e, check_key_order) refused

module _ (is_nfc : List ℕ → Bool) (room : ℕ) where
  -- `bs` is what the encoder appends for `v`, at the depth that leaves `room`.
  abbrev pub Encodes : Value → List ℕ → Type 0
  Encodes v bs =
      (depth : ℕ) (buf : Buffer)
      → depth + room ≡ max_depth + 1
      → value is_nfc v depth buf ≡ ok (buf ++ bs)

  -- What `item` does on the data of `d`, if it returns.
  abbrev pub ReadsItem : Decoder → Value × Decoder → Type 0
  ReadsItem d (v, d') = (bs : List ℕ) × Consumed d d' bs × Encodes v bs

  module _ (rec : Decoder → Decoding Value)
      (reads : (d : Decoder) → Fits d → Ensures (ReadsItem d) (rec d)) where
    pub array_loop-Ensures :
        (n : ℕ) (d : Decoder)
        → Fits d
        → Ensures
            (λ (vs, d').
              (bs : List ℕ) × Consumed d d' bs
              × (count vs ≡ n)
              × ((depth : ℕ) (buf : Buffer)
                  → depth + room ≡ max_depth + 1
                  → array_items is_nfc vs depth buf ≡ ok (buf ++ bs)))
            (array_loop rec n d)
    unfolding array_loop array_items
    array_loop-Ensures zero d f =
        returned
          ([], record { split = refl; moved = omega arith }, refl, λ depth buf h. rw append-nil)
    array_loop-Ensures (suc n) d f = Ensures-bind (reads d f) λ (v, d₁) (bs, c, enc).
        Ensures-bind (array_loop-Ensures n d₁ (Consumed-Fits c f)) λ (vs, d₂) (cs, c', size, encs).
          returned (
            bs ++ cs,
            Consumed-trans c c',
            ap suc size,
            λ depth buf h. rw (enc depth buf h, encs depth (buf ++ bs) h, append_assoc),
          )

    pub map_loop-Ensures :
        (n : ℕ) (prev : Previous) (d : Decoder)
        → Fits d
        → Ensures
            (λ (es, d').
              (ps : List Encoded) × Consumed d d' (flat ps)
              × (length ps ≡ n)
              × AscendsFrom (last_key prev) ps
              × ((depth : ℕ)
                  → depth + room ≡ max_depth + 1
                  → encode_entries is_nfc es depth (kind_of prev) ≡ ok ps))
            (map_loop rec n prev d)
    unfolding map_loop encode_entries
    map_loop-Ensures zero prev d f =
        returned ([], record { split = refl; moved = omega arith }, refl, tt, λ depth h. refl)
    map_loop-Ensures (suc n) prev d f = Ensures-bind (reads d f) λ (key, d₁) (kb, ck, enck).
        Ensures-bind (check_key_kind-Ensures key prev d.pos) λ t kind.
          Ensures-bind (check_key_order-Ensures prev (take (d₁.pos - d.pos) d.rest) d.pos)
            λ _ after. Ensures-bind (reads d₁ (Consumed-Fits ck f)) λ (val, d₂) (vb, cv, encv).
              Ensures-bind
                (map_loop-Ensures n (some (t, take (d₁.pos - d.pos) d.rest)) d₂
                  (Consumed-Fits cv (Consumed-Fits ck f)))
                λ (es, d₃) (ps, c, size, ascends, encs).
                  let same : take (d₁.pos - d.pos) d.rest ≡ kb = take-Consumed ck in
                  returned (
                    record { key = kb; val = vb } ∷ ps,
                    Consumed-trans ck (Consumed-trans cv c),
                    ap suc size,
                    (rw same at after, rw same at ascends),
                    λ depth h. rw (kind, enck depth [] h, encv depth [] h, encs depth h),
                  )
