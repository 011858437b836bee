-- ===== src/Cbor/Encodable.antt =====
-- Which values cbor/encode.go writes.
mod Keys
pub mod Written
pub mod Total
use murmur_go.Common.{
  ℕ, ◌+◌, ◌^◌, ◌≤◌, ◌<◌, ◌≡◌, Bool, true, false, not, Option, none, some, refl, List, [], subst,
  ◌>>◌, ltb, leb, Result, ok, Ensures, Ensures-ok, Ensures-both, returned, refused, Ensures-if,
  Ensures-bind, Ensures-weaken, anything, itself, ltb-false→le, leb-false→lt, not-false→true,
}
use murmur_go.Common.Int.{ℤ, pos, negsuc}
use murmur_go.Cbor.Value.{
  Value, Values, Entries, int, bytes, text, bool, array, map, decimal, rational, nil, cons, end,
  entry, count,
}
use murmur_go.Cbor.Canonical.{check_decimal, check_rational}
use murmur_go.Cbor.Text.{valid_string, has_byte_order_mark, validate_text}
use murmur_go.Cbor.Encode.{
  Buffer, Encoding, head, integer, int_pair, key_kind, max_depth, value, array_items,
  encode_entries, write_map, encode,
}

-- From -2^64 to 2^64 - 1.
pub data InRange : ℤ → Type 0 where
  not_negative : {n : ℕ} → n < 2 ^ 64 → InRange (pos n)
  negative : {n : ℕ} → n < 2 ^ 64 → InRange (negsuc n)

-- All keys are integers, or all are texts.
pub data Keyed : Bool → Entries → Type 0 where
  no_keys : {t : Bool} → Keyed t end
  int_key : {n : ℤ} {v : Value} {es : Entries} → Keyed false es → Keyed false (entry (int n) v es)
  text_key :
      {s : List ℕ} {v : Value} {es : Entries} → Keyed true es → Keyed true (entry (text s) v es)

module _ (is_nfc : List ℕ → Bool) where
  -- A value with a canonical form, at a depth.
  mutual
    pub data Encodable : ℕ → Value → Type 0 where
      int_in : {depth : ℕ} {n : ℤ} → depth ≤ max_depth → InRange n → Encodable depth (int n)
      bytes_in : {depth : ℕ} {b : List ℕ} → depth ≤ max_depth → Encodable depth (bytes b)
      text_in :
          {depth : ℕ} {s : List ℕ}
          → depth ≤ max_depth
          → valid_string s ≡ true
          → has_byte_order_mark s ≡ false
          → is_nfc s ≡ true
          → Encodable depth (text s)
      bool_in : {depth : ℕ} {b : Bool} → depth ≤ max_depth → Encodable depth (bool b)
      array_in :
          {depth : ℕ} {vs : Values}
          → depth ≤ max_depth
          → EncodableItems (depth + 1) vs
          → Encodable depth (array vs)
      map_in :
          {depth : ℕ} {t : Bool} {es : Entries}
          → depth ≤ max_depth
          → Keyed t es
          → EncodableEntries (depth + 1) es
          → Encodable depth (map es)
      decimal_in :
          {depth : ℕ} {s m : ℤ}
          → depth + 1 ≤ max_depth
          → check_decimal (some s) (some m) ≡ ok tt
          → InRange s
          → InRange m
          → Encodable depth (decimal s m)
      rational_in :
          {depth : ℕ} {n d : ℤ}
          → depth + 1 ≤ max_depth
          → check_rational (some n) (some d) ≡ ok tt
          → InRange n
          → InRange d
          → Encodable depth (rational n d)

    pub data EncodableItems : ℕ → Values → Type 0 where
      no_items : {depth : ℕ} → EncodableItems depth nil
      one_item :
          {depth : ℕ} {v : Value} {vs : Values}
          → Encodable depth v
          → EncodableItems depth vs
          → EncodableItems depth (cons v vs)

    pub data EncodableEntries : ℕ → Entries → Type 0 where
      no_entries : {depth : ℕ} → EncodableEntries depth end
      one_entry :
          {depth : ℕ} {k v : Value} {es : Entries}
          → Encodable depth k
          → Encodable depth v
          → EncodableEntries depth es
          → EncodableEntries depth (entry k v es)
