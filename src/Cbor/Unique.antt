-- ===== src/Cbor/Unique.antt =====
-- The values that cbor/encode.go writes and cbor/decode.go reads have no key twice in a map.
use murmur_go.Common.{
  ℕ, ◌+◌, ◌≡◌, Bool, Option, none, some, List, [], ltb, Result, ok, Ensures, Ensures-ok, returned,
  refused, Ensures-if, Ensures-bind, anything, itself, err, panics, crashed, Ensures-weaken,
}
use murmur_go.Cbor.Value.{
  Value, Values, Entries, int, bytes, text, bool, array, map, decimal, rational, nil, cons, end,
  entry, count,
}
use murmur_go.Cbor.Encode.{
  Buffer, head, key_kind, max_depth, value, array_items, encode_entries, encode,
}
use murmur_go.Cbor.Keys.{
  Distinct, of_int, of_bytes, of_text, of_bool, of_decimal, of_rational, of_array, of_map,
  DistinctItems, no_items, one_item, write_map-NoRepeat, EncodedAs, encoded_end, encoded_entry,
  EncodedAs-DistinctEntries,
}

-- Whatever a call comes to, the value is so.
always : {E A : Type 0} {P : Type 0} → P → (r : Result E A) → Ensures (λ _. P) r
always p (ok a) = returned p
always p (err e) = refused
always p panics = crashed

module _ (is_nfc : List ℕ → Bool) where
  mutual
    unfolding value

    value-Distinct :
        (v : Value) (depth : ℕ) (buf : Buffer)
        → Ensures (λ _. Distinct v) (value is_nfc v depth buf)
    value-Distinct (array vs) depth buf =
        Ensures-if (ltb max_depth depth) (λ _. refused)
          λ _.
            Ensures-weaken (λ _ h. of_array h)
              (array_items-Distinct vs (depth + 1) (head 4 (count vs) buf))
    value-Distinct (map es) depth buf =
        Ensures-if (ltb max_depth depth) (λ _. refused)
          λ _. Ensures-bind (encode_entries-EncodedAs es (depth + 1) none) λ ps coded.
            Ensures-weaken (λ _ n. of_map (EncodedAs-DistinctEntries is_nfc (depth + 1) coded n))
              (write_map-NoRepeat ps buf)
    value-Distinct (int n) depth buf = always of_int (value is_nfc (int n) depth buf)
    value-Distinct (bytes b) depth buf = always of_bytes (value is_nfc (bytes b) depth buf)
    value-Distinct (text s) depth buf = always of_text (value is_nfc (text s) depth buf)
    value-Distinct (bool b) depth buf = always of_bool (value is_nfc (bool b) depth buf)
    value-Distinct (decimal s m) depth buf =
        always of_decimal (value is_nfc (decimal s m) depth buf)
    value-Distinct (rational n d) depth buf =
        always of_rational (value is_nfc (rational n d) depth buf)

    array_items-Distinct :
        (vs : Values) (depth : ℕ) (buf : Buffer)
        → Ensures (λ _. DistinctItems vs) (array_items is_nfc vs depth buf)
    array_items-Distinct nil depth buf = returned no_items
    array_items-Distinct (cons v vs) depth buf =
        Ensures-bind (value-Distinct v depth buf)
          λ next h. Ensures-weaken (λ _ hs. one_item h hs) (array_items-Distinct vs depth next)

    encode_entries-EncodedAs :
        (es : Entries) (depth : ℕ) (kind : Option Bool)
        → Ensures (EncodedAs is_nfc depth es) (encode_entries is_nfc es depth kind)
    encode_entries-EncodedAs end depth kind = returned encoded_end
    encode_entries-EncodedAs (entry k v es) depth kind =
        Ensures-bind (anything (key_kind k kind)) λ t _.
          Ensures-bind (itself (value is_nfc k depth [])) λ kb hk.
            Ensures-bind (value-Distinct v depth []) λ vb hv.
              Ensures-bind (encode_entries-EncodedAs es depth (some t))
                λ ps coded. returned (encoded_entry hk hv coded)

  -- A value that Encode writes has no key twice in any of its maps, at any depth.
  pub encode-Distinct : (v : Value) (bs : List ℕ) → encode is_nfc v ≡ ok bs → Distinct v
  unfolding encode
  encode-Distinct v bs h = Ensures-ok (value-Distinct v 0 []) h
