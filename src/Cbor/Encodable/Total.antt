-- ===== src/Cbor/Encodable/Total.antt =====
-- The values that cbor/encode.go can write, against those that it writes.
use murmur_go.Common.{
  ℕ, ◌+◌, ◌^◌, ◌≤◌, ◌<◌, ◌≡◌, ◌↔◌, refl, ◌∙◌, Bool, true, false, Option, none, some, List, [], ◌∷◌,
  ◌++◌, arith, leb, leb→le, Bool-cases, inl, inr, Result, ok, length,
}
use murmur_go.Common.Int.{ℤ, pos, negsuc}
use murmur_go.Cbor.Value.{
  Value, Values, Entries, int, bytes, text, bool, array, map, decimal, rational, nil, cons, end,
  entry, count,
}
use murmur_go.Cbor.Errors.{EncodeError}
use murmur_go.Cbor.Text.{validate_text}
use murmur_go.Cbor.Order.{Encoded, sort_pairs}
use murmur_go.Cbor.Order.Laws.{NoRepeat}
use murmur_go.Cbor.Encode.{
  Buffer, Encoding, head, integer, int_pair, guard_depth, key_kind, max_depth, append_pairs, value,
  array_items, encode_entries, write_map, encode,
}
use murmur_go.Cbor.Encode.Buffer.{guard_depth-ok}
use murmur_go.Cbor.Keys.{
  Distinct, of_int, of_text, of_array, of_map, DistinctItems, one_item, DistinctEntries, one_entry,
  EncodedAs, encoded_end, encoded_entry,
}
use murmur_go.Cbor.Unique.{encode-Distinct}
use murmur_go.Cbor.Encodable
use murmur_go.Cbor.Encodable.{
  InRange, not_negative, negative, Keyed, no_keys, int_key, text_key, Encodable, int_in, bytes_in,
  text_in, bool_in, array_in, map_in, decimal_in, rational_in, EncodableItems, EncodableEntries,
}
use murmur_go.Cbor.Encodable.Keys.{other_keys, EncodedAs-NoRepeat, no_duplicate}
use murmur_go.Cbor.Encodable.Written.{encode-Encodable}

abbrev pub Writes : {A : Type 0} → Result EncodeError A → Type 0
Writes {A} r = (out : A) × (r ≡ ok out)

below : (n : ℕ) → n < 2 ^ 64 → leb (2 ^ 64) n ≡ false
below n h = elim (Bool-cases (leb (2 ^ 64) n)) [
  | inl le ↦ absurd (omega (arith, leb→le (2 ^ 64) n le))
  | inr gt ↦ gt
]

integer-Writes : (n : ℤ) (buf : Buffer) → InRange n → Writes (integer n buf)
unfolding integer
integer-Writes (pos n) buf (not_negative h) = (head 0 n buf, rw (below n h))
integer-Writes (negsuc n) buf (negative h) = (head 1 n buf, rw (below n h))

guarded : (depth : ℕ) (r : Encoding) → depth ≤ max_depth → Writes r → Writes (guard_depth depth r)
guarded depth r h w = (w.0, guard_depth-ok depth r h ∙ w.1)

int_pair-Writes :
    (a b : ℤ) (depth : ℕ) (buf : Buffer)
    → depth + 1 ≤ max_depth
    → InRange a
    → InRange b
    → Writes (int_pair a b depth buf)
unfolding int_pair
int_pair-Writes a b depth buf deep ha hb =
    let (next, first) = integer-Writes a (head 4 2 buf) ha in
    let (out, second) = integer-Writes b next hb in
    guarded (depth + 1) _ deep (out, rw (first, second))

write_map-Writes : (ps : List Encoded) (buf : Buffer) → NoRepeat ps → Writes (write_map ps buf)
unfolding write_map
write_map-Writes ps buf new =
    (append_pairs (sort_pairs ps) (head 5 (length (sort_pairs ps)) buf), rw (no_duplicate ps new))

-- The types of keys that may have come before keys of a type.
data Fits (t : Bool) : Option Bool → Type 0 where
  first : Fits t none
  alike : Fits t (some t)

key_kind-Fits :
    {t : Bool} {kind : Option Bool} {k v : Value} {es : Entries}
    → Keyed t (entry k v es)
    → Fits t kind
    → key_kind k kind ≡ ok t
unfolding key_kind
key_kind-Fits (int_key h) first = refl
key_kind-Fits (int_key h) alike = refl
key_kind-Fits (text_key h) first = refl
key_kind-Fits (text_key h) alike = refl

key-Distinct : {t : Bool} {k v : Value} {es : Entries} → Keyed t (entry k v es) → Distinct k
key-Distinct (int_key h) = of_int
key-Distinct (text_key h) = of_text

module _ (is_nfc : List ℕ → Bool) where
  -- What the entries come to.
  abbrev Codes : Entries → ℕ → Option Bool → Type 0
  Codes es depth kind =
      (ps : List Encoded) × (encode_entries is_nfc es depth kind ≡ ok ps)
      × EncodedAs is_nfc depth es ps

  mutual
    unfolding value validate_text

    value-Writes :
        (v : Value) (depth : ℕ) (buf : Buffer)
        → Encodable is_nfc depth v
        → Distinct v
        → Writes (value is_nfc v depth buf)
    value-Writes (int n) depth buf (int_in deep range) d =
        guarded depth _ deep (integer-Writes n buf range)
    value-Writes (bytes b) depth buf (bytes_in deep) d = guarded depth _ deep (_, refl)
    value-Writes (text s) depth buf (text_in deep valid unmarked normal) d =
        guarded depth _ deep (head 3 (length s) buf ++ s, rw (valid, unmarked, normal))
    value-Writes (bool true) depth buf (bool_in deep) d = guarded depth _ deep (_, refl)
    value-Writes (bool false) depth buf (bool_in deep) d = guarded depth _ deep (_, refl)
    value-Writes (array vs) depth buf (array_in deep items) (of_array d) =
        guarded depth _ deep (items-Writes vs (depth + 1) (head 4 (count vs) buf) items d)
    value-Writes (map es) depth buf (map_in {t} deep keyed fields) (of_map d) =
        let (ps, h, coded) = entries-Codes es (depth + 1) t none first keyed fields d in
        let (out, w) =
          write_map-Writes ps buf (EncodedAs-NoRepeat is_nfc (depth + 1) keyed coded d) in
        guarded depth _ deep (out, rw (h, w))
    value-Writes (decimal s m) depth buf (decimal_in deep canonical a b) d =
        let (out, w) = int_pair-Writes s m depth buf deep a b in
        guarded depth _ (omega (arith, deep)) (out, rw (canonical, w))
    value-Writes (rational s m) depth buf (rational_in deep canonical a b) d =
        let (out, w) = int_pair-Writes s m depth buf deep a b in
        guarded depth _ (omega (arith, deep)) (out, rw (canonical, w))

    items-Writes :
        (vs : Values) (depth : ℕ) (buf : Buffer)
        → EncodableItems is_nfc depth vs
        → DistinctItems vs
        → Writes (array_items is_nfc vs depth buf)
    items-Writes nil depth buf e d = (buf, refl)
    items-Writes (cons v vs) depth buf (Encodable.one_item e es) (one_item d ds) =
        let (next, h) = value-Writes v depth buf e d in
        let (out, hs) = items-Writes vs depth next es ds in (out, rw (h, hs))

    entries-Codes :
        (es : Entries) (depth : ℕ) (t : Bool) (kind : Option Bool)
        → Fits t kind
        → Keyed t es
        → EncodableEntries is_nfc depth es
        → DistinctEntries es
        → Codes es depth kind
    entries-Codes end depth t kind fits keyed e d = ([], refl, encoded_end)
    entries-Codes (entry k v es) depth t kind fits keyed (Encodable.one_entry ek ev ees)
          (one_entry new dv ds) =
        let (kb, hk) = value-Writes k depth [] ek (key-Distinct keyed) in
        let (vb, hv) = value-Writes v depth [] ev dv in
        let (ps, hs, coded) = entries-Codes es depth t (some t) alike (other_keys keyed) ees ds in
        (
          record { key = kb; val = vb } ∷ ps,
          rw (key_kind-Fits keyed fits, hk, hv, hs),
          encoded_entry hk dv coded,
        )

  -- Encode writes exactly the values that have a canonical form at depth 0 and no key twice in a map,
  -- at any depth: each of them it writes, and no other.
  pub encode_iff : (v : Value) → Writes (encode is_nfc v) ↔ (Encodable is_nfc 0 v × Distinct v)
  unfolding encode
  encode_iff v = (
    λ (bs, h). (encode-Encodable is_nfc v bs h, encode-Distinct is_nfc v bs h),
    λ (e, d). value-Writes v 0 [] e d,
  )
