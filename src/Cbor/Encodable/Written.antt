-- ===== src/Cbor/Encodable/Written.antt =====
-- What cbor/encode.go writes is a value with a canonical form.
use murmur_go.Common.{
  ℕ, ◌+◌, ◌^◌, ◌≤◌, ◌≡◌, Bool, true, false, not, Option, none, some, refl, List, [], subst, ◌>>◌,
  ltb, leb, ok, Ensures, Ensures-ok, Ensures-both, returned, refused, Ensures-if, Ensures-bind,
  Ensures-weaken, anything, itself, ltb-false→le, leb-false→lt, not-false→true,
}
use murmur_go.Common.Int.{ℤ, pos, negsuc}
use murmur_go.Cbor.Value.{
  Value, Values, Entries, int, bytes, text, bool, array, map, decimal, rational, nil, cons, end,
  entry, count,
}
use murmur_go.Cbor.Canonical.{check_decimal, check_rational}
use murmur_go.Cbor.Text.{valid_string, has_byte_order_mark, validate_text}
use murmur_go.Cbor.Encodable.{
  InRange, not_negative, negative, Keyed, no_keys, int_key, text_key, Encodable, int_in, bytes_in,
  text_in, bool_in, array_in, map_in, decimal_in, rational_in, EncodableItems, no_items, one_item,
  EncodableEntries, no_entries, one_entry,
}
use murmur_go.Cbor.Encode.{
  Buffer, head, integer, int_pair, key_kind, max_depth, value, array_items, encode_entries,
  write_map, encode,
}

integer-InRange : (n : ℤ) (buf : Buffer) → Ensures (λ _. InRange n) (integer n buf)
unfolding integer
integer-InRange (pos n) buf =
    Ensures-if (leb (2 ^ 64) n) (λ _. refused)
      λ h. returned (not_negative (leb-false→lt (2 ^ 64) n h))
integer-InRange (negsuc n) buf =
    Ensures-if (leb (2 ^ 64) n) (λ _. refused) λ h. returned (negative (leb-false→lt (2 ^ 64) n h))

int_pair-InRange :
    (a b : ℤ) (depth : ℕ) (buf : Buffer)
    → Ensures (λ _. (depth + 1 ≤ max_depth) × InRange a × InRange b) (int_pair a b depth buf)
unfolding int_pair
int_pair-InRange a b depth buf =
    Ensures-if (ltb max_depth (depth + 1)) (λ _. refused)
      λ h. Ensures-bind (integer-InRange a (head 4 2 buf)) λ next ha.
        Ensures-weaken (λ _ hb. (ltb-false→le max_depth (depth + 1) h, ha, hb))
          (integer-InRange b next)

key_kind-Keyed :
    (k v : Value) (es : Entries) (kind : Option Bool)
    → Ensures (λ t. Keyed t es → Keyed t (entry k v es)) (key_kind k kind)
unfolding key_kind
key_kind-Keyed (int n) v es none = returned int_key
key_kind-Keyed (int n) v es (some true) = refused
key_kind-Keyed (int n) v es (some false) = returned int_key
key_kind-Keyed (text s) v es none = returned text_key
key_kind-Keyed (text s) v es (some true) = returned text_key
key_kind-Keyed (text s) v es (some false) = refused
key_kind-Keyed _ v es _ = refused

-- The type of the keys stays the same.
key_kind-same : (k : Value) (t : Bool) → Ensures (λ u. u ≡ t) (key_kind k (some t))
unfolding key_kind
key_kind-same (int n) true = refused
key_kind-same (int n) false = returned refl
key_kind-same (text s) true = returned refl
key_kind-same (text s) false = refused
key_kind-same _ t = refused

module _ (is_nfc : List ℕ → Bool) where
  keys-Keyed :
      (es : Entries) (depth : ℕ) (t : Bool)
      → Ensures (λ _. Keyed t es) (encode_entries is_nfc es depth (some t))
  unfolding encode_entries
  keys-Keyed end depth t = returned no_keys
  keys-Keyed (entry k v es) depth t =
      Ensures-bind (Ensures-both (key_kind-Keyed k v es (some t)) (key_kind-same k t))
        λ u (add, same). Ensures-bind (anything (value is_nfc k depth [])) λ kb _.
          Ensures-bind (anything (value is_nfc v depth [])) λ vb _.
            Ensures-bind (keys-Keyed es depth u)
              λ ps keyed. returned (subst (λ x. Keyed x (entry k v es)) same (add keyed))

  all-Keyed :
      (es : Entries) (depth : ℕ)
      → Ensures (λ _. (t : Bool) × Keyed t es) (encode_entries is_nfc es depth none)
  unfolding encode_entries
  all-Keyed end depth = returned (false, no_keys)
  all-Keyed (entry k v es) depth = Ensures-bind (key_kind-Keyed k v es none) λ t add.
      Ensures-bind (anything (value is_nfc k depth [])) λ kb _.
        Ensures-bind (anything (value is_nfc v depth []))
          λ vb _. Ensures-bind (keys-Keyed es depth t) λ ps keyed. returned (t, add keyed)

  text-Encodable :
      (s : List ℕ) (depth : ℕ) (buf : Buffer)
      → depth ≤ max_depth
      → Ensures (λ _. Encodable is_nfc depth (text s)) (validate_text is_nfc s >> ok buf)
  unfolding validate_text
  text-Encodable s depth buf deep =
      Ensures-bind
        (Ensures-if (not (valid_string s)) (λ _. refused)
          λ valid.
            Ensures-if (has_byte_order_mark s) (λ _. refused)
              λ unmarked.
                Ensures-if (not (is_nfc s)) (λ _. refused)
                  λ normal. returned (
                    text_in deep (not-false→true (valid_string s) valid) unmarked
                      (not-false→true (is_nfc s) normal)))
        λ _ fine. returned fine

  mutual
    unfolding value

    value-Encodable :
        (v : Value) (depth : ℕ) (buf : Buffer)
        → Ensures (λ _. Encodable is_nfc depth v) (value is_nfc v depth buf)
    value-Encodable (int n) depth buf =
        Ensures-if (ltb max_depth depth) (λ _. refused)
          λ h.
            Ensures-weaken (λ _ r. int_in (ltb-false→le max_depth depth h) r)
              (integer-InRange n buf)
    value-Encodable (bytes b) depth buf =
        Ensures-if (ltb max_depth depth) (λ _. refused)
          λ h. returned (bytes_in (ltb-false→le max_depth depth h))
    value-Encodable (text s) depth buf =
        Ensures-if (ltb max_depth depth) (λ _. refused)
          λ h. text-Encodable s depth _ (ltb-false→le max_depth depth h)
    value-Encodable (bool true) depth buf =
        Ensures-if (ltb max_depth depth) (λ _. refused)
          λ h. returned (bool_in (ltb-false→le max_depth depth h))
    value-Encodable (bool false) depth buf =
        Ensures-if (ltb max_depth depth) (λ _. refused)
          λ h. returned (bool_in (ltb-false→le max_depth depth h))
    value-Encodable (array vs) depth buf =
        Ensures-if (ltb max_depth depth) (λ _. refused)
          λ h.
            Ensures-weaken (λ _ r. array_in (ltb-false→le max_depth depth h) r)
              (items-Encodable vs (depth + 1) (head 4 (count vs) buf))
    value-Encodable (map es) depth buf =
        Ensures-if (ltb max_depth depth) (λ _. refused)
          λ h.
            Ensures-bind
              (Ensures-both (all-Keyed es (depth + 1)) (entries-Encodable es (depth + 1) none))
              λ ps ((t, keyed), fine).
                Ensures-weaken (λ _ _. map_in (ltb-false→le max_depth depth h) keyed fine)
                  (anything (write_map ps buf))
    value-Encodable (decimal s m) depth buf =
        Ensures-if (ltb max_depth depth) (λ _. refused)
          λ _. Ensures-bind (itself (check_decimal (some s) (some m))) λ _ canonical.
            Ensures-weaken (λ _ (deep, a, b). decimal_in deep canonical a b)
              (int_pair-InRange s m depth buf)
    value-Encodable (rational n d) depth buf =
        Ensures-if (ltb max_depth depth) (λ _. refused)
          λ _. Ensures-bind (itself (check_rational (some n) (some d))) λ _ canonical.
            Ensures-weaken (λ _ (deep, a, b). rational_in deep canonical a b)
              (int_pair-InRange n d depth buf)

    items-Encodable :
        (vs : Values) (depth : ℕ) (buf : Buffer)
        → Ensures (λ _. EncodableItems is_nfc depth vs) (array_items is_nfc vs depth buf)
    items-Encodable nil depth buf = returned no_items
    items-Encodable (cons v vs) depth buf =
        Ensures-bind (value-Encodable v depth buf)
          λ next h. Ensures-weaken (λ _ hs. one_item h hs) (items-Encodable vs depth next)

    entries-Encodable :
        (es : Entries) (depth : ℕ) (kind : Option Bool)
        → Ensures (λ _. EncodableEntries is_nfc depth es) (encode_entries is_nfc es depth kind)
    entries-Encodable end depth kind = returned no_entries
    entries-Encodable (entry k v es) depth kind = Ensures-bind (anything (key_kind k kind)) λ t _.
        Ensures-bind (value-Encodable k depth []) λ kb hk.
          Ensures-bind (value-Encodable v depth []) λ vb hv.
            Ensures-bind (entries-Encodable es depth (some t))
              λ ps hs. returned (one_entry hk hv hs)

  -- Encode writes only a value whose integers go from -2^64 to 2^64 - 1, whose texts are valid UTF-8
  -- without a byte-order mark and in Normalization Form C, whose decimals and rationals are canonical,
  -- whose maps have keys of one type, integers or texts, and no part of which, the integers of a decimal
  -- or rational included, stands deeper than MaxDepth.
  pub encode-Encodable : (v : Value) (bs : List ℕ) → encode is_nfc v ≡ ok bs → Encodable is_nfc 0 v
  unfolding encode
  encode-Encodable v bs h = Ensures-ok (value-Encodable v 0 []) h
