-- ===== src/Cbor/Encode.antt =====
-- cbor/encode.go. The encoder's state is its buffer, which each function takes and returns; an error
-- gives the buffer up, as `Encode` does.
pub mod Buffer
use murmur_go.Common.{
  ℕ, ◌+◌, ◌^◌, Bool, true, false, Option, none, some, List, [], ◌∷◌, ◌++◌, ltb, leb, if◌then◌else◌,
  Result, ok, ◌>>=◌, ◌>>◌, length, not,
}
use murmur_go.Common.Int.{ℤ, pos, negsuc}
use murmur_go.Cbor.Value.{
  Value, Values, Entries, int, bytes, text, bool, array, map, decimal, rational, nil, cons, end,
  entry, count,
}
use murmur_go.Cbor.Errors.{EncodeError, encode_error}
use murmur_go.Cbor.Canonical.{check_decimal, check_rational}
use murmur_go.Cbor.Text.{validate_text}
use murmur_go.Cbor.Order.{Encoded, sort_pairs, has_duplicate}
use murmur_go.Cbor.Head.{head_bytes}

abbrev pub max_depth : ℕ
max_depth = 64

abbrev pub Buffer : Type 0
Buffer = List ℕ

abbrev pub Encoding : Type 0
Encoding = Result EncodeError Buffer

unfoldable pub head : ℕ → ℕ → Buffer → Buffer
head major arg buf = buf ++ head_bytes major arg

-- `-n - 1` of a `negsuc k` is k.
unfoldable pub integer : ℤ → Buffer → Encoding
integer (pos n) buf =
    if leb (2 ^ 64) n
    then encode_error "integer above 2^64-1 has no canonical form (no bignum tag)"
    else ok (head 0 n buf)
integer (negsuc k) buf =
    if leb (2 ^ 64) k
    then encode_error "integer below -2^64 has no canonical form (no bignum tag)"
    else ok (head 1 k buf)

-- The guard at the top of `value`.
abbrev pub guard_depth : {A : Type 0} → ℕ → Result EncodeError A → Result EncodeError A
guard_depth depth r = if ltb max_depth depth then encode_error "nesting exceeds MaxDepth" else r

unfoldable pub int_pair : ℤ → ℤ → ℕ → Buffer → Encoding
int_pair a b depth buf = guard_depth (depth + 1) (integer a (head 4 2 buf) >>= integer b)

-- The methods `decimal` and `rational` of the encoder.
abbrev encode_decimal : ℤ → ℤ → ℕ → Buffer → Encoding
encode_decimal s m depth buf = check_decimal (some s) (some m) >> int_pair s m depth buf

abbrev encode_rational : ℤ → ℤ → ℕ → Buffer → Encoding
encode_rational n d depth buf = check_rational (some n) (some d) >> int_pair n d depth buf

-- The type of a key against the type of the keys before it: `some true` after a text.
unfoldable pub key_kind : Value → Option Bool → Result EncodeError Bool
key_kind (int n) none = ok false
key_kind (int n) (some keys_are_text) =
    if keys_are_text then encode_error "map mixes integer and text keys" else ok false
key_kind (text s) none = ok true
key_kind (text s) (some keys_are_text) =
    if not keys_are_text then encode_error "map mixes integer and text keys" else ok true
key_kind _ _ = encode_error "map key must be an integer or a text string"

unfoldable pub append_pairs : List Encoded → Buffer → Buffer
append_pairs [] buf = buf
append_pairs (p ∷ ps) buf = append_pairs ps ((buf ++ p.key) ++ p.val)

-- `mapValue` from the sort on.
unfoldable pub write_map : List Encoded → Buffer → Encoding
write_map pairs buf =
    let sorted = sort_pairs pairs in
    if has_duplicate sorted
    then encode_error "map carries a duplicate key"
    else ok (append_pairs sorted (head 5 (length sorted) buf))

module _ (is_nfc : List ℕ → Bool) where
  -- `encodeSub` is `value` on an empty buffer.
  unfoldable mutual
    pub value : Value → ℕ → Buffer → Encoding
    value (int n) depth buf = guard_depth depth (integer n buf)
    value (bytes b) depth buf = guard_depth depth (ok (head 2 (length b) buf ++ b))
    value (text s) depth buf =
        guard_depth depth (validate_text is_nfc s >> ok (head 3 (length s) buf ++ s))
    value (bool true) depth buf = guard_depth depth (ok (buf ++ (0xf5 ∷ [])))
    value (bool false) depth buf = guard_depth depth (ok (buf ++ (0xf4 ∷ [])))
    value (array vs) depth buf =
        guard_depth depth (array_items vs (depth + 1) (head 4 (count vs) buf))
    value (map es) depth buf =
        guard_depth depth (encode_entries es (depth + 1) none >>= λ pairs. write_map pairs buf)
    value (decimal s m) depth buf = guard_depth depth (encode_decimal s m depth buf)
    value (rational n d) depth buf = guard_depth depth (encode_rational n d depth buf)

    -- The loop over the items of an array, at the depth of the items.
    pub array_items : Values → ℕ → Buffer → Encoding
    array_items nil depth buf = ok buf
    array_items (cons v vs) depth buf = value v depth buf >>= array_items vs depth

    -- The loop of `mapValue` over the entries, at the depth of keys and values.
    pub encode_entries : Entries → ℕ → Option Bool → Result EncodeError (List Encoded)
    encode_entries end depth kind = ok []
    encode_entries (entry k v es) depth kind = do
      keys_are_text ← key_kind k kind
      kb ← value k depth []
      vb ← value v depth []
      pairs ← encode_entries es depth (some keys_are_text)
      ok (record { key = kb; val = vb } ∷ pairs)

  unfoldable pub encode : Value → Encoding
  encode v = value v 0 []
