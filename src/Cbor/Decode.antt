-- ===== src/Cbor/Decode.antt =====
-- cbor/decode.go. The decoder keeps what is left of the data, `data[pos:]`, with the position and the
-- count of items begun. `int` has 64 bits. A depth is given as the room below `MaxDepth`, as
-- MaxDepth + 1 - depth, so that room zero is `depth > MaxDepth`.
pub mod Argument
pub mod Reading
use murmur_go.Common.{
  ℕ, zero, suc, ◌+◌, ◌-◌, ◌*◌, ◌/◌, ◌%◌, ◌^◌, Bool, true, false, not, ◌||◌, Option, none, some,
  List, [], ◌∷◌, ltb, ◌==◌, if◌then◌else◌, length, take, drop, bit_and, bit_or, Result, ok, panics,
  ◌>>=◌, ◌>>◌, map_err,
}
use murmur_go.Common.Int.{pos, negsuc}
use murmur_go.Cbor.Value.{
  Value, Values, Entries, int, bytes, text, bool, array, map, nil, cons, end, entry,
}
use murmur_go.Cbor.Errors
use murmur_go.Cbor.Errors.{DecodeError, EncodeError, fail}
use murmur_go.Cbor.Text.{validate_text, text_reason}
use murmur_go.Cbor.Order.{compare_bytes}
use murmur_go.Cbor.Encode.{max_depth}
use Prim.Native.Nat.{Ordering}
use Prim.Native.String

abbrev pub max_items : ℕ
max_items = 2 ^ 20

-- The most bytes that `make` gives a slice on a 64-bit machine (`maxAlloc` of the Go runtime).
abbrev pub max_alloc : ℕ
max_alloc = 2 ^ 48

pub record Decoder : Type 0 where
  -- `data[pos:]`
  pub rest : List ℕ
  pub pos : ℕ
  pub items : ℕ

abbrev pub Decoding : Type 0 → Type 0
Decoding A = Result DecodeError (A × Decoder)

-- `d.pos += n`.
abbrev pub advance : ℕ → Decoder → Decoder
advance n d = record d { rest = drop n d.rest; pos = d.pos + n }

-- `len(d.data)`.
abbrev pub data_length : Decoder → ℕ
data_length d = d.pos + length d.rest

-- An `int` is its bit pattern: the order is that of the signed numbers.
abbrev pub int_lt : ℕ → ℕ → Bool
int_lt a b = ltb ((a + 2 ^ 63) % 2 ^ 64) ((b + 2 ^ 63) % 2 ^ 64)

-- `make` panics at a size that is negative, or more than there is memory for.
abbrev pub make_panics : ℕ → Bool
make_panics n = int_lt n 0 || int_lt max_alloc n

abbrev pub int_min : ℕ → ℕ → ℕ
int_min a b = if int_lt a b then a else b

-- `v = v<<8 | uint64(b)` over the next n bytes; an index behind the data panics.
unfoldable pub take_loop : ℕ → List ℕ → ℕ → Result DecodeError ℕ
take_loop zero bs v = ok v
take_loop (suc n) [] v = panics
take_loop (suc n) (b ∷ bs) v = take_loop n bs (bit_or (v * 2 ^ 8 % 2 ^ 64) b)

unfoldable pub take_uint : ℕ → ℕ → Decoder → Decoding ℕ
take_uint n head_pos d =
    if ltb (data_length d) (d.pos + n)
    then fail Errors.truncated head_pos
    else take_loop n d.rest 0 >>= (λ v. ok (v, advance n d))

-- A form of n bytes, for arguments from `least` on.
unfoldable pub long_arg : ℕ → ℕ → ℕ → Decoder → Decoding ℕ
long_arg n least head_pos d = do
  (v, d₁) ← take_uint n head_pos d
  if ltb v least then fail Errors.non_minimal head_pos else ok (v, d₁)

unfoldable pub read_arg : ℕ → ℕ → Decoder → Decoding ℕ
read_arg ai head_pos d =
    if ltb ai 24
    then ok (ai, d)
    else if ai == 24
    then long_arg 1 24 head_pos d
    else if ai == 25
    then long_arg 2 (2 ^ 8) head_pos d
    else if ai == 26
    then long_arg 4 (2 ^ 16) head_pos d
    else if ai == 27
    then long_arg 8 (2 ^ 32) head_pos d
    else if ai == 31
    then fail Errors.indefinite_length head_pos
    else fail Errors.reserved_additional head_pos

-- `n := int(arg)` keeps the bits, so `uint64(n) != arg` never holds; `d.pos+n` wraps.
unfoldable pub take_bytes : ℕ → ℕ → Decoder → Decoding (List ℕ)
take_bytes arg head_pos d =
    if int_lt (data_length d) ((d.pos + arg) % 2 ^ 64)
    then fail Errors.truncated head_pos
    else if make_panics arg
    then panics
    else ok (take arg d.rest, advance arg d)

unfoldable pub simple : ℕ → Decoder → Decoding Value
simple ai d =
    if ai == 20
    then ok (bool false, advance 1 d)
    else if ai == 21
    then ok (bool true, advance 1 d)
    else if ai == 22 || ai == 23
    then fail Errors.null d.pos
    else if ai == 25 || ai == 26 || ai == 27
    then fail Errors.float d.pos
    else if ai == 31
    then fail Errors.indefinite_length d.pos
    else fail Errors.simple_value d.pos

-- The loops take the call of `item` at the depth below.
unfoldable pub array_loop : (Decoder → Decoding Value) → ℕ → Decoder → Decoding Values
array_loop rec zero d = ok (nil, d)
array_loop rec (suc n) d = do (v, d₁) ← rec d; (vs, d₂) ← array_loop rec n d₁; ok (cons v vs, d₂)

unfoldable pub decode_array : (Decoder → Decoding Value) → ℕ → Decoder → Decoding Value
decode_array rec arg d =
    if make_panics (int_min arg 1024)
    then panics
    else (do (vs, d₁) ← array_loop rec arg d; ok (array vs, d₁))

-- The keys before, if any: whether they are texts, and the bytes of the last.
abbrev pub Previous : Type 0
Previous = Option (Bool × List ℕ)

unfoldable pub check_key_kind : Value → Previous → ℕ → Result DecodeError Bool
check_key_kind (int n) none key_start = ok false
check_key_kind (int n) (some (keys_are_text, prev_key)) key_start =
    if keys_are_text then fail Errors.mixed_map_keys key_start else ok false
check_key_kind (text s) none key_start = ok true
check_key_kind (text s) (some (keys_are_text, prev_key)) key_start =
    if not keys_are_text then fail Errors.mixed_map_keys key_start else ok true
check_key_kind _ _ key_start = fail Errors.bad_map_key_type key_start

unfoldable pub check_key_order : Previous → List ℕ → ℕ → Result DecodeError (Unit {0})
check_key_order none key_bytes key_start = ok tt
check_key_order (some (keys_are_text, prev_key)) key_bytes key_start =
    elim (compare_bytes prev_key key_bytes) [
      | Ordering.lt ↦ ok tt
      | Ordering.eq ↦ fail Errors.duplicate_map_key key_start
      | Ordering.gt ↦ fail Errors.unsorted_map_keys key_start
    ]

unfoldable pub map_loop : (Decoder → Decoding Value) → ℕ → Previous → Decoder → Decoding Entries
map_loop rec zero prev d = ok (end, d)
map_loop rec (suc n) prev d = do
  (key, d₁) ← rec d
  let key_bytes = take (d₁.pos - d.pos) d.rest
  keys_are_text ← check_key_kind key prev d.pos
  check_key_order prev key_bytes d.pos
  (val, d₂) ← rec d₁
  (es, d₃) ← map_loop rec n (some (keys_are_text, key_bytes)) d₂
  ok (entry key val es, d₃)

unfoldable pub decode_map : (Decoder → Decoding Value) → ℕ → Decoder → Decoding Value
decode_map rec arg d =
    if make_panics (int_min arg 1024)
    then panics
    else (do (es, d₁) ← map_loop rec arg none d; ok (map es, d₁))

module _ (is_nfc : List ℕ → Bool) where
  unfoldable pub check_text : List ℕ → ℕ → Result DecodeError (Unit {0})
  check_text s at =
      map_err (λ e. record { reason = text_reason e; pos = at; msg = String.◌++◌ "cbor: " e.msg })
        (validate_text is_nfc s)

  -- `item` once the argument is read.
  unfoldable pub content : (Decoder → Decoding Value) → ℕ → ℕ → ℕ → Decoder → Decoding Value
  content rec major arg at d =
      if major == 0
      then ok (int (pos arg), d)
      else if major == 1
      then ok (int (negsuc arg), d)
      else if major == 2
      then (do (raw, d₁) ← take_bytes arg at d; ok (bytes raw, d₁))
      else if major == 3
      then (do (raw, d₁) ← take_bytes arg at d; check_text raw at; ok (text raw, d₁))
      else if major == 4
      then decode_array rec arg d
      else if major == 5
      then decode_map rec arg d
      else fail Errors.reserved_additional at

  -- `item` from the first byte on.
  unfoldable pub first_byte : (Decoder → Decoding Value) → List ℕ → Decoder → Decoding Value
  first_byte rec [] d = fail Errors.truncated d.pos
  first_byte rec (b ∷ bs) d =
      let major = b / 2 ^ 5 in
      let ai = bit_and b 0x1f in
      if major == 7
      then simple ai d
      else if major == 6
      then fail Errors.tag d.pos
      else (do (arg, d₁) ← read_arg ai d.pos (advance 1 d); content rec major arg d.pos d₁)

  unfoldable pub item_body : (Decoder → Decoding Value) → Decoder → Decoding Value
  item_body rec d =
      let d₁ : Decoder = record d { items = d.items + 1 } in
      if ltb max_items d₁.items then fail Errors.size_exceeded d.pos else first_byte rec d₁.rest d₁

  unfoldable pub item : ℕ → Decoder → Decoding Value
  item zero d = fail Errors.depth_exceeded d.pos
  item (suc room) d = item_body (item room) d

  unfoldable pub decode : List ℕ → Result DecodeError Value
  decode input = do
    (v, d) ← item (max_depth + 1) (record { rest = input; pos = 0; items = 0 })
    if not (d.pos == length input) then fail Errors.trailing_bytes d.pos else ok v
