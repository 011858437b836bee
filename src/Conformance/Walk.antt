-- ===== src/Conformance/Walk.antt =====
-- conformance/value.go: a value of the codec out of the tagged JSON of a vector.
use murmur_go.Common.{
  ℕ, Bool, false, Option, none, some, List, [], ◌∷◌, ◌==◌, if◌then◌else◌, Result, ok, err, ◌>>=◌,
}
use murmur_go.Common.Int.{ℤ}
use murmur_go.Cbor.Order.{same_bytes}
use murmur_go.Cbor.Value
use murmur_go.Cbor.Value.{
  Value, Values, Entries, int, bytes, text, bool, array, map, decimal, rational, end, entry,
}
use murmur_go.Schema.Path.{codes}
use murmur_go.Conformance.Hex.{hex_decode}
use murmur_go.Conformance.Json.{
  Json, Jsons, Members, number, string, boolean, list, object, null, nil, cons, none_left, member,
  set_string,
}

pub data ValueError : Type 0 where
  not_json not_an_integer null_value unregistered_tag unknown_tag : ValueError
  wants_hex bad_hex wants_two_integers wants_pairs : ValueError

-- A value that is there, or the error.
abbrev pub or_error : {A : Type 0} → ValueError → Option A → Result ValueError A
or_error e none = err e
or_error e (some a) = ok a

unfoldable pub big_from_number : List ℕ → Result ValueError ℤ
big_from_number n = or_error not_an_integer (set_string n)

unfoldable pub big_from_any : Json → Result ValueError ℤ
big_from_any (number n) = big_from_number n
big_from_any _ = err not_an_integer

unfoldable pub int_from_number : List ℕ → Result ValueError Value
int_from_number n = big_from_number n >>= λ b. ok (int b)

unfoldable pub two_ints : Json → Result ValueError (ℤ × ℤ)
two_ints (list (cons x (cons y nil))) = big_from_any x >>= λ a. big_from_any y >>= λ b. ok (a, b)
two_ints _ = err wants_two_integers

unfoldable pub walk_bytes : Json → Result ValueError Value
walk_bytes (string s) = or_error bad_hex (hex_decode s) >>= λ raw. ok (bytes raw)
walk_bytes _ = err wants_hex

-- `strings.HasPrefix(k, "$")`.
unfoldable pub is_tag : List ℕ → Bool
is_tag [] = false
is_tag (c ∷ k) = c == b'$'

-- `walkTag`, given what `walkMapPairs` makes of the value.
unfoldable pub walk_tag : List ℕ → Json → Result ValueError Value → Result ValueError Value
walk_tag tag v map_pairs =
    if same_bytes tag (codes "$bytes")
    then walk_bytes v
    else if same_bytes tag (codes "$decimal")
    then two_ints v >>= (λ (a, b). ok (decimal a b))
    else if same_bytes tag (codes "$rational")
    then two_ints v >>= (λ (a, b). ok (rational a b))
    else if same_bytes tag (codes "$map")
    then map_pairs
    else err unknown_tag

-- A plain member: its key begins no tag.
unfoldable pub plain_entry :
    List ℕ → Result ValueError Value → Result ValueError Entries → Result ValueError Entries
plain_entry k walked rest =
    if is_tag k
    then err unregistered_tag
    else walked >>= (λ val. rest >>= (λ es. ok (entry (text k) val es)))

-- A member that is the only one of its object.
unfoldable pub only_member :
    List ℕ → Json → Result ValueError Value → Result ValueError Value → Result ValueError Value
only_member k v walked map_pairs =
    if is_tag k
    then walk_tag k v map_pairs
    else plain_entry k walked (ok end) >>= (λ es. ok (map es))

unfoldable mutual
  pub walk : Json → Result ValueError Value
  walk (number n) = int_from_number n
  walk (string s) = ok (text s)
  walk (boolean b) = ok (bool b)
  walk (list js) = walk_items js >>= λ items. ok (array items)
  walk (object ms) = walk_object ms
  walk null = err null_value

  pub walk_items : Jsons → Result ValueError Values
  walk_items nil = ok Value.nil
  walk_items (cons j js) = walk j >>= λ v. walk_items js >>= λ items. ok (Value.cons v items)

  pub walk_object : Members → Result ValueError Value
  walk_object none_left = ok (map end)
  walk_object (member k v none_left) = only_member k v (walk v) (walk_map_pairs v)
  walk_object (member k v (member k' v' ms)) =
      plain_entry k (walk v) (walk_members (member k' v' ms)) >>= λ es. ok (map es)

  -- The loop over the members of an object that is no tag.
  pub walk_members : Members → Result ValueError Entries
  walk_members none_left = ok end
  walk_members (member k v ms) = plain_entry k (walk v) (walk_members ms)

  pub walk_map_pairs : Json → Result ValueError Value
  walk_map_pairs (list pairs) = walk_pairs pairs >>= λ es. ok (map es)
  walk_map_pairs _ = err wants_pairs

  pub walk_pairs : Jsons → Result ValueError Entries
  walk_pairs nil = ok end
  walk_pairs (cons (list (cons k (cons v nil))) pairs) =
      walk k >>= λ key. walk v >>= λ val. walk_pairs pairs >>= λ es. ok (entry key val es)
  walk_pairs (cons _ pairs) = err wants_pairs

-- `parseValue`; the reader of JSON answers with the value at the front of its text.
unfoldable pub parse_value : (List ℕ → Option Json) → List ℕ → Result ValueError Value
parse_value read_json raw = or_error not_json (read_json raw) >>= walk
