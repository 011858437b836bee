-- ===== src/Conformance/Author.antt =====
-- Every value of the codec has a tagged JSON that conformance/value.go reads as it.
use murmur_go.Common.{
  ℕ, zero, suc, ◌+◌, ◌/◌, ◌%◌, ◌≤◌, ◌<◌, ◌≡◌, refl, ap, ◌∙◌, true, false, some, List, [], ◌∷◌,
  ne→==, arith, All, Result, ltb, lt→ltb, ok, Bool-cases, inl, inr, ltb→lt, ltb-false→le,
}
use murmur_go.Common.Int.{ℤ, pos, negsuc}
use murmur_go.Cbor.Value
use murmur_go.Cbor.Value.{
  Value, Values, Entries, int, bytes, text, bool, array, map, decimal, rational, end, entry,
}
use murmur_go.Cbor.Head.Form.{IsByte}
use murmur_go.Cbor.Order.{compare_bytes}
use murmur_go.Schema.Path.{codes, digits}
use murmur_go.Conformance.Hex.{hex_encode}
use murmur_go.Conformance.Hex.RoundTrip.{hex_decode-hex_encode}
use murmur_go.Conformance.Json.{
  Json, Jsons, number, string, boolean, list, object, nil, cons, none_left, member, scan_digits,
  read_digits, set_string, signed,
}
use murmur_go.Conformance.Walk.{
  walk, walk_items, walk_pairs, walk_tag, only_member, is_tag, walk_bytes, two_ints, ValueError,
  or_error, not_an_integer, big_from_any, big_from_number, int_from_number,
}

-- A number as JSON writes it.
abbrev pub numeral : ℤ → List ℕ
numeral (pos n) = digits (suc n) n []
numeral (negsuc n) = b'-' ∷ digits (suc (suc n)) (suc n) []

abbrev pub tagged : List ℕ → Json → Json
tagged tag j = object (member tag j none_left)

abbrev pub pair : Json → Json → Json
pair a b = list (cons a (cons b nil))

unfoldable mutual
  pub author : Value → Json
  author (int n) = number (numeral n)
  author (bytes b) = tagged (codes "$bytes") (string (hex_encode b))
  author (text s) = string s
  author (bool b) = boolean b
  author (array vs) = list (author_items vs)
  author (map es) = tagged (codes "$map") (list (author_pairs es))
  author (decimal s m) = tagged (codes "$decimal") (pair (number (numeral s)) (number (numeral m)))
  author (rational n d) =
      tagged (codes "$rational") (pair (number (numeral n)) (number (numeral d)))

  pub author_items : Values → Jsons
  author_items Value.nil = nil
  author_items (Value.cons v vs) = cons (author v) (author_items vs)

  pub author_pairs : Entries → Jsons
  author_pairs end = nil
  author_pairs (entry k v es) = cons (pair (author k) (author v)) (author_pairs es)

-- The byte strings of the value are bytes.
unfoldable mutual
  pub OfBytes : Value → Type 0
  OfBytes (int n) = Unit
  OfBytes (bytes b) = All IsByte b
  OfBytes (text s) = Unit
  OfBytes (bool b) = Unit
  OfBytes (array vs) = OfBytesItems vs
  OfBytes (map es) = OfBytesEntries es
  OfBytes (decimal s m) = Unit
  OfBytes (rational n d) = Unit

  pub OfBytesItems : Values → Type 0
  OfBytesItems Value.nil = Unit
  OfBytesItems (Value.cons v vs) = OfBytes v × OfBytesItems vs

  pub OfBytesEntries : Entries → Type 0
  OfBytesEntries end = Unit
  OfBytesEntries (entry k v es) = OfBytes k × OfBytes v × OfBytesEntries es

-- A text that begins with a digit.
data Starts : List ℕ → Type 0 where
  starts : {c : ℕ} {s : List ℕ} → b'0' ≤ c → c ≤ b'9' → Starts (c ∷ s)

scan_one : (n : ℕ) (rest : List ℕ) → n < 10 → scan_digits ((48 + n) ∷ rest) 0 ≡ scan_digits rest n
unfolding scan_digits
scan_one n rest h = ground arith

scan_last :
    (n : ℕ) (rest : List ℕ) → scan_digits ((48 + n % 10) ∷ rest) (n / 10) ≡ scan_digits rest n
unfolding scan_digits
scan_last n rest = ground arith

-- Reading the digits of a number in front of a text gives the number.
scan-digits :
    (f n : ℕ) (rest : List ℕ) → n ≤ f → scan_digits (digits (suc f) n rest) 0 ≡ scan_digits rest n
unfolding digits
scan-digits zero n rest h = rw (lt→ltb n 10 (omega arith)) (scan_one n rest (omega arith))
scan-digits (suc f) n rest h = elim (Bool-cases (ltb n 10)) [
  | inl small ↦ rw small (scan_one n rest (ltb→lt n 10 small))
  | inr large ↦
      let big = ltb-false→le n 10 large in
      rw large
        (scan-digits f (n / 10) ((48 + n % 10) ∷ rest) (omega (arith, big)) ∙ scan_last n rest)
]

digits-Starts : (f n : ℕ) (rest : List ℕ) → n ≤ f → Starts (digits (suc f) n rest)
unfolding digits
digits-Starts zero n rest h = rw (lt→ltb n 10 (omega arith)) (starts (omega arith) (omega arith))
digits-Starts (suc f) n rest h = elim (Bool-cases (ltb n 10)) [
  | inl small ↦
      let few = ltb→lt n 10 small in rw small (starts (omega (arith, few)) (omega (arith, few)))
  | inr large ↦
      let big = ltb-false→le n 10 large in
      rw large (digits-Starts f (n / 10) ((48 + n % 10) ∷ rest) (omega (arith, big)))
]

read_digits-Starts : (s : List ℕ) → Starts s → read_digits s ≡ scan_digits s 0
unfolding read_digits
read_digits-Starts [] h = elim h [ ]
read_digits-Starts (c ∷ s) (starts lo hi) = refl

set_string-Starts : (s : List ℕ) → Starts s → set_string s ≡ signed false (scan_digits s 0)
unfolding set_string read_digits
set_string-Starts [] h = elim h [ ]
set_string-Starts (c ∷ s) (starts lo hi) =
    rw (ne→== c b'-' (omega (arith, lo)), ne→== c b'+' (omega (arith, lo))) refl

-- An integer that is written in base ten is read back.
pub set_string-numeral : (n : ℤ) → set_string (numeral n) ≡ some n
unfolding signed scan_digits set_string
set_string-numeral (pos n) =
    set_string-Starts (digits (suc n) n []) (digits-Starts n n [] (omega arith))
    ∙ ap (signed false) (scan-digits n n [] (omega arith))
set_string-numeral (negsuc n) = ap (signed true) (
    read_digits-Starts (digits (suc (suc n)) (suc n) [])
      (digits-Starts (suc n) (suc n) [] (omega arith))
    ∙ scan-digits (suc n) (suc n) [] (omega arith))

big_from_number-numeral : (n : ℤ) → big_from_number (numeral n) ≡ ok n
unfolding big_from_number
big_from_number-numeral n = ap (or_error not_an_integer) (set_string-numeral n)

big_from_any-numeral : (n : ℤ) → big_from_any (number (numeral n)) ≡ ok n
unfolding big_from_any
big_from_any-numeral n = big_from_number-numeral n

two_ints-numeral : (a b : ℤ) → two_ints (pair (number (numeral a)) (number (numeral b))) ≡ ok (a, b)
unfolding two_ints
two_ints-numeral a b = rw (big_from_any-numeral a, big_from_any-numeral b) refl

-- A tag alone in its object is taken as the tag.
module _ (j : Json) (walked pairs : Result ValueError Value) where
  only_member_bytes : only_member (codes "$bytes") j walked pairs ≡ walk_bytes j
  unfolding only_member walk_tag is_tag compare_bytes
  only_member_bytes = refl

  pub only_member_map : only_member (codes "$map") j walked pairs ≡ pairs
  unfolding only_member walk_tag is_tag compare_bytes
  only_member_map = refl

  only_member_decimal :
      (a b : ℤ)
      → two_ints j ≡ ok (a, b)
      → only_member (codes "$decimal") j walked pairs ≡ ok (decimal a b)
  unfolding only_member walk_tag is_tag compare_bytes
  only_member_decimal a b h = rw h refl

  only_member_rational :
      (a b : ℤ)
      → two_ints j ≡ ok (a, b)
      → only_member (codes "$rational") j walked pairs ≡ ok (rational a b)
  unfolding only_member walk_tag is_tag compare_bytes
  only_member_rational a b h = rw h refl

walk_bytes-hex_encode :
    (b : List ℕ) → All IsByte b → walk_bytes (string (hex_encode b)) ≡ ok (bytes b)
unfolding walk_bytes
walk_bytes-hex_encode b h = rw (hex_decode-hex_encode b h) refl

int_from_number-numeral : (n : ℤ) → int_from_number (numeral n) ≡ ok (int n)
unfolding int_from_number
int_from_number-numeral n = rw (big_from_number-numeral n) refl

mutual
  unfolding walk author OfBytes

  reads : (v : Value) → OfBytes v → walk (author v) ≡ ok v
  reads (int n) h = int_from_number-numeral n
  reads (bytes b) h = only_member_bytes (string (hex_encode b)) _ _ ∙ walk_bytes-hex_encode b h
  reads (text s) h = refl
  reads (bool b) h = refl
  reads (array vs) h = rw (reads_items vs h) refl
  reads (map es) h = only_member_map (list (author_pairs es)) _ _ ∙ rw (reads_pairs es h) refl
  reads (decimal s m) h =
      only_member_decimal (pair (number (numeral s)) (number (numeral m))) _ _ s m
        (two_ints-numeral s m)
  reads (rational n d) h =
      only_member_rational (pair (number (numeral n)) (number (numeral d))) _ _ n d
        (two_ints-numeral n d)

  reads_items : (vs : Values) → OfBytesItems vs → walk_items (author_items vs) ≡ ok vs
  reads_items Value.nil h = refl
  reads_items (Value.cons v vs) h = rw (reads v h.0, reads_items vs h.1) refl

  reads_pairs : (es : Entries) → OfBytesEntries es → walk_pairs (author_pairs es) ≡ ok es
  reads_pairs end h = refl
  reads_pairs (entry k v es) h = rw (reads k h.0, reads v h.1, reads_pairs es h.2) refl

-- The tagged JSON of a value whose byte strings are bytes is read as the value.
pub walk-author : (v : Value) → OfBytes v → walk (author v) ≡ ok v
walk-author = reads
