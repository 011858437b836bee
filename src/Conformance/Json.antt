-- ===== src/Conformance/Json.antt =====
-- The values that `encoding/json` decodes into an `any`, numbers kept as their text (`UseNumber`), and
-- the integers that `math/big` reads of such a text.
use murmur_go.Common.{
  ℕ, suc, ◌+◌, ◌-◌, ◌*◌, Bool, ◌||◌, Option, none, some, List, [], ◌∷◌, ltb, ◌==◌, if◌then◌else◌,
}
use murmur_go.Common.Int.{ℤ, pos, negsuc}

-- A `map[string]any` is its pairs, in the order in which a loop meets them.
mutual
  pub data Json : Type 0 where
    number : List ℕ → Json
    string : List ℕ → Json
    boolean : Bool → Json
    list : Jsons → Json
    object : Members → Json
    null : Json

  pub data Jsons : Type 0 where
    nil : Jsons
    cons : Json → Jsons → Jsons

  pub data Members : Type 0 where
    none_left : Members
    member : List ℕ → Json → Members → Members

-- The digits of a number in base ten, behind those read so far.
unfoldable pub scan_digits : List ℕ → ℕ → Option ℕ
scan_digits [] n = some n
scan_digits (c ∷ s) n =
    let rest = scan_digits s (n * 10 + (c - 48)) in if ltb c b'0' || ltb b'9' c then none else rest

-- At least one digit.
unfoldable pub read_digits : List ℕ → Option ℕ
read_digits [] = none
read_digits (c ∷ s) = scan_digits (c ∷ s) 0

abbrev pub negate : ℕ → ℤ
negate ℕ.zero = pos 0
negate (suc n) = negsuc n

unfoldable pub signed : Bool → Option ℕ → Option ℤ
signed Bool.true (some n) = some (negate n)
signed Bool.false (some n) = some (pos n)
signed _ none = none

-- `SetString(s, 10)`.
unfoldable pub set_string : List ℕ → Option ℤ
set_string [] = none
set_string (c ∷ s) =
    if c == b'-'
    then signed Bool.true (read_digits s)
    else if c == b'+'
    then signed Bool.false (read_digits s)
    else signed Bool.false (read_digits (c ∷ s))
