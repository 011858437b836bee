-- ===== src/Cbor/Value.antt =====
-- cbor/value.go: the closed set of canonical values. A slice of values or of map entries is a data
-- type of its own, since a type cannot hold itself inside `List`. Byte strings and texts are lists of
-- bytes. The pointers to big integers are never nil here.
use murmur_go.Common.{ℕ, suc, Bool, List}
use murmur_go.Common.Int.{ℤ}

mutual
  pub data Value : Type 0 where
    int : ℤ → Value
    bytes : List ℕ → Value
    text : List ℕ → Value
    bool : Bool → Value
    array : Values → Value
    map : Entries → Value
    -- scale, mantissa
    decimal : ℤ → ℤ → Value
    -- numerator, denominator
    rational : ℤ → ℤ → Value

  -- `Array.Items`.
  pub data Values : Type 0 where
    nil : Values
    cons : Value → Values → Values

  -- `Map.Entries`: each `entry` is a `MapEntry`, a key and a value.
  pub data Entries : Type 0 where
    end : Entries
    entry : Value → Value → Entries → Entries

-- `len(t.Items)`.
abbrev pub count : Values → ℕ
count nil = 0
count (cons v vs) = suc (count vs)

-- `len(m.Entries)`.
abbrev pub count_entries : Entries → ℕ
count_entries end = 0
count_entries (entry k v es) = suc (count_entries es)
