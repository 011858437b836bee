-- ===== src/Schema/Instance.antt =====
-- The instances of schema/interpret.go: the named, typed view of a value under a field table.
use murmur_go.Common.{
  ℕ, Bool, true, false, Option, none, some, List, [], ◌∷◌, if◌then◌else◌, Result, ok,
}
use murmur_go.Common.Int.{ℤ, ◌==ℤ◌}
use murmur_go.Cbor.Value.{Value, int, bytes, text, bool, decimal, rational}
use murmur_go.Schema.Errors
use murmur_go.Schema.Errors.{SchemaError, refuse}
use murmur_go.Schema.Table.{FieldTable}

-- An `any` is a value of the codec, a nested instance or an array of such; `Fields` is the Go map, as
-- an association list: the order of the fields has no meaning (`SameInstance` leaves it out).
mutual
  pub data Instance : Type 0 where
    instance_of : FieldTable → ℤ → Fields → Instance

  pub data Fields : Type 0 where
    no_fields : Fields
    field : ℤ → Any → Fields → Fields

  pub data Any : Type 0 where
    plain : Value → Any
    nested : Instance → Any
    array : Anys → Any

  pub data Anys : Type 0 where
    nil : Anys
    cons : Any → Anys → Anys

abbrev pub fields_of : Instance → Fields
fields_of (instance_of t v fs) = fs

-- `fields[key]`.
unfoldable pub get_field : ℤ → Fields → Option Any
get_field key no_fields = none
get_field key (field k a fs) = if k ==ℤ key then some a else get_field key fs

-- `fields[key] = val`.
unfoldable pub set_field : ℤ → Any → Fields → Fields
set_field key val no_fields = field key val no_fields
set_field key val (field k a fs) =
    if k ==ℤ key then field k val fs else field k a (set_field key val fs)

abbrev pub is_present : Option Any → Bool
is_present none = false
is_present (some a) = true

unfoldable pub has : Instance → ℤ → Bool
has inst key = is_present (get_field key (fields_of inst))

-- The names in the message are left out.
unfoldable pub require : Instance → List ℤ → Result SchemaError (Unit {0})
require inst [] = ok tt
require inst (k ∷ ks) = if has inst k then require inst ks else refuse Errors.missing_field []

-- The accessors: the value of a field, if it is there and of the type.
abbrev pub get_plain : Instance → ℤ → Option Value
get_plain inst key = elim (get_field key (fields_of inst)) [ some (plain v) ↦ some v | _ ↦ none ]

unfoldable pub get_int : Instance → ℤ → Option ℤ
get_int inst key = elim (get_plain inst key) [ some (int n) ↦ some n | _ ↦ none ]

unfoldable pub get_text : Instance → ℤ → Option (List ℕ)
get_text inst key = elim (get_plain inst key) [ some (text s) ↦ some s | _ ↦ none ]

unfoldable pub get_bool : Instance → ℤ → Option Bool
get_bool inst key = elim (get_plain inst key) [ some (bool b) ↦ some b | _ ↦ none ]

unfoldable pub get_bytes : Instance → ℤ → Option (List ℕ)
get_bytes inst key = elim (get_plain inst key) [ some (bytes b) ↦ some b | _ ↦ none ]

unfoldable pub get_decimal : Instance → ℤ → Option (ℤ × ℤ)
get_decimal inst key = elim (get_plain inst key) [ some (decimal s m) ↦ some (s, m) | _ ↦ none ]

unfoldable pub get_rational : Instance → ℤ → Option (ℤ × ℤ)
get_rational inst key = elim (get_plain inst key) [ some (rational n d) ↦ some (n, d) | _ ↦ none ]

unfoldable pub get_ref : Instance → ℤ → Option Instance
get_ref inst key = elim (get_field key (fields_of inst)) [ some (nested i) ↦ some i | _ ↦ none ]

unfoldable pub get_array : Instance → ℤ → Option Anys
get_array inst key = elim (get_field key (fields_of inst)) [ some (array xs) ↦ some xs | _ ↦ none ]
