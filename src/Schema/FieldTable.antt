-- ===== src/Schema/FieldTable.antt =====
-- schema/fieldtable.go: a field table out of the artifact it is authored as.
use murmur_go.Common.{
  ℕ, suc, Bool, not, ◌||◌, ◌++◌, Option, none, some, List, [], ◌∷◌, if◌then◌else◌, Result, ok,
  ◌>>=◌, ◌>>◌,
}
use murmur_go.Common.Int.{ℤ, pos, ◌==ℤ◌, is_int64}
use murmur_go.Cbor.Value.{Value}
use murmur_go.Schema.Errors
use murmur_go.Schema.Errors.{Reason, SchemaError, refuse}
use murmur_go.Schema.Path.{codes, index_path, field_path}
use murmur_go.Schema.Table.{
  Kind, TypeDescriptor, Element, descriptor, element, no_element, Entry, FieldTable, entry_by_key,
  kind_int, kind_bytes, kind_text, kind_bool, kind_decimal, kind_rational, kind_array, kind_ref,
}
use murmur_go.Schema.Registry.{Registry}
use murmur_go.Schema.Floor.{meta_table, entry_table}
use murmur_go.Schema.Instance.{
  Instance, Fields, Any, Anys, no_fields, field, nested, instance_of, nil, cons, has, get_int,
  get_text, get_ref, get_array,
}
use murmur_go.Schema.Interpret.{interpret}

-- `toInt`; the number is nil when the field was not one.
unfoldable pub to_int : Option ℤ → Result SchemaError ℤ
to_int none = refuse Errors.unresolved_ref []
to_int (some n) = if is_int64 n then ok n else refuse Errors.unresolved_ref []

-- A code that may be absent, and is 0 then.
unfoldable pub optional_code : Instance → ℤ → Result SchemaError ℤ
optional_code ti key = if has ti key then to_int (get_int ti key) else ok (pos 0)

abbrev pub malformed : {A : Type 0} → Result SchemaError A
malformed = refuse Errors.malformed_descriptor (codes "type-descriptor")

abbrev pub is_scalar : Kind → Bool
is_scalar kind =
    kind ==ℤ kind_int || kind ==ℤ kind_bytes || kind ==ℤ kind_text || kind ==ℤ kind_bool

abbrev pub is_magnitude : Kind → Bool
is_magnitude kind = kind ==ℤ kind_decimal || kind ==ℤ kind_rational

-- The switch that ends `parseTypeDescriptor`.
unfoldable pub check_fields : Kind → Bool → Bool → Bool → Result SchemaError (Unit {0})
check_fields kind has_of has_ref has_unit =
    if is_scalar kind
    then (if has_of || has_ref || has_unit then malformed else ok tt)
    else if kind ==ℤ kind_array
    then (if not has_of then malformed else if has_ref || has_unit then malformed else ok tt)
    else if kind ==ℤ kind_ref
    then (if not has_ref then malformed else if has_of || has_unit then malformed else ok tt)
    else if is_magnitude kind
    then (if not has_unit then malformed else if has_of || has_ref then malformed else ok tt)
    else ok tt

-- `parseTypeDescriptor`, given the reading of the element type.
unfoldable pub descriptor_with :
    Instance → Result SchemaError Element → Result SchemaError TypeDescriptor
descriptor_with ti read_of = if not (has ti (pos 0)) then malformed else (do
  kind ← to_int (get_int ti (pos 0))
  o ← read_of
  ref ← optional_code ti (pos 2)
  unit ← optional_code ti (pos 3)
  check_fields kind (has ti (pos 1)) (has ti (pos 2)) (has ti (pos 3))
  ok (descriptor kind o ref unit))

unfoldable mutual
  pub parse_type_descriptor : Instance → Result SchemaError TypeDescriptor
  parse_type_descriptor (instance_of t v fs) = descriptor_with (instance_of t v fs) (parse_of fs)

  -- The field of key 1, if there is one.
  pub parse_of : Fields → Result SchemaError Element
  parse_of no_fields = ok no_element
  parse_of (field k a fs) =
      let rest = parse_of fs in let this = parse_element a in if k ==ℤ pos 1 then this else rest

  pub parse_element : Any → Result SchemaError Element
  parse_element (nested i) = parse_type_descriptor i >>= (λ td. ok (element td))
  parse_element _ = refuse Errors.type_mismatch (codes "type-descriptor.of")

abbrev entries_path : ℕ → List ℕ
entries_path i = index_path (codes "entries") i

-- `name, _ := EntryTable.entryByKey(k)`: the empty name if there is none.
abbrev name_of_key : ℤ → List ℕ
name_of_key k = elim (entry_by_key entry_table k) [ some e ↦ e.name | none ↦ [] ]

-- The first of the keys that the instance has no field of is refused.
unfoldable pub all_present :
    Instance → List ℤ → Reason → (ℤ → List ℕ) → Result SchemaError (Unit {0})
all_present inst [] reason path = ok tt
all_present inst (k ∷ ks) reason path =
    if not (has inst k) then refuse reason (path k) else all_present inst ks reason path

abbrev pub entry_keys : List ℤ
entry_keys = pos 0 ∷ pos 1 ∷ pos 2 ∷ pos 3 ∷ []

abbrev pub table_keys : List ℤ
table_keys = pos 0 ∷ pos 1 ∷ pos 2 ∷ []

-- `name, _ := ei.Text(1)`: the empty text if there is none.
abbrev pub text_or_empty : Option (List ℕ) → List ℕ
text_or_empty none = []
text_or_empty (some s) = s

abbrev pub type_of : Option Instance → ℕ → Result SchemaError TypeDescriptor
type_of none idx = refuse Errors.type_mismatch (field_path (entries_path idx) (codes "type"))
type_of (some i) idx = parse_type_descriptor i

unfoldable pub entry_present : Instance → ℕ → Result SchemaError (Unit {0})
entry_present ei idx =
    all_present ei entry_keys Errors.malformed_entry
      (λ k. entries_path idx ++ (b'.' ∷ name_of_key k))

unfoldable pub parse_entry : Instance → ℕ → Result SchemaError Entry
parse_entry ei idx = do
  entry_present ei idx
  key ← to_int (get_int ei (pos 0))
  pres ← to_int (get_int ei (pos 3))
  td ← type_of (get_ref ei (pos 2)) idx
  ok (record { key = key; name = text_or_empty (get_text ei (pos 1)); type = td; presence = pres })

-- The loop over the raw entries.
unfoldable pub parse_entries : Anys → ℕ → Result SchemaError (List Entry)
parse_entries nil i = ok []
parse_entries (cons (nested ei) raws) i = do
  ent ← parse_entry ei i
  ents ← parse_entries raws (suc i)
  ok (ent ∷ ents)
parse_entries (cons _ raws) i = refuse Errors.type_mismatch (entries_path i)

unfoldable pub check_positions : List Entry → ℕ → Result SchemaError (Unit {0})
check_positions [] i = ok tt
check_positions (e ∷ es) i =
    if not (e.key ==ℤ pos i)
    then refuse Errors.malformed_field_table (entries_path i)
    else check_positions es (suc i)

unfoldable pub validate_entry_keys : List Entry → Result SchemaError (Unit {0})
validate_entry_keys [] = refuse Errors.malformed_field_table (codes "entries")
validate_entry_keys (e ∷ es) = check_positions (e ∷ es) 0

-- `rawEntries, _ := in.Array(2)`: no entries if there is no array.
abbrev pub array_or_empty : Option Anys → Anys
array_or_empty none = nil
array_or_empty (some xs) = xs

unfoldable pub table_present : Instance → Result SchemaError (Unit {0})
table_present inst = all_present inst table_keys Errors.malformed_field_table (λ k. [])

-- `ParseFieldTable` once the artifact is interpreted.
unfoldable pub project : Instance → Result SchemaError FieldTable
project inst = do
  table_present inst
  d_code ← to_int (get_int inst (pos 0))
  ver ← to_int (get_int inst (pos 1))
  entries ← parse_entries (array_or_empty (get_array inst (pos 2))) 0
  validate_entry_keys entries
  ok (record { describes = d_code; version = ver; entries = entries })

unfoldable pub parse_field_table : Value → Registry → Result SchemaError FieldTable
parse_field_table v reg = interpret meta_table v reg >>= project
