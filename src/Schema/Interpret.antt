-- ===== src/Schema/Interpret.antt =====
-- schema/interpret.go: the interpretation of a value under a field table.
use murmur_go.Common.{
  ℕ, suc, none, some, List, [], not, if◌then◌else◌, Result, ok, ◌>>=◌, ◌>>◌, map_err,
}
use murmur_go.Common.Int.{ℤ, ◌==ℤ◌, is_int64}
use murmur_go.Cbor.Value.{
  Value, Values, Entries, int, bytes, text, bool, array, map, decimal, rational, nil, cons, end,
  entry,
}
use murmur_go.Cbor.Canonical.{check_decimal, check_rational}
use murmur_go.Schema.Errors
use murmur_go.Schema.Errors.{SchemaError, refuse}
use murmur_go.Schema.Path.{index_path, field_path}
use murmur_go.Schema.Table.{
  TypeDescriptor, Element, descriptor, element, no_element, FieldTable, entry_by_key, kind_int,
  kind_bytes, kind_text, kind_bool, kind_decimal, kind_rational, kind_array, kind_ref,
}
use murmur_go.Schema.Registry.{Registry, lookup}
use murmur_go.Schema.Instance
use murmur_go.Schema.Instance.{Fields, Any, Anys, no_fields, plain, nested, instance_of, set_field}

-- `mismatch`, less its message.
abbrev pub mismatch : {A : Type 0} → List ℕ → Result SchemaError A
mismatch path = refuse Errors.type_mismatch path

unfoldable pub two_ints : Value → List ℕ → Result SchemaError (ℤ × ℤ)
two_ints (array (cons (int a) (cons (int b) nil))) path = ok (a, b)
two_ints _ path = refuse Errors.bad_magnitude path

-- The scalar kinds: the type assertion on the value.
unfoldable pub as_int : Value → List ℕ → Result SchemaError Any
as_int (int n) path = ok (plain (int n))
as_int _ path = mismatch path

unfoldable pub as_bytes : Value → List ℕ → Result SchemaError Any
as_bytes (bytes b) path = ok (plain (bytes b))
as_bytes _ path = mismatch path

unfoldable pub as_text : Value → List ℕ → Result SchemaError Any
as_text (text s) path = ok (plain (text s))
as_text _ path = mismatch path

unfoldable pub as_bool : Value → List ℕ → Result SchemaError Any
as_bool (bool b) path = ok (plain (bool b))
as_bool _ path = mismatch path

unfoldable pub as_decimal : Value → List ℕ → Result SchemaError Any
as_decimal v path = do
  (scale, mantissa) ← two_ints v path
  map_err (λ e. record { reason = Errors.non_canonical_decimal; path = path })
      (check_decimal (some scale) (some mantissa))
  ok (plain (decimal scale mantissa))

unfoldable pub as_rational : Value → List ℕ → Result SchemaError Any
as_rational v path = do
  (num, den) ← two_ints v path
  map_err (λ e. record { reason = Errors.non_canonical_rational; path = path })
      (check_rational (some num) (some den))
  ok (plain (rational num den))

-- The case of an array, whose type names the type of the items or not.
unfoldable pub with_element :
    Element → List ℕ → (TypeDescriptor → Result SchemaError Anys) → Result SchemaError Any
with_element no_element path items = refuse Errors.malformed_descriptor path
with_element (element td) path items = items td >>= (λ out. ok (Instance.array out))

module _ (reg : Registry) (version : ℤ) where
  -- The switch of `interpretValue`, given the readings of the value as an array and as a map.
  unfoldable pub by_kind :
      TypeDescriptor
      → Value
      → List ℕ
      → (Element → Result SchemaError Any)
      → (FieldTable → Result SchemaError Any)
      → Result SchemaError Any
  by_kind (descriptor kind of_ ref unit) v path as_array as_map =
      if kind ==ℤ kind_int
      then as_int v path
      else if kind ==ℤ kind_bytes
      then as_bytes v path
      else if kind ==ℤ kind_text
      then as_text v path
      else if kind ==ℤ kind_bool
      then as_bool v path
      else if kind ==ℤ kind_decimal
      then as_decimal v path
      else if kind ==ℤ kind_rational
      then as_rational v path
      else if kind ==ℤ kind_array
      then as_array of_
      else if kind ==ℤ kind_ref
      then elim (lookup reg ref version) [
        | some child ↦ as_map child
        | none ↦ refuse Errors.unresolved_ref path
      ]
      else refuse Errors.unresolved_ref path

  -- One entry of a map: its key is a known field, and its value one of the type of the field.
  unfoldable pub bind_entry :
      FieldTable
      → Value
      → (TypeDescriptor → List ℕ → Result SchemaError Any)
      → List ℕ
      → Result SchemaError (ℤ × Any)
  bind_entry table (int key) value path =
      if not (is_int64 key)
      then refuse Errors.unknown_field path
      else (elim (entry_by_key table key) [
        | none ↦ refuse Errors.unknown_field path
        | some e ↦ value e.type (field_path path e.name) >>= (λ val. ok (key, val))
      ])
  bind_entry table _ value path = refuse Errors.bad_field_key path

  unfoldable mutual
    pub interpret_value : Value → TypeDescriptor → List ℕ → Result SchemaError Any
    interpret_value (array items) td path =
        by_kind td (array items) path
          (λ o. with_element o path (λ e. interpret_items items e path 0)) (λ t. mismatch path)
    interpret_value (map es) td path =
        by_kind td (map es) path (λ o. mismatch path)
          (λ t.
            interpret_entries es t path no_fields
            >>= (λ fs. ok (nested (instance_of t version fs))))
    interpret_value v td path = by_kind td v path (λ o. mismatch path) (λ t. mismatch path)

    pub interpret_items : Values → TypeDescriptor → List ℕ → ℕ → Result SchemaError Anys
    interpret_items nil td path i = ok Instance.nil
    interpret_items (cons item items) td path i =
        interpret_value item td (index_path path i)
        >>= (λ el. interpret_items items td path (suc i) >>= (λ out. ok (Instance.cons el out)))

    -- The loop of `interpretMap`.
    pub interpret_entries : Entries → FieldTable → List ℕ → Fields → Result SchemaError Fields
    interpret_entries end table path fields = ok fields
    interpret_entries (entry key value es) table path fields =
        bind_entry table key (interpret_value value) path
        >>= (λ (k, val). interpret_entries es table path (set_field k val fields))

  unfoldable pub interpret_map : FieldTable → Value → List ℕ → Result SchemaError Instance.Instance
  interpret_map table (map es) path =
      interpret_entries es table path no_fields >>= (λ fs. ok (instance_of table version fs))
  interpret_map table _ path = mismatch path

unfoldable pub interpret : FieldTable → Value → Registry → Result SchemaError Instance.Instance
interpret table v reg = interpret_map reg table.version table v []
