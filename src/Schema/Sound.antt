-- ===== src/Schema/Sound.antt =====
-- The interpretation of schema/interpret.go keeps to the table.
use murmur_go.Common.{
  ℕ, suc, ◌≡◌, refl, List, [], Option, none, some, Result, ok, Ensures, Ensures-ok, ◌>>=◌, returned,
  refused, Ensures-if, Ensures-bind, not,
}
use murmur_go.Common.Int.{ℤ, is_int64}
use murmur_go.Cbor.Value.{Value, Values, Entries, int, array, map, nil, cons, end, entry}
use murmur_go.Schema.Errors.{SchemaError}
use murmur_go.Schema.Path.{index_path, field_path}
use murmur_go.Schema.Table.{TypeDescriptor, FieldTable, Entry, entry_by_key}
use murmur_go.Schema.Registry.{Registry}
use murmur_go.Schema.Instance.{Instance, Fields, Any, no_fields, instance_of, set_field}
use murmur_go.Schema.Interpret.{
  bind_entry, interpret_value, interpret_items, interpret_entries, interpret_map, interpret,
}
use murmur_go.Schema.Typing.{
  HasType, AllTyped, FieldsTyped, fields_typed, no_items, one_item, none_typed, by_kind-HasType,
  with_element-IsArray, set_field-FieldsTyped,
}

module _ (reg : Registry) (version : ℤ) where
  -- A key that the table knows, with a value of its type.
  record IsField (t : FieldTable) (kv : ℤ × Any) : Type 0 where
    found : Entry
    known : entry_by_key t kv.0 ≡ some found
    typed : HasType reg version found.type kv.1

  found-IsField :
      (t : FieldTable) (key : ℤ) (o : Option Entry)
      {value : TypeDescriptor → List ℕ → Result SchemaError Any} (path : List ℕ) (e : SchemaError)
      → entry_by_key t key ≡ o
      → ((td : TypeDescriptor) (p : List ℕ) → Ensures (HasType reg version td) (value td p))
      → Ensures (IsField t) (elim o [
        | none ↦ Result.err e
        | some f ↦ value f.type (field_path path f.name) >>= (λ val. ok (key, val))
      ])
  found-IsField t key none path e known h = refused
  found-IsField t key (some f) path e known h =
      Ensures-bind (h f.type (field_path path f.name))
        λ val typed. returned (record { found = f; known = known; typed = typed })

  bind_entry-IsField :
      (t : FieldTable) (k : Value) {value : TypeDescriptor → List ℕ → Result SchemaError Any}
      (path : List ℕ)
      → ((td : TypeDescriptor) (p : List ℕ) → Ensures (HasType reg version td) (value td p))
      → Ensures (IsField t) (bind_entry reg version t k value path)
  unfolding bind_entry
  bind_entry-IsField t (int key) path h =
      Ensures-if (not (is_int64 key)) (λ _. refused)
        λ _. found-IsField t key (entry_by_key t key) path _ refl h
  bind_entry-IsField t _ path h = refused

  mutual
    unfolding interpret_value

    interpret_value-HasType :
        (v : Value) (td : TypeDescriptor) (path : List ℕ)
        → Ensures (HasType reg version td) (interpret_value reg version v td path)
    interpret_value-HasType (array items) td path =
        by_kind-HasType reg version td (array items) path
          (λ o.
            with_element-IsArray reg version o path (λ e. interpret_items-AllTyped items e path 0))
          (λ t. refused)
    interpret_value-HasType (map es) td path =
        by_kind-HasType reg version td (map es) path (λ o. refused)
          (λ t.
            Ensures-bind (interpret_entries-FieldsTyped es t path no_fields none_typed)
              (λ fs h. returned (fields_typed h)))
    interpret_value-HasType v td path =
        by_kind-HasType reg version td v path (λ o. refused) (λ t. refused)

    interpret_items-AllTyped :
        (vs : Values) (td : TypeDescriptor) (path : List ℕ) (i : ℕ)
        → Ensures (AllTyped reg version td) (interpret_items reg version vs td path i)
    interpret_items-AllTyped nil td path i = returned no_items
    interpret_items-AllTyped (cons v vs) td path i =
        Ensures-bind (interpret_value-HasType v td (index_path path i)) λ a h.
          Ensures-bind (interpret_items-AllTyped vs td path (suc i))
            λ xs hs. returned (one_item h hs)

    interpret_entries-FieldsTyped :
        (es : Entries) (t : FieldTable) (path : List ℕ) (fs : Fields)
        → FieldsTyped reg version t fs
        → Ensures (FieldsTyped reg version t) (interpret_entries reg version es t path fs)
    interpret_entries-FieldsTyped end t path fs h = returned h
    interpret_entries-FieldsTyped (entry k v es) t path fs h =
        Ensures-bind (bind_entry-IsField t k path (interpret_value-HasType v)) λ kv f.
          interpret_entries-FieldsTyped es t path (set_field kv.0 kv.1 fs)
            (set_field-FieldsTyped reg version kv.0 kv.1 fs f.known f.typed h)

-- The instance has the table and its version, and its fields are typed by the table.
pub data Interpreted (reg : Registry) (table : FieldTable) : Instance → Type 0 where
  interpreted :
      {fs : Fields}
      → FieldsTyped reg table.version table fs
      → Interpreted reg table (instance_of table table.version fs)

interpret-Ensures :
    (table : FieldTable) (v : Value) (reg : Registry)
    → Ensures (Interpreted reg table) (interpret table v reg)
unfolding interpret interpret_map
interpret-Ensures table (map es) reg =
    Ensures-bind (interpret_entries-FieldsTyped reg table.version es table [] no_fields none_typed)
      λ fs h. returned (interpreted h)
interpret-Ensures table _ reg = refused

-- An instance that Interpret makes of a value under a table has that table and its version; each of
-- its fields has a key that the table defines, and a value of the type that the table gives the key:
-- a decimal or a rational is canonical, the items of an array have the element type, and a nested
-- instance has the table that the registry holds for the code at the version of the outer table, its
-- own fields typed by that table in turn.
pub interpret-Interpreted :
    (table : FieldTable) (v : Value) (reg : Registry) (inst : Instance)
    → interpret table v reg ≡ ok inst
    → Interpreted reg table inst
interpret-Interpreted table v reg inst h = Ensures-ok (interpret-Ensures table v reg) h
