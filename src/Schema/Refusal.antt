-- ===== src/Schema/Refusal.antt =====
-- What is at fault in a value that schema/interpret.go refuses, and where.
mod Kinds
mod Stops
pub mod Found
pub mod Refused
use murmur_go.Common.{
  ℕ, suc, Bool, true, false, ◌||◌, ◌≡◌, ◌≢◌, ◌⊎◌, List, [], Option, none, some, ok,
}
use murmur_go.Common.Int.{ℤ, ◌==ℤ◌, is_int64}
use murmur_go.Cbor.Value.{
  Value, Values, Entries, int, bytes, text, bool, array, map, decimal, rational, nil, cons, entry,
}
use murmur_go.Cbor.Canonical.{check_decimal, check_rational}
use murmur_go.Schema.Errors
use murmur_go.Schema.Errors.{Reason, SchemaError}
use murmur_go.Schema.Path.{index_path, field_path}
use murmur_go.Schema.Table.{
  Kind, TypeDescriptor, Element, descriptor, element, no_element, FieldTable, Entry, entry_by_key,
  kind_int, kind_bytes, kind_text, kind_bool, kind_decimal, kind_rational, kind_array, kind_ref,
}
use murmur_go.Schema.Registry.{Registry, lookup}
use murmur_go.Schema.FieldTable.{is_scalar, is_magnitude}

-- The kind whose values have the shape of the value.
abbrev pub shape_of : Value → Kind
shape_of (int n) = kind_int
shape_of (bytes b) = kind_bytes
shape_of (text s) = kind_text
shape_of (bool b) = kind_bool
shape_of (array vs) = kind_array
shape_of (map es) = kind_ref
shape_of (decimal s m) = kind_decimal
shape_of (rational n d) = kind_rational

abbrev pub is_int : Value → Bool
is_int (int n) = true
is_int _ = false

abbrev pub is_pair : Value → Bool
is_pair (array (cons (int a) (cons (int b) nil))) = true
is_pair _ = false

abbrev pub pair : ℤ → ℤ → Value
pair a b = array (cons (int a) (cons (int b) nil))

-- The refusal that the path carries.
abbrev pub refusal : Reason → List ℕ → SchemaError
refusal reason path = record { reason = reason; path = path }

module _ (reg : Registry) (version : ℤ) where
  -- The fault of a value by itself, under a descriptor, and the reason it is refused for.
  pub data Fault : TypeDescriptor → Value → Reason → Type 0 where
    wrong_type :
        {k : Kind} {o : Element} {r u : ℤ} {v : Value}
        → (is_scalar k || k ==ℤ kind_array) ≡ true
        → (k ==ℤ shape_of v) ≡ false
        → Fault (descriptor k o r u) v Errors.type_mismatch
    no_map :
        {k : Kind} {o : Element} {r u : ℤ} {v : Value} {t : FieldTable}
        → (k ==ℤ kind_ref) ≡ true
        → lookup reg r version ≡ some t
        → (kind_ref ==ℤ shape_of v) ≡ false
        → Fault (descriptor k o r u) v Errors.type_mismatch
    no_pair :
        {k : Kind} {o : Element} {r u : ℤ} {v : Value}
        → is_magnitude k ≡ true
        → is_pair v ≡ false
        → Fault (descriptor k o r u) v Errors.bad_magnitude
    odd_decimal :
        {k : Kind} {o : Element} {r u s m : ℤ}
        → (k ==ℤ kind_decimal) ≡ true
        → check_decimal (some s) (some m) ≢ ok tt
        → Fault (descriptor k o r u) (pair s m) Errors.non_canonical_decimal
    odd_rational :
        {k : Kind} {o : Element} {r u n d : ℤ}
        → (k ==ℤ kind_rational) ≡ true
        → check_rational (some n) (some d) ≢ ok tt
        → Fault (descriptor k o r u) (pair n d) Errors.non_canonical_rational
    array_of_what :
        {k : Kind} {r u : ℤ} {vs : Values}
        → (k ==ℤ kind_array) ≡ true
        → Fault (descriptor k no_element r u) (array vs) Errors.malformed_descriptor
    no_table :
        {k : Kind} {o : Element} {r u : ℤ} {v : Value}
        → (k ==ℤ kind_ref) ≡ true
        → lookup reg r version ≡ none
        → Fault (descriptor k o r u) v Errors.unresolved_ref
    unknown_kind :
        {k : Kind} {o : Element} {r u : ℤ} {v : Value}
        → is_scalar k ≡ false
        → is_magnitude k ≡ false
        → (k ==ℤ kind_array) ≡ false
        → (k ==ℤ kind_ref) ≡ false
        → Fault (descriptor k o r u) v Errors.unresolved_ref

  -- Where the fault is: `Blames td v path e` says that the value `v` at `path`, under `td`, is refused as
  -- `e`, whose path leads on from `path` to a fault within `v`.
  mutual
    pub data Blames : TypeDescriptor → Value → List ℕ → SchemaError → Type 0 where
      here :
          {td : TypeDescriptor} {v : Value} {reason : Reason} {path : List ℕ}
          → Fault td v reason
          → Blames td v path (refusal reason path)
      in_array :
          {k : Kind} {td : TypeDescriptor} {r u : ℤ} {vs : Values} {path : List ℕ} {e : SchemaError}
          → (k ==ℤ kind_array) ≡ true
          → BlamesItem td vs path 0 e
          → Blames (descriptor k (element td) r u) (array vs) path e
      in_map :
          {k : Kind} {o : Element} {r u : ℤ} {t : FieldTable} {es : Entries} {path : List ℕ}
          {e : SchemaError}
          → (k ==ℤ kind_ref) ≡ true
          → lookup reg r version ≡ some t
          → BlamesField t es path e
          → Blames (descriptor k o r u) (map es) path e

    -- One of the items, the first of which has the index.
    pub data BlamesItem : TypeDescriptor → Values → List ℕ → ℕ → SchemaError → Type 0 where
      this_item :
          {td : TypeDescriptor} {v : Value} {vs : Values} {path : List ℕ} {i : ℕ} {e : SchemaError}
          → Blames td v (index_path path i) e
          → BlamesItem td (cons v vs) path i e
      later_item :
          {td : TypeDescriptor} {v : Value} {vs : Values} {path : List ℕ} {i : ℕ} {e : SchemaError}
          → BlamesItem td vs path (suc i) e
          → BlamesItem td (cons v vs) path i e

    -- One of the entries of a map under a table.
    pub data BlamesField : FieldTable → Entries → List ℕ → SchemaError → Type 0 where
      no_int_key :
          {t : FieldTable} {k v : Value} {es : Entries} {path : List ℕ}
          → is_int k ≡ false
          → BlamesField t (entry k v es) path (refusal Errors.bad_field_key path)
      no_such_key :
          {t : FieldTable} {n : ℤ} {v : Value} {es : Entries} {path : List ℕ}
          → (is_int64 n ≡ false) ⊎ (entry_by_key t n ≡ none)
          → BlamesField t (entry (int n) v es) path (refusal Errors.unknown_field path)
      this_field :
          {t : FieldTable} {n : ℤ} {f : Entry} {v : Value} {es : Entries} {path : List ℕ}
          {e : SchemaError}
          → entry_by_key t n ≡ some f
          → Blames f.type v (field_path path f.name) e
          → BlamesField t (entry (int n) v es) path e
      later_field :
          {t : FieldTable} {k v : Value} {es : Entries} {path : List ℕ} {e : SchemaError}
          → BlamesField t es path e
          → BlamesField t (entry k v es) path e

  -- An artifact at the top: it is no map, or one of its fields is to blame.
  pub data BlamesArtifact (t : FieldTable) : Value → SchemaError → Type 0 where
    not_a_map :
        {v : Value}
        → (kind_ref ==ℤ shape_of v) ≡ false
        → BlamesArtifact t v (refusal Errors.type_mismatch [])
    in_field :
        {es : Entries} {e : SchemaError} → BlamesField t es [] e → BlamesArtifact t (map es) e
