-- ===== src/Schema/Typing.antt =====
-- The types of what schema/interpret.go makes of a value.
use murmur_go.Common.{
  ℕ, ◌≡◌, refl, subst, Bool, true, false, List, Option, none, some, Result, ok, err, Ensures,
  returned, refused, Ensures-if, Ensures-bind, if◌then◌else◌, sym, Ensures-weaken, map_err-Ensures,
  anything,
}
use murmur_go.Common.Int.{ℤ, ◌==ℤ◌, ==ℤ→eq}
use murmur_go.Cbor.Value.{Value, int, bytes, text, bool, decimal, rational}
use murmur_go.Cbor.Canonical.{check_decimal, check_rational}
use murmur_go.Schema.Table.{
  TypeDescriptor, Element, descriptor, element, no_element, FieldTable, Entry, entry_by_key,
  kind_int, kind_bytes, kind_text, kind_bool, kind_decimal, kind_rational, kind_array, kind_ref,
}
use murmur_go.Schema.Registry.{Registry, lookup}
use murmur_go.Schema.Errors.{SchemaError}
use murmur_go.Schema.Instance
use murmur_go.Schema.Instance.{
  Fields, Any, Anys, no_fields, field, plain, nested, instance_of, set_field,
}
use murmur_go.Schema.Interpret.{
  two_ints, as_int, as_bytes, as_text, as_bool, as_decimal, as_rational, with_element, by_kind,
}

module _ (reg : Registry) (version : ℤ) where
  -- A value of a descriptor's type. A nested instance is one of the table that the registry holds for
  -- the code of the descriptor at the version of the artifact.
  mutual
    pub data HasType : TypeDescriptor → Any → Type 0 where
      int_typed :
          {k : ℤ} {o : Element} {r u n : ℤ}
          → (k ==ℤ kind_int) ≡ true
          → HasType (descriptor k o r u) (plain (int n))
      bytes_typed :
          {k : ℤ} {o : Element} {r u : ℤ} {b : List ℕ}
          → (k ==ℤ kind_bytes) ≡ true
          → HasType (descriptor k o r u) (plain (bytes b))
      text_typed :
          {k : ℤ} {o : Element} {r u : ℤ} {s : List ℕ}
          → (k ==ℤ kind_text) ≡ true
          → HasType (descriptor k o r u) (plain (text s))
      bool_typed :
          {k : ℤ} {o : Element} {r u : ℤ} {b : Bool}
          → (k ==ℤ kind_bool) ≡ true
          → HasType (descriptor k o r u) (plain (bool b))
      decimal_typed :
          {k : ℤ} {o : Element} {r u s m : ℤ}
          → (k ==ℤ kind_decimal) ≡ true
          → check_decimal (some s) (some m) ≡ ok tt
          → HasType (descriptor k o r u) (plain (decimal s m))
      rational_typed :
          {k : ℤ} {o : Element} {r u n d : ℤ}
          → (k ==ℤ kind_rational) ≡ true
          → check_rational (some n) (some d) ≡ ok tt
          → HasType (descriptor k o r u) (plain (rational n d))
      array_typed :
          {k : ℤ} {o : Element} {r u : ℤ} {a : Any}
          → (k ==ℤ kind_array) ≡ true
          → IsArray o a
          → HasType (descriptor k o r u) a
      ref_typed :
          {k : ℤ} {o : Element} {r u : ℤ} {t : FieldTable} {a : Any}
          → (k ==ℤ kind_ref) ≡ true
          → lookup reg r version ≡ some t
          → IsInstance t a
          → HasType (descriptor k o r u) a

    pub data IsArray : Element → Any → Type 0 where
      items_typed :
          {td : TypeDescriptor} {xs : Anys}
          → AllTyped td xs
          → IsArray (element td) (Instance.array xs)

    pub data IsInstance : FieldTable → Any → Type 0 where
      fields_typed :
          {t : FieldTable} {fs : Fields}
          → FieldsTyped t fs
          → IsInstance t (nested (instance_of t version fs))

    pub data AllTyped : TypeDescriptor → Anys → Type 0 where
      no_items : {td : TypeDescriptor} → AllTyped td Instance.nil
      one_item :
          {td : TypeDescriptor} {a : Any} {xs : Anys}
          → HasType td a
          → AllTyped td xs
          → AllTyped td (Instance.cons a xs)

    -- Every field has a key of the table, and a value of the type that the table gives the key.
    pub data FieldsTyped : FieldTable → Fields → Type 0 where
      none_typed : {t : FieldTable} → FieldsTyped t no_fields
      field_typed :
          {t : FieldTable} {e : Entry} {k : ℤ} {a : Any} {fs : Fields}
          → entry_by_key t k ≡ some e
          → HasType e.type a
          → FieldsTyped t fs
          → FieldsTyped t (field k a fs)

  module _ (k : ℤ) (o : Element) (r u : ℤ) (path : List ℕ) where
    as_int-HasType :
        (v : Value)
        → (k ==ℤ kind_int) ≡ true
        → Ensures (HasType (descriptor k o r u)) (as_int v path)
    unfolding as_int
    as_int-HasType (int n) h = returned (int_typed h)
    as_int-HasType _ h = refused

    as_bytes-HasType :
        (v : Value)
        → (k ==ℤ kind_bytes) ≡ true
        → Ensures (HasType (descriptor k o r u)) (as_bytes v path)
    unfolding as_bytes
    as_bytes-HasType (bytes n) h = returned (bytes_typed h)
    as_bytes-HasType _ h = refused

    as_text-HasType :
        (v : Value)
        → (k ==ℤ kind_text) ≡ true
        → Ensures (HasType (descriptor k o r u)) (as_text v path)
    unfolding as_text
    as_text-HasType (text n) h = returned (text_typed h)
    as_text-HasType _ h = refused

    as_bool-HasType :
        (v : Value)
        → (k ==ℤ kind_bool) ≡ true
        → Ensures (HasType (descriptor k o r u)) (as_bool v path)
    unfolding as_bool
    as_bool-HasType (bool n) h = returned (bool_typed h)
    as_bool-HasType _ h = refused

    as_decimal-HasType :
        (v : Value)
        → (k ==ℤ kind_decimal) ≡ true
        → Ensures (HasType (descriptor k o r u)) (as_decimal v path)
    unfolding as_decimal
    as_decimal-HasType v h = Ensures-bind (anything (two_ints v path)) λ (s, m) _.
        Ensures-bind (map_err-Ensures _ (check_decimal (some s) (some m)))
          λ _ canonical. returned (decimal_typed h canonical)

    as_rational-HasType :
        (v : Value)
        → (k ==ℤ kind_rational) ≡ true
        → Ensures (HasType (descriptor k o r u)) (as_rational v path)
    unfolding as_rational
    as_rational-HasType v h = Ensures-bind (anything (two_ints v path)) λ (n, d) _.
        Ensures-bind (map_err-Ensures _ (check_rational (some n) (some d)))
          λ _ canonical. returned (rational_typed h canonical)

  lookup-HasType :
      (k : ℤ) (o : Element) (r u : ℤ) (found : Option FieldTable)
      {as_map : FieldTable → Result SchemaError Any} (e : SchemaError)
      → (k ==ℤ kind_ref) ≡ true
      → lookup reg r version ≡ found
      → ((t : FieldTable) → Ensures (IsInstance t) (as_map t))
      → Ensures
          (HasType (descriptor k o r u))
          (elim found [ some child ↦ as_map child | none ↦ err e ])
  lookup-HasType k o r u none e h here hm = refused
  lookup-HasType k o r u (some t) e h here hm = Ensures-weaken (λ a i. ref_typed h here i) (hm t)

  -- The switch gives a value of the type, if the readings as an array and as a map do.
  pub by_kind-HasType :
      (td : TypeDescriptor) (v : Value) (path : List ℕ)
      {as_array : Element → Result SchemaError Any} {as_map : FieldTable → Result SchemaError Any}
      → ((o : Element) → Ensures (IsArray o) (as_array o))
      → ((t : FieldTable) → Ensures (IsInstance t) (as_map t))
      → Ensures (HasType td) (by_kind reg version td v path as_array as_map)
  unfolding by_kind
  by_kind-HasType (descriptor k o r u) v path ha hm =
      Ensures-if (k ==ℤ kind_int) (as_int-HasType k o r u path v) λ _.
        Ensures-if (k ==ℤ kind_bytes) (as_bytes-HasType k o r u path v) λ _.
          Ensures-if (k ==ℤ kind_text) (as_text-HasType k o r u path v) λ _.
            Ensures-if (k ==ℤ kind_bool) (as_bool-HasType k o r u path v) λ _.
              Ensures-if (k ==ℤ kind_decimal) (as_decimal-HasType k o r u path v) λ _.
                Ensures-if (k ==ℤ kind_rational) (as_rational-HasType k o r u path v) λ _.
                  Ensures-if (k ==ℤ kind_array)
                    (λ h. Ensures-weaken (λ a i. array_typed h i) (ha o))
                    λ _.
                      Ensures-if (k ==ℤ kind_ref)
                        (λ h. lookup-HasType k o r u (lookup reg r version) _ h refl hm)
                        λ _. refused

  pub with_element-IsArray :
      (o : Element) (path : List ℕ) {items : TypeDescriptor → Result SchemaError Anys}
      → ((td : TypeDescriptor) → Ensures (AllTyped td) (items td))
      → Ensures (IsArray o) (with_element o path items)
  unfolding with_element
  with_element-IsArray no_element path h = refused
  with_element-IsArray (element td) path h =
      Ensures-bind (h td) (λ xs all. returned (items_typed all))

  set_field_if :
      {t : FieldTable} {e : Entry} (key : ℤ) (val : Any) (k : ℤ) (a : Any) (fs : Fields) (b : Bool)
      → (b ≡ true → k ≡ key)
      → entry_by_key t key ≡ some e
      → HasType e.type val
      → FieldsTyped t (field k a fs)
      → FieldsTyped t (set_field key val fs)
      → FieldsTyped t (if b then field k val fs else field k a (set_field key val fs))
  set_field_if {t} {e} key val k a fs true same known typed (field_typed h ha hs) rest =
      field_typed (subst (λ x. entry_by_key t x ≡ some e) (sym (same refl)) known) typed hs
  set_field_if key val k a fs false same known typed (field_typed h ha hs) rest =
      field_typed h ha rest

  pub set_field-FieldsTyped :
      {t : FieldTable} {e : Entry} (key : ℤ) (val : Any) (fs : Fields)
      → entry_by_key t key ≡ some e
      → HasType e.type val
      → FieldsTyped t fs
      → FieldsTyped t (set_field key val fs)
  unfolding set_field
  set_field-FieldsTyped key val no_fields known typed h = field_typed known typed none_typed
  set_field-FieldsTyped key val (field k a fs) known typed (field_typed h ha hs) =
      set_field_if key val k a fs (k ==ℤ key) (==ℤ→eq k key) known typed (field_typed h ha hs)
        (set_field-FieldsTyped key val fs known typed hs)
