-- ===== src/Schema/Refusal/Refused.antt =====
-- The values that have a fault, in schema/interpret.go.
use murmur_go.Common.{
  ℕ, true, false, not, ◌≡◌, ◌≢◌, ◌↔◌, ◌⊎◌, refl, sym, subst, List, [], none, some, Result, ok, err,
  panics, Ensures-ok, refused, Ensures-if, Ensures-bind, anything, inl, inr,
}
use murmur_go.Common.Int.{ℤ, ◌==ℤ◌, ==ℤ→eq, is_int64}
use murmur_go.Cbor.Value.{Value, Values, Entries, int, array, map}
use murmur_go.Cbor.Canonical.{check_decimal, check_rational}
use murmur_go.Schema.Errors.{Reason, SchemaError}
use murmur_go.Schema.Path.{index_path, field_path}
use murmur_go.Schema.Table.{
  Kind, TypeDescriptor, Element, descriptor, element, no_element, FieldTable, Entry, entry_by_key,
  kind_decimal, kind_rational, kind_array, kind_ref,
}
use murmur_go.Schema.Registry.{Registry, lookup}
use murmur_go.Schema.Instance
use murmur_go.Schema.Instance.{Fields, Any, Anys, no_fields}
use murmur_go.Schema.Interpret.{
  two_ints, as_decimal, as_rational, with_element, by_kind, bind_entry, interpret_value,
  interpret_items, interpret_entries, interpret_map, interpret,
}
use murmur_go.Schema.Settled.{Settled, interpret-Settled}
use murmur_go.Schema.Refusal.Stops.{
  Never, Never-bind, map_err-Never, Shaped, wrong_type-Never, no_map-Never, no_pair-Never,
  no_table-Never, unknown_kind-Never,
}
use murmur_go.Schema.Refusal.{
  pair, is_int, Fault, wrong_type, no_map, no_pair, odd_decimal, odd_rational, array_of_what,
  no_table, unknown_kind, Blames, here, in_array, in_map, BlamesItem, this_item, later_item,
  BlamesField, no_int_key, no_such_key, this_field, later_field, BlamesArtifact, not_a_map,
  in_field,
}
use murmur_go.Schema.Refusal.Found.{interpret-Blames}

module _ (reg : Registry) (version : ℤ) where
  -- How a value is read: by the switch, with the readings as an array and as a map that its shape has.
  data Reading (v : Value) (td : TypeDescriptor) (path : List ℕ) : Type 0 where
    reading :
        (as_array : Element → Result SchemaError Any) (as_map : FieldTable → Result SchemaError Any)
        → interpret_value reg version v td path ≡ by_kind reg version td v path as_array as_map
        → Shaped reg version v as_array as_map
        → Reading v td path

  read : (v : Value) (td : TypeDescriptor) (path : List ℕ) → Reading v td path
  unfolding interpret_value
  read (array vs) td path =
      reading _ _ refl (record { no_array = λ h. cc; no_ref = λ h t. refused })
  read (map es) td path = reading _ _ refl (record { no_array = λ h o. refused; no_ref = λ h. cc })
  read v td path = reading _ _ refl (record { no_array = λ h o. refused; no_ref = λ h t. refused })

  -- At a kind that the descriptor has.
  at_kind :
      (k c : Kind) (o : Element) (r u : ℤ) (v : Value) (path : List ℕ)
      → (k ==ℤ c) ≡ true
      → Never (interpret_value reg version v (descriptor c o r u) path)
      → Never (interpret_value reg version v (descriptor k o r u) path)
  at_kind k c o r u v path same h =
      subst (λ x. Never (interpret_value reg version v (descriptor x o r u) path))
        (sym (==ℤ→eq k c same)) h

  odd_decimal-Never :
      (o : Element) (r u s m : ℤ) (path : List ℕ)
      → check_decimal (some s) (some m) ≢ ok tt
      → Never (interpret_value reg version (pair s m) (descriptor kind_decimal o r u) path)
  unfolding interpret_value by_kind as_decimal two_ints
  odd_decimal-Never o r u s m path odd = Never-bind _ (map_err-Never _ _ odd)

  odd_rational-Never :
      (o : Element) (r u n d : ℤ) (path : List ℕ)
      → check_rational (some n) (some d) ≢ ok tt
      → Never (interpret_value reg version (pair n d) (descriptor kind_rational o r u) path)
  unfolding interpret_value by_kind as_rational two_ints
  odd_rational-Never o r u n d path odd = Never-bind _ (map_err-Never _ _ odd)

  array_of_what-Never :
      (r u : ℤ) (vs : Values) (path : List ℕ)
      → Never (interpret_value reg version (array vs) (descriptor kind_array no_element r u) path)
  unfolding interpret_value by_kind with_element
  array_of_what-Never r u vs path = refused

  Fault-Never :
      {td : TypeDescriptor} {v : Value} {reason : Reason} (path : List ℕ)
      → Fault reg version td v reason
      → Never (interpret_value reg version v td path)
  Fault-Never path (wrong_type {k} {o} {r} {u} {v} known other) =
      elim (read v (descriptor k o r u) path) [
        | reading as_array as_map e shaped ↦
            rw e (wrong_type-Never reg version o r u v path as_array as_map k shaped known other)
      ]
  Fault-Never path (no_map {k} {o} {r} {u} {v} {t} f held other) =
      elim (read v (descriptor k o r u) path) [
        | reading as_array as_map e shaped ↦
            rw e (no_map-Never reg version o r u v path as_array as_map k t shaped f held other)
      ]
  Fault-Never path (no_pair {k} {o} {r} {u} {v} m odd) = elim (read v (descriptor k o r u) path) [
    | reading as_array as_map e shaped ↦
        rw e (no_pair-Never reg version o r u v path as_array as_map k m odd)
  ]
  Fault-Never path (odd_decimal {k} {o} {r} {u} {s} {m} d odd) =
      at_kind k kind_decimal o r u (pair s m) path d (odd_decimal-Never o r u s m path odd)
  Fault-Never path (odd_rational {k} {o} {r} {u} {n} {d} q odd) =
      at_kind k kind_rational o r u (pair n d) path q (odd_rational-Never o r u n d path odd)
  Fault-Never path (array_of_what {k} {r} {u} {vs} a) =
      at_kind k kind_array no_element r u (array vs) path a (array_of_what-Never r u vs path)
  Fault-Never path (no_table {k} {o} {r} {u} {v} f missing) =
      elim (read v (descriptor k o r u) path) [
        | reading as_array as_map e shaped ↦
            rw e (no_table-Never reg version o r u v path as_array as_map k f missing)
      ]
  Fault-Never path (unknown_kind {k} {o} {r} {u} {v} s m a f) =
      elim (read v (descriptor k o r u) path) [
        | reading as_array as_map e shaped ↦
            rw e (unknown_kind-Never reg version o r u v path as_array as_map k s m a f)
      ]

  items_of :
      (td : TypeDescriptor) (r u : ℤ) (vs : Values) (path : List ℕ)
      → Never (interpret_items reg version vs td path 0)
      → Never (interpret_value reg version (array vs) (descriptor kind_array (element td) r u) path)
  unfolding interpret_value by_kind with_element
  items_of td r u vs path h = Never-bind _ h

  fields_of :
      (o : Element) (r u : ℤ) (t : FieldTable) (es : Entries) (path : List ℕ)
      → lookup reg r version ≡ some t
      → Never (interpret_entries reg version es t path no_fields)
      → Never (interpret_value reg version (map es) (descriptor kind_ref o r u) path)
  unfolding interpret_value by_kind
  fields_of o r u t es path held h = rw held (Never-bind _ h)

  module _ (t : FieldTable) (value : TypeDescriptor → List ℕ → Result SchemaError Any)
      (path : List ℕ) where
    bind_no_int : (k : Value) → is_int k ≡ false → Never (bind_entry reg version t k value path)
    unfolding bind_entry
    bind_no_int (int n) h = cc
    bind_no_int _ h = refused

    bind_no_such :
        (n : ℤ)
        → (is_int64 n ≡ false) ⊎ (entry_by_key t n ≡ none)
        → Never (bind_entry reg version t (int n) value path)
    unfolding bind_entry
    bind_no_such n (inl far) = rw far refused
    bind_no_such n (inr missing) =
        Ensures-if (not (is_int64 n)) (λ _. refused) λ _. rw missing refused

    bind_this :
        (n : ℤ) (f : Entry)
        → entry_by_key t n ≡ some f
        → Never (value f.type (field_path path f.name))
        → Never (bind_entry reg version t (int n) value path)
    unfolding bind_entry
    bind_this n f known h =
        Ensures-if (not (is_int64 n)) (λ _. refused) λ _. rw known (Never-bind _ h)

  mutual
    unfolding interpret_items interpret_entries

    value-Never :
        {td : TypeDescriptor} {v : Value} {path : List ℕ} {e : SchemaError}
        → Blames reg version td v path e
        → Never (interpret_value reg version v td path)
    value-Never (here {path} fault) = Fault-Never path fault
    value-Never (in_array {k} {td} {r} {u} {vs} {path} a b) =
        at_kind k kind_array (element td) r u (array vs) path a
          (items_of td r u vs path (item-Never b))
    value-Never (in_map {k} {o} {r} {u} {t} {es} {path} f held b) =
        at_kind k kind_ref o r u (map es) path f
          (fields_of o r u t es path held (field-Never no_fields b))

    item-Never :
        {td : TypeDescriptor} {vs : Values} {path : List ℕ} {i : ℕ} {e : SchemaError}
        → BlamesItem reg version td vs path i e
        → Never (interpret_items reg version vs td path i)
    item-Never (this_item b) = Never-bind _ (value-Never b)
    item-Never (later_item {td} {v} {path} {i} b) =
        Ensures-bind (anything (interpret_value reg version v td (index_path path i)))
          λ _ _. Never-bind _ (item-Never b)

    field-Never :
        {t : FieldTable} {es : Entries} {path : List ℕ} {e : SchemaError} (made : Fields)
        → BlamesField reg version t es path e
        → Never (interpret_entries reg version es t path made)
    field-Never made (no_int_key {t} {k} {v} {path} h) =
        Never-bind _ (bind_no_int t (interpret_value reg version v) path k h)
    field-Never made (no_such_key {t} {n} {v} {path} h) =
        Never-bind _ (bind_no_such t (interpret_value reg version v) path n h)
    field-Never made (this_field {t} {n} {f} {v} {path} known b) =
        Never-bind _ (bind_this t (interpret_value reg version v) path n f known (value-Never b))
    field-Never made (later_field {t} {k} {v} {path} b) =
        Ensures-bind (anything (bind_entry reg version t k (interpret_value reg version v) path))
          λ _ _. field-Never _ b

  artifact-Never :
      (t : FieldTable) {v : Value} {e : SchemaError}
      → BlamesArtifact reg version t v e
      → Never (interpret_map reg version t v [])
  unfolding interpret_map
  artifact-Never t (in_field b) = Never-bind _ (field-Never no_fields b)
  artifact-Never t (not_a_map {v = map es} h) = cc
  artifact-Never t (not_a_map _) = refused

blameless :
    {t : FieldTable} {v : Value} {reg : Registry} (r : Result SchemaError Instance.Instance)
    → interpret t v reg ≡ r
    → Settled r
    → ((e : SchemaError) → ¬ BlamesArtifact reg t.version t v e)
    → (inst : Instance.Instance) × (r ≡ ok inst)
blameless (ok inst) same settled clean = (inst, refl)
blameless {t} {v} {reg} (err e) same settled clean =
    absurd (clean e (interpret-Blames t v reg e same))
blameless panics same settled clean = elim settled [ ]

-- Interpret accepts exactly the values that have no fault anywhere.
pub interpret_iff :
    (t : FieldTable) (v : Value) (reg : Registry)
    → ((inst : Instance.Instance) × (interpret t v reg ≡ ok inst))
      ↔ ((e : SchemaError) → ¬ BlamesArtifact reg t.version t v e)
unfolding interpret
interpret_iff t v reg = (
  λ (inst, h) e b. Ensures-ok (artifact-Never reg t.version t b) h,
  λ clean. blameless (interpret t v reg) refl (interpret-Settled t v reg) clean,
)
