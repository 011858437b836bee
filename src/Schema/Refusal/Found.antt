-- ===== src/Schema/Refusal/Found.antt =====
-- Where schema/interpret.go refuses a value, it has the fault, at the path of the refusal.
use murmur_go.Common.{
  ℕ, suc, Bool, true, false, not, ◌≡◌, refl, List, [], ◌>>=◌, Option, none, some, Result, ok, err,
  Faults, passed, at_fault, Faults-err, Faults-if, Faults-weaken, Faults-bind, anything, inl, inr,
}
use murmur_go.Common.Int.{ℤ, ◌==ℤ◌, is_int64}
use murmur_go.Cbor.Value.{Value, Values, Entries, int, array, map, nil, cons, end, entry}
use murmur_go.Schema.Errors
use murmur_go.Schema.Errors.{SchemaError}
use murmur_go.Schema.Path.{index_path, field_path}
use murmur_go.Schema.Table.{
  Kind, TypeDescriptor, Element, descriptor, element, no_element, FieldTable, Entry, entry_by_key,
  kind_array,
}
use murmur_go.Schema.Registry.{Registry}
use murmur_go.Schema.Instance.{Fields, Any, Anys, no_fields}
use murmur_go.Schema.Interpret.{
  with_element, bind_entry, interpret_value, interpret_items, interpret_entries, interpret_map,
  interpret,
}
use murmur_go.Schema.Refusal.Kinds.{mistyped, by_kind-Faults}
use murmur_go.Schema.Refusal.{
  no_map, array_of_what, Blames, here, in_array, in_map, BlamesItem, this_item, later_item,
  BlamesField, no_int_key, no_such_key, this_field, later_field, BlamesArtifact, not_a_map,
  in_field, refusal,
}

was_false : (b : Bool) → not b ≡ true → b ≡ false
was_false true h = cc
was_false false h = refl

module _ (reg : Registry) (version : ℤ) where
  found-Faults :
      (t : FieldTable) (n : ℤ) (v : Value) (es : Entries) (path : List ℕ) (found : Option Entry)
      (value : TypeDescriptor → List ℕ → Result SchemaError Any)
      → entry_by_key t n ≡ found
      → ((f : Entry)
          → Faults
              (Blames reg version f.type v (field_path path f.name))
              (value f.type (field_path path f.name)))
      → Faults {A = ℤ × Any} (BlamesField reg version t (entry (int n) v es) path) (elim found [
        | none ↦ err (refusal Errors.unknown_field path)
        | some f ↦ value f.type (field_path path f.name) >>= (λ val. ok (n, val))
      ])
  found-Faults t n v es path none value missing h = at_fault (no_such_key (inr missing))
  found-Faults t n v es path (some f) value known h =
      Faults-bind (Faults-weaken (λ e b. this_field known b) (h f)) (anything _) λ _ _. passed

  bind_entry-Faults :
      (t : FieldTable) (k v : Value) (es : Entries) (path : List ℕ)
      (value : TypeDescriptor → List ℕ → Result SchemaError Any)
      → ((f : Entry)
          → Faults
              (Blames reg version f.type v (field_path path f.name))
              (value f.type (field_path path f.name)))
      → Faults
          (BlamesField reg version t (entry k v es) path)
          (bind_entry reg version t k value path)
  unfolding bind_entry
  bind_entry-Faults t (int n) v es path value h =
      Faults-if (not (is_int64 n))
        (λ far. at_fault (no_such_key (inl (was_false (is_int64 n) far))))
        λ _. found-Faults t n v es path (entry_by_key t n) value refl h
  bind_entry-Faults t _ v es path value h = at_fault (no_int_key refl)

  array-Faults :
      (k : Kind) (o : Element) (r u : ℤ) (vs : Values) (path : List ℕ)
      {items : TypeDescriptor → Result SchemaError Anys}
      → ((td : TypeDescriptor) → Faults (BlamesItem reg version td vs path 0) (items td))
      → (k ==ℤ kind_array) ≡ true
      → Faults (Blames reg version (descriptor k o r u) (array vs) path) (with_element o path items)
  unfolding with_element
  array-Faults k no_element r u vs path h a = at_fault (here (array_of_what a))
  array-Faults k (element td) r u vs path h a =
      Faults-bind (Faults-weaken (λ e b. in_array a b) (h td)) (anything _) λ _ _. passed

  mutual
    unfolding interpret_value interpret_items interpret_entries

    value-Faults :
        (v : Value) (td : TypeDescriptor) (path : List ℕ)
        → Faults (Blames reg version td v path) (interpret_value reg version v td path)
    value-Faults (array vs) (descriptor k o r u) path =
        by_kind-Faults reg version k o r u (array vs) path _
          (array-Faults k o r u vs path (λ td'. items-Faults vs td' path 0))
          (λ f t held. at_fault (here (no_map f held refl)))
    value-Faults (map es) (descriptor k o r u) path =
        by_kind-Faults reg version k o r u (map es) path _
          (λ a. at_fault (mistyped reg version kind_array a refl refl))
          (λ f t held.
            Faults-bind
              (Faults-weaken (λ e b. in_map f held b) (entries-Faults es t path no_fields))
              (anything _) λ _ _. passed)
    value-Faults v (descriptor k o r u) path =
        by_kind-Faults reg version k o r u v path _
          (λ a. at_fault (mistyped reg version kind_array a refl refl))
          (λ f t held. at_fault (here (no_map f held refl)))

    items-Faults :
        (vs : Values) (td : TypeDescriptor) (path : List ℕ) (i : ℕ)
        → Faults (BlamesItem reg version td vs path i) (interpret_items reg version vs td path i)
    items-Faults nil td path i = passed
    items-Faults (cons v vs) td path i =
        Faults-bind (Faults-weaken (λ e b. this_item b) (value-Faults v td (index_path path i)))
          (anything _)
          λ _ _.
            Faults-bind (Faults-weaken (λ e b. later_item b) (items-Faults vs td path (suc i)))
              (anything _) λ _ _. passed

    entries-Faults :
        (es : Entries) (t : FieldTable) (path : List ℕ) (made : Fields)
        → Faults (BlamesField reg version t es path) (interpret_entries reg version es t path made)
    entries-Faults end t path made = passed
    entries-Faults (entry k v es) t path made =
        Faults-bind
          (bind_entry-Faults t k v es path _ (λ f. value-Faults v f.type (field_path path f.name)))
          (anything _) λ _ _. Faults-weaken (λ e b. later_field b) (entries-Faults es t path _)

  map-Faults :
      (t : FieldTable) (v : Value)
      → Faults (BlamesArtifact reg version t v) (interpret_map reg version t v [])
  unfolding interpret_map
  map-Faults t (map es) =
      Faults-bind (Faults-weaken (λ e b. in_field b) (entries-Faults es t [] no_fields))
        (anything _) λ _ _. passed
  map-Faults t _ = at_fault (not_a_map refl)

-- Where Interpret refuses a value, the value has the fault that the reason of the refusal names, at the
-- place that its path names: the path is made of the names of the fields and the indices of the items
-- that lead there.
pub interpret-Blames :
    (t : FieldTable) (v : Value) (reg : Registry) (e : SchemaError)
    → interpret t v reg ≡ err e
    → BlamesArtifact reg t.version t v e
unfolding interpret
interpret-Blames t v reg e h = Faults-err (map-Faults reg t.version t v) h
