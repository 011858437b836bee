-- ===== src/Schema/Same/Reading.antt =====
-- What schema/interpret.go makes of a value with the entries of its maps in another order.
use murmur_go.Common.{
  ℕ, suc, ◌≡◌, ◌≢◌, refl, ap, ◌∙◌, sym, List, [], Result, ok, Ensures, Ensures-ok, Ensures-bind,
  Ensures-weaken, returned, refused, itself,
}
use murmur_go.Common.Int.{ℤ}
use murmur_go.Cbor.Value.{Value, Values, Entries, int, end, entry}
use murmur_go.Cbor.Keys
use murmur_go.Cbor.Keys.{Distinct, of_array, of_map, DistinctItems, DistinctEntries, new_before}
use murmur_go.Cbor.Reorder
use murmur_go.Cbor.Reorder.{
  Reordered, of_items, of_entries, ReorderedItems, ReorderedEntries, no_entries, exchanged,
  then_too,
}
use murmur_go.Cbor.Reorder.Kept.{DistinctEntries-Reordered}
use murmur_go.Schema.Errors.{SchemaError}
use murmur_go.Schema.Path.{index_path}
use murmur_go.Schema.Table.{TypeDescriptor, FieldTable}
use murmur_go.Schema.Registry.{Registry}
use murmur_go.Schema.Instance.{Instance, Fields, Any, Anys, no_fields, set_field}
use murmur_go.Schema.Interpret.{
  bind_entry, interpret_value, interpret_items, interpret_entries, interpret_map, interpret,
}
use murmur_go.Schema.Same
use murmur_go.Schema.Same.{SameInstance, same_fields, SameAny, same_nested, SameItems}
use murmur_go.Schema.Same.Self.{SameInstance-self, SameAny-self, SameFields-self}
use murmur_go.Schema.Same.Setting.{
  SameFields, SameFound-then, set_field-SameFields, set_field-exchange,
}
use murmur_go.Schema.Same.Kinds.{
  AsWell, with_element-AsWell, by_kind-arrays, by_kind-maps, BoundAsWell, bind_entry-BoundAsWell,
}

itself-AsWell : (r : Result SchemaError Any) → Ensures (AsWell r) r
itself-AsWell r = Ensures-weaken (λ a h. (a, h, SameAny-self a)) (itself r)

-- The other reading comes to the same fields.
abbrev FieldsAsWell : Result SchemaError Fields → Fields → Type 0
FieldsAsWell other fs = (gs : Fields) × (other ≡ ok gs) × SameFields fs gs

module _ (reg : Registry) (version : ℤ) where
  bound_self :
      (t : FieldTable) (k v : Value) (path : List ℕ)
      → Ensures
          (BoundAsWell reg version k
            (bind_entry reg version t k (interpret_value reg version v) path))
          (bind_entry reg version t k (interpret_value reg version v) path)
  bound_self t k v path =
      bind_entry-BoundAsWell reg version t k path
        (λ td p. itself-AsWell (interpret_value reg version v td p))

  -- The same entries, set into fields that are the same.
  set_into :
      (es : Entries) (t : FieldTable) (path : List ℕ) (fs gs : Fields)
      → SameFields fs gs
      → Ensures
          (FieldsAsWell (interpret_entries reg version es t path gs))
          (interpret_entries reg version es t path fs)
  unfolding interpret_entries
  set_into end t path fs gs h = returned (gs, refl, h)
  set_into (entry k v es) t path fs gs h =
      Ensures-bind (bound_self t k v path) λ kv (b, there, same, _). rw there (
        set_into es t path (set_field kv.0 kv.1 fs) (set_field kv.0 b gs)
          (set_field-SameFields kv.0 fs gs same h))

  mutual
    unfolding interpret_value interpret_items interpret_entries

    value-AsWell :
        {v w : Value}
        → Reordered v w
        → Distinct v
        → (td : TypeDescriptor) (path : List ℕ)
        → Ensures
            (AsWell (interpret_value reg version w td path))
            (interpret_value reg version v td path)
    value-AsWell (Reorder.same {v}) d td path =
        itself-AsWell (interpret_value reg version v td path)
    value-AsWell (of_items {vs} {ws} rs) (of_array d) td path =
        by_kind-arrays reg version td vs ws path rs
          (λ o. with_element-AsWell o path (λ e. items-AsWell rs d e path 0))
    value-AsWell (of_entries {es} {fs} rs) (of_map d) td path =
        by_kind-maps reg version td es fs path λ t.
          Ensures-bind (entries-AsWell rs d t path no_fields no_fields (SameFields-self no_fields))
            λ fields (others, there, same).
              returned (_, rw there refl, same_nested (same_fields same))

    items-AsWell :
        {vs ws : Values}
        → ReorderedItems vs ws
        → DistinctItems vs
        → (td : TypeDescriptor) (path : List ℕ) (i : ℕ)
        → Ensures
            (λ xs.
              (ys : Anys) × (interpret_items reg version ws td path i ≡ ok ys) × SameItems xs ys)
            (interpret_items reg version vs td path i)
    items-AsWell Reorder.no_items d td path i = returned (_, refl, Same.no_items)
    items-AsWell (Reorder.one_item r rs) (Keys.one_item dv d) td path i =
        Ensures-bind (value-AsWell r dv td (index_path path i)) λ a (b, there, same).
          Ensures-bind (items-AsWell rs d td path (suc i)) λ xs (ys, others, all_same).
            returned (_, rw (there, others) refl, Same.one_item same all_same)

    entries-AsWell :
        {es es' : Entries}
        → ReorderedEntries es es'
        → DistinctEntries es
        → (t : FieldTable) (path : List ℕ) (fs gs : Fields) → SameFields fs gs
        → Ensures
            (FieldsAsWell (interpret_entries reg version es' t path gs))
            (interpret_entries reg version es t path fs)
    entries-AsWell no_entries d t path fs gs h = returned (gs, refl, h)
    entries-AsWell (Reorder.one_entry {k} r rs) (Keys.one_entry _ dv d) t path fs gs h =
        Ensures-bind (bind_entry-BoundAsWell reg version t k path (value-AsWell r dv))
          λ kv (b, there, same, _). rw there (
            entries-AsWell rs d t path (set_field kv.0 kv.1 fs) (set_field kv.0 b gs)
              (set_field-SameFields kv.0 fs gs same h))
    entries-AsWell (exchanged {j} {k} {v} {w} {es}) (Keys.one_entry (new_before other _) _ _) t path
          fs gs h =
        Ensures-bind (bound_self t j v path) λ first (a, there, same, is_j).
          Ensures-bind (bound_self t k w path) λ second (b, there', same', is_k).
            let differ : first.0 ≢ second.0 = λ e. other (is_k ∙ ap int (sym e) ∙ sym is_j) in
            rw (there', there)
              (set_into es t path (set_field second.0 second.1 (set_field first.0 first.1 fs))
                (set_field first.0 a (set_field second.0 b gs))
                (set_field-exchange first.0 second.0 fs gs differ same same' h))
    entries-AsWell (then_too rs ss) d t path fs gs h =
        Ensures-weaken
          (λ fields (others, there, same).
            let (last, there', same') =
              Ensures-ok
                (entries-AsWell ss (DistinctEntries-Reordered rs d) t path gs gs
                  (SameFields-self gs))
                there in
            (last, there', λ key. SameFound-then (same key) (same' key)))
          (entries-AsWell rs d t path fs gs h)

interpret-Ensures :
    (t : FieldTable) (reg : Registry) {v w : Value}
    → Reordered v w
    → Distinct v
    → Ensures
        (λ i. (j : Instance) × (interpret t w reg ≡ ok j) × SameInstance i j)
        (interpret t v reg)
unfolding interpret interpret_map
interpret-Ensures t reg (Reorder.same {v}) d =
    Ensures-weaken (λ i h. (i, h, SameInstance-self i)) (itself (interpret t v reg))
interpret-Ensures t reg (of_items rs) d = refused
interpret-Ensures t reg (of_entries rs) (of_map d) =
    Ensures-bind
      (entries-AsWell reg t.version rs d t [] no_fields no_fields (SameFields-self no_fields))
      λ fields (others, there, same). returned (_, rw there refl, same_fields same)

-- Of two values that differ in the order in which the entries of their maps come, at any depth, and have no
-- key twice in a map, where Interpret makes an instance of the first, it makes the same instance, as a Go
-- value, of the second.
pub interpret-SameInstance :
    (t : FieldTable) (reg : Registry) (v w : Value) (i : Instance)
    → Distinct v
    → Reordered v w
    → interpret t v reg ≡ ok i
    → (j : Instance) × (interpret t w reg ≡ ok j) × SameInstance i j
interpret-SameInstance t reg v w i d r h = Ensures-ok (interpret-Ensures t reg r d) h
