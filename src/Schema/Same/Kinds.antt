-- ===== src/Schema/Same/Kinds.antt =====
-- The parts of schema/interpret.go on a value with the entries of its maps in another order.
use murmur_go.Common.{
  ℕ, ◌≡◌, refl, not, Option, some, none, List, Result, ok, err, Ensures, Ensures-if, Ensures-bind,
  returned, refused, itself, ◌>>=◌, map_err,
}
use murmur_go.Common.Int.{ℤ, ◌==ℤ◌, is_int64}
use murmur_go.Cbor.Value.{Value, Values, int, array, map, Entries, decimal, rational, cons, nil}
use murmur_go.Cbor.Canonical.{check_decimal, check_rational}
use murmur_go.Cbor.Reorder
use murmur_go.Cbor.Reorder.{ReorderedItems}
use murmur_go.Schema.Errors.{SchemaError}
use murmur_go.Schema.Path.{field_path}
use murmur_go.Schema.Table.{
  TypeDescriptor, Element, descriptor, element, no_element, FieldTable, Entry, entry_by_key,
  kind_int, kind_bytes, kind_text, kind_bool, kind_decimal, kind_rational, kind_array, kind_ref,
}
use murmur_go.Schema.Registry.{Registry, lookup}
use murmur_go.Schema.Instance.{Any, Anys, plain}
use murmur_go.Schema.Interpret.{
  mismatch, two_ints, as_int, as_bytes, as_text, as_bool, as_decimal, as_rational, with_element,
  by_kind, bind_entry,
}
use murmur_go.Schema.Same.{SameAny, same_plain, same_array, SameItems}

-- The other reading comes to the same Go value.
abbrev pub AsWell : Result SchemaError Any → Any → Type 0
AsWell other a = (b : Any) × (other ≡ ok b) × SameAny a b

two_ints-Reordered :
    (vs ws : Values) (path : List ℕ)
    → ReorderedItems vs ws
    → Ensures (λ p. two_ints (array ws) path ≡ ok p) (two_ints (array vs) path)
unfolding two_ints
two_ints-Reordered (cons (int a) (cons (int b) nil)) _ path
      (Reorder.one_item Reorder.same (Reorder.one_item Reorder.same Reorder.no_items)) =
    returned refl
two_ints-Reordered _ ws path r = refused

module _ (vs ws : Values) (path : List ℕ) (r : ReorderedItems vs ws) where
  as_decimal-AsWell : Ensures (AsWell (as_decimal (array ws) path)) (as_decimal (array vs) path)
  unfolding as_decimal
  as_decimal-AsWell = Ensures-bind (two_ints-Reordered vs ws path r) λ (s, m) h.
      Ensures-bind (itself (map_err _ (check_decimal (some s) (some m))))
        λ _ canonical. returned (plain (decimal s m), rw (h, canonical) refl, same_plain)

  as_rational-AsWell : Ensures (AsWell (as_rational (array ws) path)) (as_rational (array vs) path)
  unfolding as_rational
  as_rational-AsWell = Ensures-bind (two_ints-Reordered vs ws path r) λ (n, d) h.
      Ensures-bind (itself (map_err _ (check_rational (some n) (some d))))
        λ _ canonical. returned (plain (rational n d), rw (h, canonical) refl, same_plain)

pub with_element-AsWell :
    (o : Element) (path : List ℕ) {items items' : TypeDescriptor → Result SchemaError Anys}
    → ((td : TypeDescriptor)
        → Ensures (λ xs. (ys : Anys) × (items' td ≡ ok ys) × SameItems xs ys) (items td))
    → Ensures (AsWell (with_element o path items')) (with_element o path items)
unfolding with_element
with_element-AsWell no_element path h = refused
with_element-AsWell (element td) path h =
    Ensures-bind (h td) λ xs (ys, there, same). returned (_, rw there refl, same_array same)

module _ (reg : Registry) (version : ℤ) where
  resolved-AsWell :
      (found : Option FieldTable) (e e' : SchemaError)
      {as_map as_map' : FieldTable → Result SchemaError Any}
      → ((t : FieldTable) → Ensures (AsWell (as_map' t)) (as_map t))
      → Ensures
          (AsWell (elim found [ some child ↦ as_map' child | none ↦ err e' ]))
          (elim found [ some child ↦ as_map child | none ↦ err e ])
  resolved-AsWell none e e' h = refused
  resolved-AsWell (some t) e e' h = h t

  -- The switch on two arrays, and on two maps.
  pub by_kind-arrays :
      (td : TypeDescriptor) (vs ws : Values) (path : List ℕ)
      {as_array as_array' : Element → Result SchemaError Any}
      → ReorderedItems vs ws
      → ((o : Element) → Ensures (AsWell (as_array' o)) (as_array o))
      → Ensures
          (AsWell (by_kind reg version td (array ws) path as_array' (λ t. mismatch path)))
          (by_kind reg version td (array vs) path as_array (λ t. mismatch path))
  unfolding by_kind as_int as_bytes as_text as_bool
  by_kind-arrays (descriptor k o r u) vs ws path rs h =
      Ensures-if (k ==ℤ kind_int) (λ _. refused)
        λ i.
          Ensures-if (k ==ℤ kind_bytes) (λ _. refused)
            λ b.
              Ensures-if (k ==ℤ kind_text) (λ _. refused)
                λ t.
                  Ensures-if (k ==ℤ kind_bool) (λ _. refused)
                    λ l.
                      Ensures-if (k ==ℤ kind_decimal)
                        (λ d. rw (i, b, t, l, d) (as_decimal-AsWell vs ws path rs))
                        λ d.
                          Ensures-if (k ==ℤ kind_rational)
                            (λ q. rw (i, b, t, l, d, q) (as_rational-AsWell vs ws path rs))
                            λ q.
                              Ensures-if (k ==ℤ kind_array) (λ a. rw (i, b, t, l, d, q, a) (h o))
                                λ a.
                                  Ensures-if (k ==ℤ kind_ref)
                                    (λ f. none_there (lookup reg r version) _) (λ f. refused)
    where
      none_there :
          {P : Any → Type 0} (found : Option FieldTable) (e : SchemaError)
          → Ensures P (elim found [ some child ↦ mismatch path | none ↦ err e ])
      none_there none e = refused
      none_there (some t) e = refused

  pub by_kind-maps :
      (td : TypeDescriptor) (es fs : Entries) (path : List ℕ)
      {as_map as_map' : FieldTable → Result SchemaError Any}
      → ((t : FieldTable) → Ensures (AsWell (as_map' t)) (as_map t))
      → Ensures
          (AsWell (by_kind reg version td (map fs) path (λ o. mismatch path) as_map'))
          (by_kind reg version td (map es) path (λ o. mismatch path) as_map)
  unfolding by_kind as_int as_bytes as_text as_bool as_decimal as_rational two_ints
  by_kind-maps (descriptor k o r u) es fs path h =
      Ensures-if (k ==ℤ kind_int) (λ _. refused)
        λ i.
          Ensures-if (k ==ℤ kind_bytes) (λ _. refused)
            λ b.
              Ensures-if (k ==ℤ kind_text) (λ _. refused)
                λ t.
                  Ensures-if (k ==ℤ kind_bool) (λ _. refused)
                    λ l.
                      Ensures-if (k ==ℤ kind_decimal) (λ _. refused)
                        λ d.
                          Ensures-if (k ==ℤ kind_rational) (λ _. refused)
                            λ q.
                              Ensures-if (k ==ℤ kind_array) (λ _. refused)
                                λ a.
                                  Ensures-if (k ==ℤ kind_ref)
                                    (λ f.
                                      rw (i, b, t, l, d, q, a, f)
                                        (resolved-AsWell (lookup reg r version) _ _ h))
                                    (λ f. refused)

  -- A key that is bound to values of the same Go value.
  abbrev pub BoundAsWell : Value → Result SchemaError (ℤ × Any) → ℤ × Any → Type 0
  BoundAsWell k other kv = (b : Any) × (other ≡ ok (kv.0, b)) × SameAny kv.1 b × (k ≡ int kv.0)

  known-BoundAsWell :
      (key : ℤ) (found : Option Entry) (path : List ℕ) (e : SchemaError)
      {value value' : TypeDescriptor → List ℕ → Result SchemaError Any}
      → ((td : TypeDescriptor) (p : List ℕ) → Ensures (AsWell (value' td p)) (value td p))
      → Ensures
          (BoundAsWell (int key) (elim found [
            | none ↦ err e
            | some f ↦ value' f.type (field_path path f.name) >>= (λ val. ok (key, val))
          ]))
          (elim found [
            | none ↦ err e
            | some f ↦ value f.type (field_path path f.name) >>= (λ val. ok (key, val))
          ])
  known-BoundAsWell key none path e h = refused
  known-BoundAsWell key (some f) path e h =
      Ensures-bind (h f.type (field_path path f.name))
        λ a (b, there, same). returned (b, rw there refl, same, refl)

  pub bind_entry-BoundAsWell :
      (t : FieldTable) (k : Value) (path : List ℕ)
      {value value' : TypeDescriptor → List ℕ → Result SchemaError Any}
      → ((td : TypeDescriptor) (p : List ℕ) → Ensures (AsWell (value' td p)) (value td p))
      → Ensures
          (BoundAsWell k (bind_entry reg version t k value' path))
          (bind_entry reg version t k value path)
  unfolding bind_entry
  bind_entry-BoundAsWell t (int key) path h =
      Ensures-if (not (is_int64 key)) (λ _. refused)
        λ fits. rw fits (known-BoundAsWell key (entry_by_key t key) path _ h)
  bind_entry-BoundAsWell t _ path h = refused
