-- ===== src/Schema/Faithful.antt =====
-- The instance that schema/interpret.go makes of a value, with its fields in the order they were set.
use murmur_go.Common.{
  ℕ, suc, ◌≡◌, refl, sym, ap, ◌∙◌, subst, List, [], Option, none, some, Result, ok, err, Ensures,
  Ensures-ok, ◌>>=◌, returned, refused, Ensures-if, Ensures-bind, Ensures-weaken, map_err-Ensures,
  not,
}
use murmur_go.Common.Int.{ℤ, ◌==ℤ◌, is_int64}
use murmur_go.Cbor.Value.{
  Value, Values, Entries, int, bytes, text, bool, array, map, nil, cons, end, entry,
}
use murmur_go.Cbor.Canonical.{check_decimal, check_rational}
use murmur_go.Schema.Errors.{SchemaError}
use murmur_go.Schema.Path.{index_path, field_path}
use murmur_go.Schema.Table.{
  TypeDescriptor, Element, descriptor, element, no_element, FieldTable, Entry, entry_by_key,
  kind_int, kind_bytes, kind_text, kind_bool, kind_decimal, kind_rational, kind_array, kind_ref,
}
use murmur_go.Schema.Registry.{Registry, lookup}
use murmur_go.Schema.Instance.{Instance, Fields, Any, Anys, no_fields, set_field}
use murmur_go.Schema.Interpret.{
  two_ints, as_int, as_bytes, as_text, as_bool, as_decimal, as_rational, with_element, by_kind,
  bind_entry, interpret_value, interpret_items, interpret_entries, interpret_map, interpret,
}
use murmur_go.Cbor.Keys.{
  NewKey, Distinct, of_array, of_map, DistinctItems, one_item, DistinctEntries, one_entry,
}
use murmur_go.Schema.Untyped.{
  pair_of, untyped, untyped_fields, untyped_any, untyped_items, join, join-end, join-join, AllNew,
  one_new, AllNew-join, AllNew-end, set_field-join,
}

-- The result stands for the value.
abbrev Keeps : Value → Any → Type 0
Keeps v a = untyped_any a ≡ v

two_ints-Ensures :
    (v : Value) (path : List ℕ) → Ensures (λ (a, b). pair_of a b ≡ v) (two_ints v path)
unfolding two_ints
two_ints-Ensures (array (cons (int a) (cons (int b) nil))) path = returned refl
two_ints-Ensures _ path = refused

module _ (path : List ℕ) where
  as_int-Keeps : (v : Value) → Ensures (Keeps v) (as_int v path)
  unfolding as_int untyped
  as_int-Keeps (int n) = returned refl
  as_int-Keeps _ = refused

  as_bytes-Keeps : (v : Value) → Ensures (Keeps v) (as_bytes v path)
  unfolding as_bytes untyped
  as_bytes-Keeps (bytes b) = returned refl
  as_bytes-Keeps _ = refused

  as_text-Keeps : (v : Value) → Ensures (Keeps v) (as_text v path)
  unfolding as_text untyped
  as_text-Keeps (text s) = returned refl
  as_text-Keeps _ = refused

  as_bool-Keeps : (v : Value) → Ensures (Keeps v) (as_bool v path)
  unfolding as_bool untyped
  as_bool-Keeps (bool b) = returned refl
  as_bool-Keeps _ = refused

  as_decimal-Keeps : (v : Value) → Ensures (Keeps v) (as_decimal v path)
  unfolding as_decimal untyped
  as_decimal-Keeps v = Ensures-bind (two_ints-Ensures v path) λ (s, m) same.
      Ensures-bind (map_err-Ensures _ (check_decimal (some s) (some m))) λ _ _. returned same

  as_rational-Keeps : (v : Value) → Ensures (Keeps v) (as_rational v path)
  unfolding as_rational untyped
  as_rational-Keeps v = Ensures-bind (two_ints-Ensures v path) λ (n, d) same.
      Ensures-bind (map_err-Ensures _ (check_rational (some n) (some d))) λ _ _. returned same

module _ (reg : Registry) (version : ℤ) where
  resolved-Keeps :
      (v : Value) (o : Option FieldTable) (e : SchemaError)
      {as_map : FieldTable → Result SchemaError Any}
      → ((t : FieldTable) → Ensures (Keeps v) (as_map t))
      → Ensures (Keeps v) (elim o [ some child ↦ as_map child | none ↦ err e ])
  resolved-Keeps v none e h = refused
  resolved-Keeps v (some t) e h = h t

  by_kind-Keeps :
      (td : TypeDescriptor) (v : Value) (path : List ℕ)
      {as_array : Element → Result SchemaError Any} {as_map : FieldTable → Result SchemaError Any}
      → ((o : Element) → Ensures (Keeps v) (as_array o))
      → ((t : FieldTable) → Ensures (Keeps v) (as_map t))
      → Ensures (Keeps v) (by_kind reg version td v path as_array as_map)
  unfolding by_kind
  by_kind-Keeps (descriptor k o r u) v path ha hm =
      Ensures-if (k ==ℤ kind_int) (λ _. as_int-Keeps path v)
        λ _.
          Ensures-if (k ==ℤ kind_bytes) (λ _. as_bytes-Keeps path v)
            λ _.
              Ensures-if (k ==ℤ kind_text) (λ _. as_text-Keeps path v)
                λ _.
                  Ensures-if (k ==ℤ kind_bool) (λ _. as_bool-Keeps path v)
                    λ _.
                      Ensures-if (k ==ℤ kind_decimal) (λ _. as_decimal-Keeps path v)
                        λ _.
                          Ensures-if (k ==ℤ kind_rational) (λ _. as_rational-Keeps path v)
                            λ _.
                              Ensures-if (k ==ℤ kind_array) (λ _. ha o)
                                λ _.
                                  Ensures-if (k ==ℤ kind_ref)
                                    (λ _. resolved-Keeps v (lookup reg r version) _ hm) λ _. refused

  with_element-Keeps :
      (vs : Values) (o : Element) (path : List ℕ) {items : TypeDescriptor → Result SchemaError Anys}
      → ((td : TypeDescriptor) → Ensures (λ xs. untyped_items xs ≡ vs) (items td))
      → Ensures (Keeps (array vs)) (with_element o path items)
  unfolding with_element untyped
  with_element-Keeps vs no_element path h = refused
  with_element-Keeps vs (element td) path h =
      Ensures-bind (h td) (λ xs same. returned (ap array same))

  -- The key and the value of one entry.
  record KeepsEntry (k v : Value) (kv : ℤ × Any) : Type 0 where
    same_key : int kv.0 ≡ k
    same_value : Keeps v kv.1

  known-KeepsEntry :
      (key : ℤ) (v : Value) (o : Option Entry)
      {value : TypeDescriptor → List ℕ → Result SchemaError Any} (path : List ℕ) (e : SchemaError)
      → ((td : TypeDescriptor) (p : List ℕ) → Ensures (Keeps v) (value td p))
      → Ensures (KeepsEntry (int key) v) (elim o [
        | none ↦ err e
        | some f ↦ value f.type (field_path path f.name) >>= (λ val. ok (key, val))
      ])
  known-KeepsEntry key v none path e h = refused
  known-KeepsEntry key v (some f) path e h =
      Ensures-bind (h f.type (field_path path f.name))
        λ val same. returned (record { same_key = refl; same_value = same })

  bind_entry-KeepsEntry :
      (t : FieldTable) (k v : Value) {value : TypeDescriptor → List ℕ → Result SchemaError Any}
      (path : List ℕ)
      → ((td : TypeDescriptor) (p : List ℕ) → Ensures (Keeps v) (value td p))
      → Ensures (KeepsEntry k v) (bind_entry reg version t k value path)
  unfolding bind_entry
  bind_entry-KeepsEntry t (int key) v path h =
      Ensures-if (not (is_int64 key)) (λ _. refused)
        λ _. known-KeepsEntry key v (entry_by_key t key) path _ h
  bind_entry-KeepsEntry t _ v path h = refused

  -- The fields behind the first ones are the entries.
  set_field-KeepsEntry :
      {k v : Value} {kv : ℤ × Any} (fs : Fields)
      → KeepsEntry k v kv
      → NewKey k (untyped_fields fs)
      → untyped_fields (set_field kv.0 kv.1 fs) ≡ join (untyped_fields fs) (entry k v end)
  set_field-KeepsEntry {k} {v} {kv} fs h new =
      let at_key : NewKey (int kv.0) (untyped_fields fs) =
        subst (λ j. NewKey j (untyped_fields fs)) (sym h.same_key) new in
      set_field-join kv.0 kv.1 fs at_key
      ∙ ap (λ j. join (untyped_fields fs) (entry j (untyped_any kv.1) end)) h.same_key
      ∙ ap (λ w. join (untyped_fields fs) (entry k w end)) h.same_value

  mutual
    unfolding interpret_value untyped join

    interpret_value-Keeps :
        (v : Value) (td : TypeDescriptor) (path : List ℕ)
        → Distinct v
        → Ensures (Keeps v) (interpret_value reg version v td path)
    interpret_value-Keeps (array items) td path (of_array h) =
        by_kind-Keeps td (array items) path
          (λ o. with_element-Keeps items o path (λ e. interpret_items-Ensures items e path 0 h))
          (λ t. refused)
    interpret_value-Keeps (map es) td path (of_map h) =
        by_kind-Keeps td (map es) path (λ o. refused)
          (λ t.
            Ensures-bind (interpret_entries-Ensures es t path no_fields h (AllNew-end es))
              (λ fs same. returned (ap map same)))
    interpret_value-Keeps v td path h = by_kind-Keeps td v path (λ o. refused) (λ t. refused)

    interpret_items-Ensures :
        (vs : Values) (td : TypeDescriptor) (path : List ℕ) (i : ℕ)
        → DistinctItems vs
        → Ensures (λ xs. untyped_items xs ≡ vs) (interpret_items reg version vs td path i)
    interpret_items-Ensures nil td path i h = returned refl
    interpret_items-Ensures (cons v vs) td path i (one_item h hs) =
        Ensures-bind (interpret_value-Keeps v td (index_path path i) h) λ a same.
          Ensures-bind (interpret_items-Ensures vs td path (suc i) hs) λ xs same_rest.
            returned (ap (λ w. cons w (untyped_items xs)) same ∙ ap (cons v) same_rest)

    interpret_entries-Ensures :
        (es : Entries) (t : FieldTable) (path : List ℕ) (fs : Fields)
        → DistinctEntries es
        → AllNew (untyped_fields fs) es
        → Ensures
            (λ gs. untyped_fields gs ≡ join (untyped_fields fs) es)
            (interpret_entries reg version es t path fs)
    interpret_entries-Ensures end t path fs h n = returned (sym (join-end (untyped_fields fs)))
    interpret_entries-Ensures (entry k v es) t path fs (one_entry hk hv hs) (one_new n ns) =
        Ensures-bind (bind_entry-KeepsEntry t k v path (λ td p. interpret_value-Keeps v td p hv))
          λ kv kept.
            let set = set_field-KeepsEntry fs kept n in
            Ensures-weaken
              (λ gs same. same ∙ ap (λ xs. join xs es) set ∙ join-join (untyped_fields fs) es k v)
              (interpret_entries-Ensures es t path (set_field kv.0 kv.1 fs) hs
                (subst (λ xs. AllNew xs es) (sym set) (AllNew-join v es ns hk)))

interpret-Ensures :
    (table : FieldTable) (v : Value) (reg : Registry)
    → Distinct v
    → Ensures (λ inst. untyped inst ≡ v) (interpret table v reg)
unfolding interpret interpret_map untyped join
interpret-Ensures table (map es) reg (of_map h) =
    Ensures-bind
      (interpret_entries-Ensures reg table.version es table [] no_fields h (AllNew-end es))
      λ fs same. returned (ap map same)
interpret-Ensures table _ reg h = refused

-- Of a value none of whose maps has a key twice, the instance that Interpret makes, with its decimals and
-- rationals written as pairs of integers and its fields as the entries of maps in the order in which they
-- were set, is the value. A Go map does not keep that order.
pub untyped-interpret :
    (table : FieldTable) (v : Value) (reg : Registry) (inst : Instance)
    → Distinct v
    → interpret table v reg ≡ ok inst
    → untyped inst ≡ v
untyped-interpret table v reg inst d h = Ensures-ok (interpret-Ensures table v reg d) h
