-- ===== src/Schema/Versions.antt =====
-- Tables of other versions do not matter to schema/interpret.go.
use murmur_go.Common.{
  ℕ, suc, ◌≡◌, ◌≢◌, refl, ap, ◌∙◌, Bool, true, false, not, if◌then◌else◌, Option, none, some, List,
  [], ◌&&◌, subst, inl, inr, Bool-cases, Result, ok, err, panics, ◌>>=◌,
}
use murmur_go.Common.Int.{ℤ, ◌==ℤ◌, is_int64, ==ℤ→eq}
use murmur_go.Cbor.Value.{Value, Values, Entries, int, array, map, nil, cons, end, entry}
use murmur_go.Schema.Path.{index_path, field_path}
use murmur_go.Schema.Instance
use murmur_go.Schema.Held.{Added, was_free, add-Added}
use murmur_go.Schema.Errors.{SchemaError}
use murmur_go.Schema.Table.{
  TypeDescriptor, Element, descriptor, element, no_element, FieldTable, Entry, entry_by_key,
  kind_int, kind_bytes, kind_text, kind_bool, kind_decimal, kind_rational, kind_array, kind_ref,
}
use murmur_go.Schema.Registry.{Registry, lookup, add}
use murmur_go.Schema.Instance.{Fields, Any, Anys, no_fields, nested, instance_of, set_field}
use murmur_go.Schema.Interpret.{
  with_element, by_kind, bind_entry, interpret_value, interpret_items, interpret_entries,
  interpret_map, interpret,
}

if_cong :
    {A : Type 0} (b : Bool) {x y z w : A}
    → x ≡ z
    → y ≡ w
    → (if b then x else y) ≡ (if b then z else w)
if_cong true first second = first
if_cong false first second = second

lookup_cong :
    (e : SchemaError) (o p : Option FieldTable) (f g : FieldTable → Result SchemaError Any)
    → o ≡ p
    → ((t : FieldTable) → f t ≡ g t)
    → (elim o [ some t ↦ f t | none ↦ err e ]) ≡ (elim p [ some t ↦ g t | none ↦ err e ])
lookup_cong e (some t) p f g same alike =
    alike t ∙ ap (λ q. elim q [ some t ↦ g t | none ↦ err e ]) same
lookup_cong e none p f g same alike = ap (λ q. elim q [ some t ↦ g t | none ↦ err e ]) same

bind_cong :
    {E A B : Type 0} {r s : Result E A} {f g : A → Result E B}
    → r ≡ s
    → ((a : A) → f a ≡ g a)
    → (r >>= f) ≡ (s >>= g)
bind_cong {r = ok a} {f} {g} same alike = alike a ∙ ap (λ q. q >>= g) same
bind_cong {r = err e} {f} {g} same alike = ap (λ q. q >>= g) same
bind_cong {r = panics} {f} {g} same alike = ap (λ q. q >>= g) same

found_cong :
    (n : ℤ) (path : List ℕ) (found : Option Entry) (e : SchemaError)
    (f g : TypeDescriptor → List ℕ → Result SchemaError Any)
    → ((td : TypeDescriptor) (p : List ℕ) → f td p ≡ g td p)
    → ◌≡◌ {A = Result SchemaError (ℤ × Any)}
        (elim found [
          | none ↦ err e
          | some e ↦ f e.type (field_path path e.name) >>= (λ val. ok (n, val))
        ])
        (elim found [
          | none ↦ err e
          | some e ↦ g e.type (field_path path e.name) >>= (λ val. ok (n, val))
        ])
found_cong n path none e f g h = refl
found_cong n path (some x) e f g h =
    ap (λ r. r >>= (λ val. ok (n, val))) (h x.type (field_path path x.name))

-- Two registries that hold the same tables at the version.
module _ (reg reg' : Registry) (version : ℤ)
    (agree : (typ : ℤ) → lookup reg typ version ≡ lookup reg' typ version) where
  by_kind-agree :
      (td : TypeDescriptor) (v : Value) (path : List ℕ)
      (as_array as_array' : Element → Result SchemaError Any)
      (as_map as_map' : FieldTable → Result SchemaError Any)
      → ((o : Element) → as_array o ≡ as_array' o)
      → ((t : FieldTable) → as_map t ≡ as_map' t)
      → by_kind reg version td v path as_array as_map
        ≡ by_kind reg' version td v path as_array' as_map'
  unfolding by_kind
  by_kind-agree (descriptor k o r u) v path as_array as_array' as_map as_map' ha hm =
      if_cong (k ==ℤ kind_int) refl (
        if_cong (k ==ℤ kind_bytes) refl (
          if_cong (k ==ℤ kind_text) refl (
            if_cong (k ==ℤ kind_bool) refl (
              if_cong (k ==ℤ kind_decimal) refl (
                if_cong (k ==ℤ kind_rational) refl (
                  if_cong (k ==ℤ kind_array) (ha o) (
                    if_cong (k ==ℤ kind_ref)
                      (lookup_cong _ (lookup reg r version) (lookup reg' r version) as_map as_map'
                        (agree r) hm)
                      refl)))))))

  with_element-agree :
      (o : Element) (path : List ℕ) {f g : TypeDescriptor → Result SchemaError Anys}
      → ((td : TypeDescriptor) → f td ≡ g td)
      → with_element o path f ≡ with_element o path g
  unfolding with_element
  with_element-agree no_element path h = refl
  with_element-agree (element td) path h = ap (λ r. r >>= (λ out. ok (Instance.array out))) (h td)

  bind_entry-agree :
      (t : FieldTable) (k : Value) (path : List ℕ)
      (f g : TypeDescriptor → List ℕ → Result SchemaError Any)
      → ((td : TypeDescriptor) (p : List ℕ) → f td p ≡ g td p)
      → bind_entry reg version t k f path ≡ bind_entry reg' version t k g path
  unfolding bind_entry
  bind_entry-agree t (int n) path f g h =
      if_cong (not (is_int64 n)) refl (found_cong n path (entry_by_key t n) _ f g h)
  bind_entry-agree t _ path f g h = refl

  mutual
    unfolding interpret_value interpret_items interpret_entries

    value-agree :
        (v : Value) (td : TypeDescriptor) (path : List ℕ)
        → interpret_value reg version v td path ≡ interpret_value reg' version v td path
    value-agree (array vs) td path =
        by_kind-agree td (array vs) path _ _ _ _
          (λ o. with_element-agree o path (λ e. items-agree vs e path 0)) (λ t. refl)
    value-agree (map es) td path =
        by_kind-agree td (map es) path _ _ _ _ (λ o. refl)
          (λ t.
            ap (λ r. r >>= (λ fs. ok (nested (instance_of t version fs))))
              (entries-agree es t path no_fields))
    value-agree v td path = by_kind-agree td v path _ _ _ _ (λ o. refl) (λ t. refl)

    items-agree :
        (vs : Values) (td : TypeDescriptor) (path : List ℕ) (i : ℕ)
        → interpret_items reg version vs td path i ≡ interpret_items reg' version vs td path i
    items-agree nil td path i = refl
    items-agree (cons v vs) td path i =
        rw (value-agree v td (index_path path i), items-agree vs td path (suc i))

    entries-agree :
        (es : Entries) (t : FieldTable) (path : List ℕ) (made : Fields)
        → interpret_entries reg version es t path made
          ≡ interpret_entries reg' version es t path made
    entries-agree end t path made = refl
    entries-agree (entry k v es) t path made =
        bind_cong (bind_entry-agree t k path _ _ (value-agree v))
          (λ (n, a). entries-agree es t path (set_field n a made))

  map-agree :
      (t : FieldTable) (v : Value) (path : List ℕ)
      → interpret_map reg version t v path ≡ interpret_map reg' version t v path
  unfolding interpret_map
  map-agree t (map es) path =
      ap (λ r. r >>= (λ fs. ok (instance_of t version fs))) (entries-agree es t path no_fields)
  map-agree t _ path = refl

and_no : (b : Bool) → (b && false) ≡ false
and_no true = refl
and_no false = refl

other_version :
    (added : FieldTable) (typ version : ℤ)
    → added.version ≢ version
    → (added.describes ==ℤ typ && added.version ==ℤ version) ≡ false
other_version added typ version other = elim (Bool-cases (added.version ==ℤ version)) [
  | inl same ↦ absurd (other (==ℤ→eq added.version version same))
  | inr differ ↦ rw differ (and_no (added.describes ==ℤ typ))
]

kept :
    (added : FieldTable) (reg reg' : Registry) (version : ℤ)
    → added.version ≢ version
    → Added added reg (ok reg')
    → (typ : ℤ) → lookup reg' typ version ≡ lookup reg typ version
kept added reg reg' version other (was_free free here others) typ =
    others typ version (other_version added typ version other)

-- A registry that Add has put a table of another version into interprets every value as it did before.
pub interpret-add :
    (t added : FieldTable) (v : Value) (reg reg' : Registry)
    → add added reg ≡ ok reg'
    → added.version ≢ t.version
    → interpret t v reg' ≡ interpret t v reg
unfolding interpret
interpret-add t added v reg reg' done other =
    map-agree reg' reg t.version
      (kept added reg reg' t.version other (subst (Added added reg) done (add-Added added reg))) t v
      []
