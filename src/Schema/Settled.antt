-- ===== src/Schema/Settled.antt =====
-- The calls of schema/interpret.go on values and registries without a nil, as those of the model are.
use murmur_go.Common.{
  ℕ, suc, Bool, true, false, not, ◌||◌, List, [], Option, none, some, Result, ok, err, ◌>>=◌,
  if◌then◌else◌, ◌==◌, ◌%◌, map_err,
}
use murmur_go.Common.Int.{ℤ, ◌==ℤ◌, is_int64, abs, is_neg, is_zero}
use murmur_go.Cbor.Value.{
  Value, Values, Entries, int, bytes, text, bool, array, map, nil, cons, end, entry,
}
use murmur_go.Cbor.Canonical.{gcd, check_decimal, check_rational}
use murmur_go.Schema.Errors.{SchemaError}
use murmur_go.Schema.Path.{index_path, field_path}
use murmur_go.Schema.Table.{
  TypeDescriptor, Element, descriptor, element, no_element, FieldTable, Entry, entry_by_key,
  kind_int, kind_bytes, kind_text, kind_bool, kind_decimal, kind_rational, kind_array, kind_ref,
}
use murmur_go.Schema.Registry.{Registry, lookup}
use murmur_go.Schema.Instance.{Fields, Any, Anys, no_fields, set_field}
use murmur_go.Schema.Interpret.{
  two_ints, as_int, as_bytes, as_text, as_bool, as_decimal, as_rational, with_element, by_kind,
  bind_entry, interpret_value, interpret_items, interpret_entries, interpret_map, interpret,
}

-- A value or a refusal.
pub data Settled {E A : Type 0} : Result E A → Type 0 where
  accepted : {a : A} → Settled (ok a)
  declined : {e : E} → Settled (err e)

module _ {E A : Type 0} where
  pub Settled-if :
      (b : Bool) {x y : Result E A} → Settled x → Settled y → Settled (if b then x else y)
  Settled-if true hx hy = hx
  Settled-if false hx hy = hy

  pub Settled-bind :
      {B : Type 0} {r : Result E A} {f : A → Result E B}
      → Settled r
      → ((a : A) → Settled (f a))
      → Settled (r >>= f)
  Settled-bind (accepted {a}) h = h a
  Settled-bind declined h = declined

map_err-Settled : {E F A : Type 0} (f : E → F) {r : Result E A} → Settled r → Settled (map_err f r)
map_err-Settled f accepted = accepted
map_err-Settled f declined = declined

check_decimal-Settled : (s m : ℤ) → Settled (check_decimal (some s) (some m))
unfolding check_decimal
check_decimal-Settled s m =
    Settled-if (is_zero m) (Settled-if (not (is_zero s)) declined accepted)
      (Settled-if (abs m % 10 == 0) declined accepted)

check_rational-Settled : (n d : ℤ) → Settled (check_rational (some n) (some d))
unfolding check_rational
check_rational-Settled n d = Settled-if (is_neg d || is_zero d) declined (
    Settled-if (is_zero n) (Settled-if (not (abs d == 1)) declined accepted)
      (Settled-if (not (gcd (abs n) (abs d) == 1)) declined accepted))

module _ (path : List ℕ) where
  two_ints-Settled : (v : Value) → Settled (two_ints v path)
  unfolding two_ints
  two_ints-Settled (array (cons (int a) (cons (int b) nil))) = accepted
  two_ints-Settled _ = declined

  as_int-Settled : (v : Value) → Settled (as_int v path)
  unfolding as_int
  as_int-Settled (int n) = accepted
  as_int-Settled _ = declined

  as_bytes-Settled : (v : Value) → Settled (as_bytes v path)
  unfolding as_bytes
  as_bytes-Settled (bytes b) = accepted
  as_bytes-Settled _ = declined

  as_text-Settled : (v : Value) → Settled (as_text v path)
  unfolding as_text
  as_text-Settled (text s) = accepted
  as_text-Settled _ = declined

  as_bool-Settled : (v : Value) → Settled (as_bool v path)
  unfolding as_bool
  as_bool-Settled (bool b) = accepted
  as_bool-Settled _ = declined

  as_decimal-Settled : (v : Value) → Settled (as_decimal v path)
  unfolding as_decimal
  as_decimal-Settled v =
      Settled-bind (two_ints-Settled v)
        λ (s, m). Settled-bind (map_err-Settled _ (check_decimal-Settled s m)) λ _. accepted

  as_rational-Settled : (v : Value) → Settled (as_rational v path)
  unfolding as_rational
  as_rational-Settled v =
      Settled-bind (two_ints-Settled v)
        λ (n, d). Settled-bind (map_err-Settled _ (check_rational-Settled n d)) λ _. accepted

  with_element-Settled :
      (o : Element) {items : TypeDescriptor → Result SchemaError Anys}
      → ((td : TypeDescriptor) → Settled (items td))
      → Settled (with_element o path items)
  unfolding with_element
  with_element-Settled no_element h = declined
  with_element-Settled (element td) h = Settled-bind (h td) λ xs. accepted

resolved-Settled :
    (o : Option FieldTable) (e : SchemaError) {as_map : FieldTable → Result SchemaError Any}
    → ((t : FieldTable) → Settled (as_map t))
    → Settled (elim o [ some child ↦ as_map child | none ↦ err e ])
resolved-Settled none e h = declined
resolved-Settled (some t) e h = h t

known-Settled :
    (key : ℤ) (o : Option Entry) {value : TypeDescriptor → List ℕ → Result SchemaError Any}
    (path : List ℕ) (e : SchemaError)
    → ((td : TypeDescriptor) (p : List ℕ) → Settled (value td p))
    → Settled {A = ℤ × Any} (elim o [
      | none ↦ err e
      | some f ↦ value f.type (field_path path f.name) >>= (λ val. ok (key, val))
    ])
known-Settled key none path e h = declined
known-Settled key (some f) path e h =
    Settled-bind (h f.type (field_path path f.name)) λ val. accepted

module _ (reg : Registry) (version : ℤ) where
  by_kind-Settled :
      (td : TypeDescriptor) (v : Value) (path : List ℕ)
      {as_array : Element → Result SchemaError Any} {as_map : FieldTable → Result SchemaError Any}
      → ((o : Element) → Settled (as_array o))
      → ((t : FieldTable) → Settled (as_map t))
      → Settled (by_kind reg version td v path as_array as_map)
  unfolding by_kind
  by_kind-Settled (descriptor k o r u) v path ha hm =
      Settled-if (k ==ℤ kind_int) (as_int-Settled path v) (
        Settled-if (k ==ℤ kind_bytes) (as_bytes-Settled path v) (
          Settled-if (k ==ℤ kind_text) (as_text-Settled path v) (
            Settled-if (k ==ℤ kind_bool) (as_bool-Settled path v) (
              Settled-if (k ==ℤ kind_decimal) (as_decimal-Settled path v) (
                Settled-if (k ==ℤ kind_rational) (as_rational-Settled path v) (
                  Settled-if (k ==ℤ kind_array) (ha o) (
                    Settled-if (k ==ℤ kind_ref) (resolved-Settled (lookup reg r version) _ hm)
                      declined)))))))

  bind_entry-Settled :
      (t : FieldTable) (k : Value) {value : TypeDescriptor → List ℕ → Result SchemaError Any}
      (path : List ℕ)
      → ((td : TypeDescriptor) (p : List ℕ) → Settled (value td p))
      → Settled (bind_entry reg version t k value path)
  unfolding bind_entry
  bind_entry-Settled t (int key) path h =
      Settled-if (not (is_int64 key)) declined (known-Settled key (entry_by_key t key) path _ h)
  bind_entry-Settled t _ path h = declined

  mutual
    unfolding interpret_value

    interpret_value-Settled :
        (v : Value) (td : TypeDescriptor) (path : List ℕ)
        → Settled (interpret_value reg version v td path)
    interpret_value-Settled (array items) td path =
        by_kind-Settled td (array items) path
          (λ o. with_element-Settled path o (λ e. interpret_items-Settled items e path 0))
          (λ t. declined)
    interpret_value-Settled (map es) td path =
        by_kind-Settled td (map es) path (λ o. declined)
          (λ t. Settled-bind (interpret_entries-Settled es t path no_fields) (λ fs. accepted))
    interpret_value-Settled v td path = by_kind-Settled td v path (λ o. declined) (λ t. declined)

    interpret_items-Settled :
        (vs : Values) (td : TypeDescriptor) (path : List ℕ) (i : ℕ)
        → Settled (interpret_items reg version vs td path i)
    interpret_items-Settled nil td path i = accepted
    interpret_items-Settled (cons v vs) td path i =
        Settled-bind (interpret_value-Settled v td (index_path path i))
          λ a. Settled-bind (interpret_items-Settled vs td path (suc i)) λ xs. accepted

    interpret_entries-Settled :
        (es : Entries) (t : FieldTable) (path : List ℕ) (fs : Fields)
        → Settled (interpret_entries reg version es t path fs)
    interpret_entries-Settled end t path fs = accepted
    interpret_entries-Settled (entry k v es) t path fs =
        Settled-bind (bind_entry-Settled t k path (interpret_value-Settled v))
          λ kv. interpret_entries-Settled es t path (set_field kv.0 kv.1 fs)

-- Interpret comes to an instance or a refusal on a value and a registry without a nil.
pub interpret-Settled :
    (table : FieldTable) (v : Value) (reg : Registry) → Settled (interpret table v reg)
unfolding interpret interpret_map
interpret-Settled table (map es) reg =
    Settled-bind (interpret_entries-Settled reg table.version es table [] no_fields) λ fs. accepted
interpret-Settled table _ reg = declined
