-- ===== src/Schema/Author/Types.antt =====
-- The artifacts of a type descriptor, of those whose kinds are all known.
use murmur_go.Common.{
  ℕ, ◌≡◌, refl, sym, ap, ◌∙◌, subst, Bool, true, false, not, ◌||◌, inl, inr, or_true, Option,
  Bool-cases, none, some, List, [], ◌∷◌, Result, ok, Ensures, Ensures-ok, Ensures-if, Ensures-bind,
  returned, refused, itself,
}
use murmur_go.Common.Int.{ℤ, pos, ◌==ℤ◌, ==ℤ→eq}
use murmur_go.Cbor.Value.{Entries, int}
use murmur_go.Cbor.Keys.{Distinct, DistinctEntries, of_map}
use murmur_go.Cbor.Reorder
use murmur_go.Cbor.Reorder.{Reordered, of_entries, ReorderedEntries, no_entries, then_too}
use murmur_go.Schema.Errors.{SchemaError}
use murmur_go.Schema.Table.{
  Kind, kind_array, kind_ref, kind_decimal, kind_rational, TypeDescriptor, Element, descriptor,
  element, no_element, entry_by_key, find_entry,
}
use murmur_go.Schema.Registry.{Registry}
use murmur_go.Schema.Floor.{type_descriptor_table}
use murmur_go.Schema.Instance.{
  Instance, Fields, Any, no_fields, field, plain, nested, instance_of, fields_of, get_field,
  is_present, has,
}
use murmur_go.Schema.FieldTable.{
  optional_code, is_scalar, is_magnitude, descriptor_with, parse_type_descriptor, parse_of,
  parse_element,
}
use murmur_go.Schema.Shape.{
  Allowed, of_scalar, of_array, of_ref, of_magnitude, of_unknown, check_fields-Allowed,
}
use murmur_go.Schema.Typing.{IsInstance, fields_typed, FieldsTyped}
use murmur_go.Schema.Untyped.{untyped, untyped_any, untyped_fields}
use murmur_go.Schema.Author.{says_ref, says_unit, code_entry, author_type, of_entry, type_entries}
use murmur_go.Schema.Author.Reading.{HoldsFloor}
use murmur_go.Schema.Author.Order.{
  there_first, not_there, none_after, NoTwice, by_keys, untyped_fields-by_keys,
}
use murmur_go.Schema.Author.FieldLaws.{
  to_int-found, get_field-Distinct, get_field-HasType, FieldsTyped-KeysAmong, HasType-IsInstance,
}

abbrev pub is_known : Kind → Bool
is_known k = is_scalar k || k ==ℤ kind_array || k ==ℤ kind_ref || is_magnitude k

-- The kinds of a descriptor are known, all the way down.
mutual
  pub data Known : TypeDescriptor → Type 0 where
    known :
        {k : Kind} {o : Element} {r u : ℤ}
        → is_known k ≡ true
        → KnownElement o
        → Known (descriptor k o r u)

  pub data KnownElement : Element → Type 0 where
    no_element_known : KnownElement no_element
    element_known : {td : TypeDescriptor} → Known td → KnownElement (element td)

Allowed-says :
    {k : Kind} {b c d : Bool}
    → is_known k ≡ true
    → Allowed k b c d
    → (c ≡ says_ref k) × (d ≡ says_unit k)
Allowed-says h (of_scalar s) = (rw s refl, rw s refl)
Allowed-says {k} h (of_array a) = rw (==ℤ→eq k kind_array a) (refl, refl)
Allowed-says {k} h (of_ref f) = rw (==ℤ→eq k kind_ref f) (refl, refl)
Allowed-says {k} h (of_magnitude m) = elim (or_true (k ==ℤ kind_decimal) (k ==ℤ kind_rational) m) [
  | inl d ↦ rw (==ℤ→eq k kind_decimal d) (refl, refl)
  | inr q ↦ rw (==ℤ→eq k kind_rational q) (refl, refl)
]
Allowed-says {k} h (of_unknown s a f m) =
    let never : false ≡ true = rw (s, a, f, m) at h in absurd (cc)

-- The field of a code: there, or not.
abbrev CodeAt : Fields → ℤ → Bool → ℤ → Type 0
CodeAt fs key true n = get_field key fs ≡ some (plain (int n))
CodeAt fs key false n = get_field key fs ≡ none

not_present : (o : Option Any) → is_present o ≡ false → o ≡ none
not_present none h = refl
not_present (some a) h = absurd (cc)

optional_code-CodeAt :
    (ti : Instance) (key : ℤ)
    → Ensures (CodeAt (fields_of ti) key (has ti key)) (optional_code ti key)
unfolding optional_code has
optional_code-CodeAt ti key =
    Ensures-if (has ti key) (λ there. rw there (to_int-found ti key))
      (λ missing. rw missing (returned (not_present (get_field key (fields_of ti)) missing)))

-- What a descriptor was read from.
data ReadFrom (ti : Instance) (read_of : Result SchemaError Element) : TypeDescriptor → Type 0 where
  read_from :
      {k : Kind} {o : Element} {r u : ℤ}
      → get_field (pos 0) (fields_of ti) ≡ some (plain (int k))
      → read_of ≡ ok o
      → CodeAt (fields_of ti) (pos 2) (has ti (pos 2)) r
      → CodeAt (fields_of ti) (pos 3) (has ti (pos 3)) u
      → Allowed k (has ti (pos 1)) (has ti (pos 2)) (has ti (pos 3))
      → ReadFrom ti read_of (descriptor k o r u)

descriptor_with-ReadFrom :
    (ti : Instance) (read_of : Result SchemaError Element)
    → Ensures (ReadFrom ti read_of) (descriptor_with ti read_of)
unfolding descriptor_with
descriptor_with-ReadFrom ti read_of =
    Ensures-if (not (has ti (pos 0))) (λ _. refused)
      λ _. Ensures-bind (to_int-found ti (pos 0)) λ k kind.
        Ensures-bind (itself read_of) λ o of_type.
          Ensures-bind (optional_code-CodeAt ti (pos 2)) λ r refers.
            Ensures-bind (optional_code-CodeAt ti (pos 3)) λ u unit.
              Ensures-bind
                (check_fields-Allowed k (has ti (pos 1)) (has ti (pos 2)) (has ti (pos 3)))
                λ _ allowed. returned (read_from kind of_type refers unit allowed)

abbrev read_element : Option Any → Result SchemaError Element
read_element none = ok no_element
read_element (some a) = parse_element a

parse_of-field : (fs : Fields) → parse_of fs ≡ read_element (get_field (pos 1) fs)
unfolding parse_of get_field
parse_of-field no_fields = refl
parse_of-field (field k a fs) = elim (Bool-cases (k ==ℤ pos 1)) [
  | inl same ↦ rw same refl
  | inr differ ↦ rw differ (parse_of-field fs)
]

parse_element-nested :
    (a : Any)
    → Ensures
        (λ o.
          (i : Instance) × (td : TypeDescriptor) × (a ≡ nested i)
          × (o ≡ element td)
          × (parse_type_descriptor i ≡ ok td))
        (parse_element a)
unfolding parse_element
parse_element-nested (nested i) =
    Ensures-bind (itself (parse_type_descriptor i)) (λ td h. returned (i, td, refl, refl, h))
parse_element-nested _ = refused

code_first :
    (key : ℕ) (ks : List ℤ) (fs : Fields) (b : Bool) (n : ℤ) {rest : Entries}
    → CodeAt fs (pos key) b n
    → ReorderedEntries (by_keys ks fs) rest
    → ReorderedEntries (by_keys (pos key ∷ ks) fs) (code_entry b key n rest)
unfolding untyped_any
code_first key ks fs true n found rs = there_first (pos key) ks fs found Reorder.same rs
code_first key ks fs false n found rs = not_there (pos key) ks fs found rs

-- The field of an element type: the artifact of it, or not there.
abbrev ElementAt : Fields → Element → Type 0
ElementAt fs no_element = get_field (pos 1) fs ≡ none
ElementAt fs (element td) =
    (a : Any) × (get_field (pos 1) fs ≡ some a) × Reordered (untyped_any a) (author_type td)

element_first :
    (ks : List ℤ) (fs : Fields) (o : Element) {rest : Entries}
    → ElementAt fs o
    → ReorderedEntries (by_keys ks fs) rest
    → ReorderedEntries (by_keys (pos 1 ∷ ks) fs) (of_entry o rest)
unfolding of_entry
element_first ks fs no_element found rs = not_there (pos 1) ks fs found rs
element_first ks fs (element td) (a, found, r) rs = there_first (pos 1) ks fs found r rs

abbrev pub four_keys : List ℤ
four_keys = pos 0 ∷ pos 1 ∷ pos 2 ∷ pos 3 ∷ []

pub four_once : NoTwice four_keys
four_once = ((refl, (refl, (refl, tt))), ((refl, (refl, tt)), ((refl, tt), (tt, tt))))

by_keys-author_type :
    (fs : Fields) (k : Kind) (o : Element) (r u : ℤ) (b c : Bool)
    → get_field (pos 0) fs ≡ some (plain (int k))
    → ElementAt fs o
    → CodeAt fs (pos 2) b r
    → CodeAt fs (pos 3) c u
    → ReorderedEntries (by_keys four_keys fs) (type_entries k o r u b c)
unfolding untyped_any
by_keys-author_type fs k o r u b c kind of_type refers unit =
    there_first (pos 0) _ fs kind Reorder.same (
      element_first _ fs o of_type
        (code_first 2 _ fs b r refers (code_first 3 [] fs c u unit (none_after fs))))

module _ (reg : Registry) (holds : HoldsFloor reg) where
  mutual
    unfolding untyped author_type parse_type_descriptor entry_by_key find_entry

    pub untyped-author_type :
        (td : TypeDescriptor) (i : Instance)
        → IsInstance reg (pos 1) type_descriptor_table (nested i)
        → Distinct (untyped i)
        → Known td
        → parse_type_descriptor i ≡ ok td
        → Reordered (untyped i) (author_type td)
    untyped-author_type (descriptor k o r u) (instance_of t v fs) (fields_typed typed) (of_map d)
          (known is ko) h =
        elim (Ensures-ok (descriptor_with-ReadFrom (instance_of t v fs) (parse_of fs)) h) [
          | read_from kind of_type refers unit allowed ↦
              let (says_r, says_u) = Allowed-says is allowed in
              of_entries (
                then_too
                  (untyped_fields-by_keys four_keys fs four_once
                    (FieldsTyped-KeysAmong reg (pos 1) typed) d)
                  (by_keys-author_type fs k o r u (says_ref k) (says_unit k) kind
                    (element_at o (get_field (pos 1) fs) fs typed d ko refl
                      (sym (parse_of-field fs) ∙ of_type))
                    (subst (λ b. CodeAt fs (pos 2) b r) says_r refers)
                    (subst (λ b. CodeAt fs (pos 3) b u) says_u unit)))
        ]

    element_at :
        (o : Element) (found : Option Any) (fs : Fields)
        → FieldsTyped reg (pos 1) type_descriptor_table fs
        → DistinctEntries (untyped_fields fs)
        → KnownElement o
        → get_field (pos 1) fs ≡ found
        → read_element found ≡ ok o
        → ElementAt fs o
    element_at no_element none fs typed d ko here h = here
    element_at (element td) none fs typed d ko here h = absurd (cc)
    element_at no_element (some a) fs typed d ko here h =
        let (i, td, same, other, p) = Ensures-ok (parse_element-nested a) h in absurd (cc)
    element_at (element td) (some a) fs typed d (element_known kt) here h =
        let (i, td', same, one, p) = Ensures-ok (parse_element-nested a) h in
        let it : td' ≡ td = cc in
        let is_type =
          HasType-IsInstance reg (pos 1) holds.types
            (get_field-HasType reg (pos 1) (pos 1) fs typed refl here) in
        (
          a,
          here,
          subst (λ x. Reordered (untyped_any x) (author_type td)) (sym same)
              (untyped-author_type td i
                (subst (IsInstance reg (pos 1) type_descriptor_table) same is_type)
                (subst (λ x. Distinct (untyped_any x)) same (get_field-Distinct (pos 1) fs d here))
                kt (p ∙ ap ok it)),
        )
