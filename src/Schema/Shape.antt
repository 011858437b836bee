-- ===== src/Schema/Shape.antt =====
-- The shape of what schema/fieldtable.go makes of a field-table artifact.
use murmur_go.Common.{
  ◌≡◌, refl, Bool, true, false, not, ◌||◌, Option, none, some, Result, ok, Ensures, returned,
  refused, Ensures-if, Ensures-bind, Ensures-weaken, if◌then◌else◌,
}
use murmur_go.Common.Int.{ℤ, pos, ◌==ℤ◌, is_int64}
use murmur_go.Schema.Errors.{SchemaError}
use murmur_go.Schema.Table.{
  Kind, TypeDescriptor, Element, descriptor, element, no_element, FieldTable, kind_array, kind_ref,
}
use murmur_go.Schema.Instance.{
  Instance, Fields, Any, no_fields, field, plain, nested, array, instance_of, has, get_field,
  is_present,
}
use murmur_go.Schema.FieldTable.{
  to_int, optional_code, malformed, is_scalar, is_magnitude, check_fields, descriptor_with,
  parse_type_descriptor, parse_of, parse_element,
}

-- The fields of a descriptor that its kind allows and asks for; of an unknown kind, any.
pub data Allowed (k : Kind) : Bool → Bool → Bool → Type 0 where
  of_scalar : is_scalar k ≡ true → Allowed k false false false
  of_array : (k ==ℤ kind_array) ≡ true → Allowed k true false false
  of_ref : (k ==ℤ kind_ref) ≡ true → Allowed k false true false
  of_magnitude : is_magnitude k ≡ true → Allowed k false false true
  of_unknown :
      {o r u : Bool}
      → is_scalar k ≡ false
      → (k ==ℤ kind_array) ≡ false
      → (k ==ℤ kind_ref) ≡ false
      → is_magnitude k ≡ false
      → Allowed k o r u

-- A descriptor, all the way down, has the fields that its kind owns, and none that another kind owns,
-- and its codes fit an `int`.
mutual
  pub data Complete : TypeDescriptor → Type 0 where
    complete :
        {k : Kind} {o : Element} {r u : ℤ} (has_of has_ref has_unit : Bool)
        → Allowed k has_of has_ref has_unit
        → Holds has_of o
        → (has_ref ≡ false → r ≡ pos 0)
        → (has_unit ≡ false → u ≡ pos 0)
        → is_int64 k ≡ true
        → is_int64 r ≡ true
        → is_int64 u ≡ true
        → Complete (descriptor k o r u)

  pub data Holds : Bool → Element → Type 0 where
    absent : Holds false no_element
    present : {td : TypeDescriptor} → Complete td → Holds true (element td)

module _ (k : Kind) where
  scalar_Allowed :
      is_scalar k ≡ true
      → (o r u : Bool) → Ensures (λ _. Allowed k o r u) (if o || r || u then malformed else ok tt)
  scalar_Allowed h true r u = refused
  scalar_Allowed h false true u = refused
  scalar_Allowed h false false true = refused
  scalar_Allowed h false false false = returned (of_scalar h)

  array_Allowed :
      (k ==ℤ kind_array) ≡ true
      → (o r u : Bool)
      → Ensures
          (λ _. Allowed k o r u)
          (if not o then malformed else if r || u then malformed else ok tt)
  array_Allowed h false r u = refused
  array_Allowed h true true u = refused
  array_Allowed h true false true = refused
  array_Allowed h true false false = returned (of_array h)

  ref_Allowed :
      (k ==ℤ kind_ref) ≡ true
      → (o r u : Bool)
      → Ensures
          (λ _. Allowed k o r u)
          (if not r then malformed else if o || u then malformed else ok tt)
  ref_Allowed h o false u = refused
  ref_Allowed h true true u = refused
  ref_Allowed h false true true = refused
  ref_Allowed h false true false = returned (of_ref h)

  magnitude_Allowed :
      is_magnitude k ≡ true
      → (o r u : Bool)
      → Ensures
          (λ _. Allowed k o r u)
          (if not u then malformed else if o || r then malformed else ok tt)
  magnitude_Allowed h o r false = refused
  magnitude_Allowed h true r true = refused
  magnitude_Allowed h false true true = refused
  magnitude_Allowed h false false true = returned (of_magnitude h)

  pub check_fields-Allowed : (o r u : Bool) → Ensures (λ _. Allowed k o r u) (check_fields k o r u)
  unfolding check_fields
  check_fields-Allowed o r u =
      Ensures-if (is_scalar k) (λ s. scalar_Allowed s o r u)
        λ ns.
          Ensures-if (k ==ℤ kind_array) (λ a. array_Allowed a o r u)
            λ na.
              Ensures-if (k ==ℤ kind_ref) (λ f. ref_Allowed f o r u)
                λ nf.
                  Ensures-if (is_magnitude k) (λ m. magnitude_Allowed m o r u)
                    λ nm. returned (of_unknown ns na nf nm)

pub to_int-Ensures : (o : Option ℤ) → Ensures (λ n. is_int64 n ≡ true) (to_int o)
unfolding to_int
to_int-Ensures none = refused
to_int-Ensures (some n) = Ensures-if (is_int64 n) returned (λ _. refused)

optional_code-Ensures :
    (ti : Instance) (key : ℤ)
    → Ensures (λ n. (has ti key ≡ false → n ≡ pos 0) × (is_int64 n ≡ true)) (optional_code ti key)
unfolding optional_code
optional_code-Ensures ti key =
    Ensures-if (has ti key)
      (λ there. Ensures-weaken (λ n fits. (λ missing. cc, fits)) (to_int-Ensures _))
      (λ missing. returned (λ _. refl, unfold is_int64 in refl))

descriptor_with-Complete :
    (ti : Instance) (read_of : Result SchemaError Element)
    → Ensures (Holds (has ti (pos 1))) read_of
    → Ensures Complete (descriptor_with ti read_of)
unfolding descriptor_with
descriptor_with-Complete ti read_of h =
    Ensures-if (not (has ti (pos 0))) (λ _. refused)
      λ _. Ensures-bind (to_int-Ensures _) λ kind fits. Ensures-bind h λ o holds.
        Ensures-bind (optional_code-Ensures ti (pos 2)) λ r no_ref.
          Ensures-bind (optional_code-Ensures ti (pos 3)) λ u no_unit.
            Ensures-bind
              (check_fields-Allowed kind (has ti (pos 1)) (has ti (pos 2)) (has ti (pos 3)))
              λ _ allowed.
                returned (complete _ _ _ allowed holds no_ref.0 no_unit.0 fits no_ref.1 no_unit.1)

if_Holds :
    (b : Bool) (a : Any) (o : Option Any) {this rest : Result SchemaError Element}
    → Ensures (Holds true) this
    → Ensures (Holds (is_present o)) rest
    → Ensures (Holds (is_present (if b then some a else o))) (if b then this else rest)
if_Holds true a o hit miss = hit
if_Holds false a o hit miss = miss

mutual
  unfolding parse_type_descriptor has get_field

  pub parse_type_descriptor-Complete : (i : Instance) → Ensures Complete (parse_type_descriptor i)
  parse_type_descriptor-Complete (instance_of t v fs) =
      descriptor_with-Complete (instance_of t v fs) (parse_of fs) (parse_of-Holds t v fs)

  parse_of-Holds :
      (t : FieldTable) (v : ℤ) (fs : Fields)
      → Ensures (Holds (has (instance_of t v fs) (pos 1))) (parse_of fs)
  parse_of-Holds t v no_fields = returned absent
  parse_of-Holds t v (field k a fs) =
      if_Holds (k ==ℤ pos 1) a (get_field (pos 1) fs) (parse_element-Holds a)
        (parse_of-Holds t v fs)

  parse_element-Holds : (a : Any) → Ensures (Holds true) (parse_element a)
  parse_element-Holds (nested i) =
      Ensures-bind (parse_type_descriptor-Complete i) (λ td c. returned (present c))
  parse_element-Holds (plain v) = refused
  parse_element-Holds (array xs) = refused
