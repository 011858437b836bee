-- ===== src/Schema/Author/Parsing.antt =====
-- ParseFieldTable makes a field table of the artifact that states it.
use murmur_go.Common.{
  or_true, inl, inr, ℕ, suc, ◌≡◌, ◌≢◌, refl, sym, subst, Bool, true, false, not, ◌||◌, List, [],
  ◌∷◌, ok,
}
use murmur_go.Common.Int.{ℤ, pos, ◌==ℤ◌, is_int64, ==ℤ→eq, ==ℤ-refl}
use murmur_go.Schema.Table.{
  Kind, kind_array, kind_ref, kind_decimal, kind_rational, TypeDescriptor, Element, descriptor,
  element, no_element, Entry, FieldTable,
}
use murmur_go.Schema.Registry.{Registry}
use murmur_go.Schema.Floor.{type_descriptor_table}
use murmur_go.Schema.Instance.{instance_of, get_field, has, get_int, get_text, get_ref, get_array}
use murmur_go.Schema.FieldTable.{
  to_int, optional_code, is_scalar, is_magnitude, check_fields, descriptor_with,
  parse_type_descriptor, all_present, entry_present, parse_entry, parse_entries, check_positions,
  validate_entry_keys, table_present, project, parse_field_table,
}
use murmur_go.Schema.Shape.{
  Allowed, of_scalar, of_array, of_ref, of_magnitude, of_unknown, Complete, complete, Holds, absent,
  present,
}
use murmur_go.Schema.Dense.{Typed, one_more, CountsFrom, counts, WellFormed}
use murmur_go.Schema.Author.{
  says_ref, says_unit, of_field, type_instance, type_fields, entry_instance, entry_instances,
  author, table_instance,
}
use murmur_go.Schema.Author.Reading.{HoldsFloor, interpret-author}

abbrev names_type : Element → Bool
names_type no_element = false
names_type (element td) = true

-- The fields that are written are those that the kind allows; a code that is left out is zero.
record Written (k : Kind) (o : Element) (r u : ℤ) : Type 0 where
  fields : check_fields k (names_type o) (says_ref k) (says_unit k) ≡ ok tt
  no_ref : says_ref k ≡ false → r ≡ pos 0
  no_unit : says_unit k ≡ false → u ≡ pos 0

none_of : (x y z : Bool) → x ≡ false → y ≡ false → z ≡ false → not (x || y || z) ≡ true
none_of x y z hx hy hz = rw (hx, hy, hz)

Allowed-Written :
    {k : Kind} {o : Element} {r u : ℤ} {b c d : Bool}
    → Allowed k b c d
    → Holds b o
    → (c ≡ false → r ≡ pos 0)
    → (d ≡ false → u ≡ pos 0)
    → Written k o r u
unfolding check_fields
Allowed-Written (of_scalar s) absent hr hu = record {
  fields = rw s;
  no_ref = λ _. hr refl;
  no_unit = λ _. hu refl;
}
Allowed-Written {k} {o} {r} {u} (of_array a) (present td) hr hu =
    subst (λ x. Written x o r u) (sym (==ℤ→eq k kind_array a))
      (record { fields = refl; no_ref = λ _. hr refl; no_unit = λ _. hu refl })
Allowed-Written {k} {o} {r} {u} (of_ref f) absent hr hu =
    subst (λ x. Written x o r u) (sym (==ℤ→eq k kind_ref f))
      (record { fields = refl; no_ref = λ h. cc; no_unit = λ _. hu refl })
Allowed-Written {k} {o} {r} {u} (of_magnitude m) absent hr hu =
    elim (or_true (k ==ℤ kind_decimal) (k ==ℤ kind_rational) m) [
      | inl d ↦
          subst (λ x. Written x o r u) (sym (==ℤ→eq k kind_decimal d))
            (record { fields = refl; no_ref = λ _. hr refl; no_unit = λ h. cc })
      | inr q ↦
          subst (λ x. Written x o r u) (sym (==ℤ→eq k kind_rational q))
            (record { fields = refl; no_ref = λ _. hr refl; no_unit = λ h. cc })
    ]
Allowed-Written {k} (of_unknown s a f m) absent hr hu = record {
  fields = rw (s, a, f, m);
  no_ref = λ h. (let says = none_of (is_scalar k) (k ==ℤ kind_array) (is_magnitude k) s a m in cc);
  no_unit = λ h. (let says = none_of (is_scalar k) (k ==ℤ kind_array) (k ==ℤ kind_ref) s a f in cc);
}
Allowed-Written {k} (of_unknown s a f m) (present td) hr hu = record {
  fields = rw (s, a, f, m);
  no_ref = λ h. (let says = none_of (is_scalar k) (k ==ℤ kind_array) (is_magnitude k) s a m in cc);
  no_unit = λ h. (let says = none_of (is_scalar k) (k ==ℤ kind_array) (k ==ℤ kind_ref) s a f in cc);
}

abbrev ReadBack : Element → Type 0
ReadBack no_element = Unit {0}
ReadBack (element td) = parse_type_descriptor (type_instance td) ≡ ok td

-- What is written is read back.
parse_fields :
    (k : ℤ) (o : Element) (r u : ℤ) (b c : Bool)
    → is_int64 k ≡ true
    → is_int64 r ≡ true
    → is_int64 u ≡ true
    → check_fields k (names_type o) b c ≡ ok tt
    → (b ≡ false → r ≡ pos 0)
    → (c ≡ false → u ≡ pos 0)
    → ReadBack o
    → parse_type_descriptor (instance_of type_descriptor_table (pos 1) (type_fields k o r u b c))
      ≡ ok (descriptor k o r u)
unfolding parse_type_descriptor descriptor_with optional_code to_int has get_field get_int of_field
parse_fields k no_element r u false false fk fr fu fields nr nu ih =
    rw (fk, fields, nr refl, nu refl)
parse_fields k no_element r u false true fk fr fu fields nr nu ih = rw (fk, fu, fields, nr refl)
parse_fields k no_element r u true false fk fr fu fields nr nu ih = rw (fk, fr, fields, nu refl)
parse_fields k no_element r u true true fk fr fu fields nr nu ih = rw (fk, fr, fu, fields)
parse_fields k (element td) r u false false fk fr fu fields nr nu ih =
    rw (fk, ih, fields, nr refl, nu refl)
parse_fields k (element td) r u false true fk fr fu fields nr nu ih =
    rw (fk, ih, fu, fields, nr refl)
parse_fields k (element td) r u true false fk fr fu fields nr nu ih =
    rw (fk, ih, fr, fields, nu refl)
parse_fields k (element td) r u true true fk fr fu fields nr nu ih = rw (fk, ih, fr, fu, fields)

mutual
  unfolding type_instance

  parse_type :
      (td : TypeDescriptor) → Complete td → parse_type_descriptor (type_instance td) ≡ ok td
  parse_type (descriptor k o r u) (complete b c d allowed holds hr hu fk fr fu) =
      let written = Allowed-Written allowed holds hr hu in
      parse_fields k o r u (says_ref k) (says_unit k) fk fr fu written.fields written.no_ref
        written.no_unit (parse_element_type o b holds)

  parse_element_type : (o : Element) (b : Bool) → Holds b o → ReadBack o
  parse_element_type no_element b absent = tt
  parse_element_type (element td) b (present c) = parse_type td c

parse_entry_instance :
    (e : Entry) (i : ℕ)
    → Complete e.type
    → is_int64 e.key ≡ true
    → is_int64 e.presence ≡ true
    → parse_entry (entry_instance e) i ≡ ok e
unfolding parse_entry entry_present all_present to_int has get_field get_int get_text get_ref
parse_entry_instance e i c fk fp = rw (fk, fp, parse_type e.type c)

parse_entry_instances :
    (es : List Entry) (i : ℕ) → Typed es → parse_entries (entry_instances es) i ≡ ok es
unfolding parse_entries
parse_entry_instances [] i t = refl
parse_entry_instances (e ∷ es) i (one_more c fk fp t) =
    rw (parse_entry_instance e i c fk fp, parse_entry_instances es (suc i) t)

check_positions_ok : (es : List Entry) (i : ℕ) → CountsFrom i es → check_positions es i ≡ ok tt
unfolding check_positions
check_positions_ok [] i h = refl
check_positions_ok (e ∷ es) i (counts here rest) =
    rw (here, ==ℤ-refl (pos i), check_positions_ok es (suc i) rest)

validate_ok : (es : List Entry) → es ≢ [] → CountsFrom 0 es → validate_entry_keys es ≡ ok tt
unfolding validate_entry_keys
validate_ok [] some_entry h = absurd (some_entry refl)
validate_ok (e ∷ es) some_entry h = check_positions_ok (e ∷ es) 0 h

project-table_instance : (t : FieldTable) → WellFormed t → project (table_instance t) ≡ ok t
unfolding project table_present all_present to_int has get_field get_int get_array
project-table_instance t w = rw (
  w.describes_fits,
  w.version_fits,
  parse_entry_instances t.entries 0 w.typed,
  validate_ok t.entries w.nonempty w.dense,
)

-- Of the artifact that states a well-formed table, ParseFieldTable makes that table, under a registry
-- that holds the tables of entries and of types.
pub parse_field_table-author :
    (t : FieldTable) (reg : Registry)
    → WellFormed t
    → HoldsFloor reg
    → parse_field_table (author t) reg ≡ ok t
unfolding parse_field_table
parse_field_table-author t reg w holds =
    rw (interpret-author reg holds t, project-table_instance t w)
