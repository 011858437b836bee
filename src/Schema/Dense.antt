-- ===== src/Schema/Dense.antt =====
-- Which field tables schema/fieldtable.go makes of artifacts.
use murmur_go.Common.{
  ℕ, suc, ◌≡◌, ◌≢◌, true, not, List, [], ◌∷◌, Option, none, some, ok, Ensures, Ensures-ok, returned,
  refused, Ensures-if, Ensures-bind, Ensures-weaken, anything, not-false→true,
}
use murmur_go.Common.Int.{pos, ◌==ℤ◌, is_int64, ==ℤ→eq}
use murmur_go.Cbor.Value.{Value}
use murmur_go.Schema.Table.{Entry, FieldTable}
use murmur_go.Schema.Registry.{Registry}
use murmur_go.Schema.Floor.{meta_table}
use murmur_go.Schema.Instance.{
  Instance, Anys, nil, cons, plain, nested, array, get_int, get_ref, get_array,
}
use murmur_go.Schema.Interpret.{interpret}
use murmur_go.Schema.FieldTable.{
  parse_entry, parse_entries, check_positions, validate_entry_keys, project, parse_field_table,
  entry_present, table_present, array_or_empty, type_of,
}
use murmur_go.Schema.Shape.{Complete, to_int-Ensures, parse_type_descriptor-Complete}

-- Every entry has a complete type, and a key and a presence code that an `int` holds.
pub data Typed : List Entry → Type 0 where
  none_left : Typed []
  one_more :
      {e : Entry} {es : List Entry}
      → Complete e.type
      → is_int64 e.key ≡ true
      → is_int64 e.presence ≡ true
      → Typed es
      → Typed (e ∷ es)

-- The keys count up from `i`.
pub data CountsFrom : ℕ → List Entry → Type 0 where
  counted : {i : ℕ} → CountsFrom i []
  counts :
      {i : ℕ} {e : Entry} {es : List Entry}
      → e.key ≡ pos i
      → CountsFrom (suc i) es
      → CountsFrom i (e ∷ es)

pub record WellFormed (t : FieldTable) : Type 0 where
  pub nonempty : t.entries ≢ []
  pub dense : CountsFrom 0 t.entries
  pub typed : Typed t.entries
  pub describes_fits : is_int64 t.describes ≡ true
  pub version_fits : is_int64 t.version ≡ true

type_of-Complete : (o : Option Instance) (i : ℕ) → Ensures Complete (type_of o i)
type_of-Complete none i = refused
type_of-Complete (some t) i = parse_type_descriptor-Complete t

parse_entry-Ensures :
    (ei : Instance) (i : ℕ)
    → Ensures
        (λ e. Complete e.type × ((is_int64 e.key ≡ true) × (is_int64 e.presence ≡ true)))
        (parse_entry ei i)
unfolding parse_entry
parse_entry-Ensures ei i = Ensures-bind (anything (entry_present ei i)) λ _ _.
    Ensures-bind (to_int-Ensures (get_int ei (pos 0))) λ key key_fits.
      Ensures-bind (to_int-Ensures (get_int ei (pos 3))) λ pres fits.
        Ensures-bind (type_of-Complete (get_ref ei (pos 2)) i)
          λ td c. returned (c, (key_fits, fits))

parse_entries-Typed : (raws : Anys) (i : ℕ) → Ensures Typed (parse_entries raws i)
unfolding parse_entries
parse_entries-Typed nil i = returned none_left
parse_entries-Typed (cons (nested ei) raws) i = Ensures-bind (parse_entry-Ensures ei i) λ e h.
    Ensures-bind (parse_entries-Typed raws (suc i)) λ es t. returned (one_more h.0 h.1.0 h.1.1 t)
parse_entries-Typed (cons (plain v) raws) i = refused
parse_entries-Typed (cons (array xs) raws) i = refused

check_positions-CountsFrom :
    (es : List Entry) (i : ℕ) → Ensures (λ _. CountsFrom i es) (check_positions es i)
unfolding check_positions
check_positions-CountsFrom [] i = returned counted
check_positions-CountsFrom (e ∷ es) i =
    Ensures-if (not (e.key ==ℤ pos i)) (λ _. refused)
      λ here.
        Ensures-weaken
          (λ _ rest. counts (==ℤ→eq e.key (pos i) (not-false→true (e.key ==ℤ pos i) here)) rest)
          (check_positions-CountsFrom es (suc i))

validate_entry_keys-Ensures :
    (es : List Entry) → Ensures (λ _. (es ≢ []) × CountsFrom 0 es) (validate_entry_keys es)
unfolding validate_entry_keys
validate_entry_keys-Ensures [] = refused
validate_entry_keys-Ensures (e ∷ es) =
    Ensures-weaken (λ _ h. (λ p. cc, h)) (check_positions-CountsFrom (e ∷ es) 0)

pub project-WellFormed : (inst : Instance) → Ensures WellFormed (project inst)
unfolding project
project-WellFormed inst = Ensures-bind (anything (table_present inst)) λ _ _.
    Ensures-bind (to_int-Ensures (get_int inst (pos 0))) λ d d_fits.
      Ensures-bind (to_int-Ensures (get_int inst (pos 1))) λ v v_fits.
        Ensures-bind (parse_entries-Typed (array_or_empty (get_array inst (pos 2))) 0) λ es ts.
          Ensures-bind (validate_entry_keys-Ensures es) λ _ h. returned (record {
            nonempty = h.0;
            dense = h.1;
            typed = ts;
            describes_fits = d_fits;
            version_fits = v_fits;
          })

-- A table that ParseFieldTable makes, of any value under any registry, has at least one entry; the
-- keys of its entries are 0, 1, 2 and so on in order; the type of each entry has, at every depth, the
-- fields that its kind owns and none that another kind owns, where the kind is known; and the
-- artifact type, the version and every key, presence, kind, reference and unit fit an `int64`.
pub parse_field_table-WellFormed :
    (v : Value) (reg : Registry) (t : FieldTable) → parse_field_table v reg ≡ ok t → WellFormed t
unfolding parse_field_table
parse_field_table-WellFormed v reg t h =
    Ensures-ok
      (Ensures-bind (anything (interpret meta_table v reg)) (λ inst _. project-WellFormed inst)) h
