-- ===== src/Schema/Examples.antt =====
-- Concrete runs of the schema layer, and its theorems at concrete inputs.
mod Refusals
mod Tables
mod Sameness
use murmur_go.Common.{ap, arith, panics, ℕ, ◌≡◌, refl, List, [], ◌∷◌, Result, ok}
use murmur_go.Common.Int.{ℤ, abs, pos, is_int64}
use murmur_go.Cbor.Value.{Value, Values, int, text, array, map, nil, cons, end, entry}
use murmur_go.Cbor.Canonical.{gcd, check_decimal, check_rational}
use murmur_go.Cbor.Encode.{encode}
use murmur_go.Cbor.Decode.{decode}
use murmur_go.Cbor.Examples.{any, run_decode}
use murmur_go.Schema.Artifact.{encode-untyped}
use murmur_go.Schema.Errors
use murmur_go.Schema.Errors.{SchemaError, refuse}
use murmur_go.Schema.Path.{codes, digits, index_path, field_path}
use murmur_go.Schema.Table.{FieldTable, find_entry, entry_by_key}
use murmur_go.Schema.Registry.{RegKey, Registry, find_table, lookup, add}
use murmur_go.Schema.Floor.{default_registry, meta_table, entry_table, type_descriptor_table}
use murmur_go.Schema.Instance.{
  require, Instance, instance_of, field, no_fields, plain, nested, get_field, set_field, has,
  get_int, get_text, get_ref, get_array,
}
use murmur_go.Schema.Interpret.{
  two_ints, as_int, as_bytes, as_text, as_bool, as_decimal, as_rational, by_kind, with_element,
  bind_entry, interpret_value, interpret_map, interpret,
}
use murmur_go.Schema.FieldTable.{
  to_int, optional_code, check_fields, descriptor_with, parse_type_descriptor, all_present,
  entry_present, parse_entry, parse_entries, check_positions, validate_entry_keys, table_present,
  project, parse_field_table,
}
use murmur_go.Cbor.Keys.{Distinct, of_int, of_map, one_entry, no_entries, new_before, new_at_end}
use murmur_go.Schema.Untyped.{untyped}
use murmur_go.Schema.Faithful.{untyped-interpret}
use murmur_go.Schema.Settled.{Settled, interpret-Settled}
use murmur_go.Schema.Held.{Added, add-Added, Gate, require-Gate}
use murmur_go.Schema.Dense.{WellFormed, parse_field_table-WellFormed}
use murmur_go.Schema.Author.{author_type, author}
use murmur_go.Schema.Author.Reading.{HoldsFloor}
use murmur_go.Schema.Author.Parsing.{parse_field_table-author}
use murmur_go.Schema.Versions.{interpret-add}
use murmur_go.Schema.Sound.{Interpreted, interpret-Interpreted}

unfoldable pub run_interpret : FieldTable → Value → Registry → Result SchemaError Instance
unfolding interpret interpret_map interpret_value bind_entry by_kind with_element two_ints as_int
    as_bytes as_text as_bool as_decimal as_rational check_decimal check_rational gcd lookup
    find_table entry_by_key find_entry set_field index_path field_path digits is_int64
run_interpret = interpret

unfoldable pub run_parse : Value → Registry → Result SchemaError FieldTable
unfolding parse_field_table project table_present validate_entry_keys check_positions parse_entries
    parse_entry entry_present all_present parse_type_descriptor descriptor_with check_fields
    optional_code to_int has get_field get_int get_text get_ref get_array run_interpret
run_parse = parse_field_table

-- The floor.
abbrev held : FieldTable → RegKey × FieldTable
held t = (record { typ = t.describes; version = t.version }, t)

abbrev pub floor : Registry
floor = held type_descriptor_table ∷ held entry_table ∷ held meta_table ∷ []

default_floor : default_registry ≡ ok floor
unfolding default_registry add lookup find_table
default_floor = refl

-- {0: kind}, {0: kind, 1: of} and {0: kind, 2: ref}.
abbrev plain_type : ℤ → Value
plain_type kind = map (entry (int (pos 0)) (int kind) end)

abbrev of_type : ℤ → Value → Value
of_type kind of_ = map (entry (int (pos 0)) (int kind) (entry (int (pos 1)) of_ end))

abbrev ref_type : ℤ → ℤ → Value
ref_type kind code = map (entry (int (pos 0)) (int kind) (entry (int (pos 2)) (int code) end))

abbrev entry_map : ℕ → List ℕ → Value → ℕ → Value
entry_map key name type presence = map (
    entry (int (pos 0)) (int (pos key)) (
      entry (int (pos 1)) (text name)
        (entry (int (pos 2)) type (entry (int (pos 3)) (int (pos presence)) end))))

abbrev table_map : ℕ → ℕ → Values → Value
table_map describes version entries = map (
    entry (int (pos 0)) (int (pos describes))
      (entry (int (pos 1)) (int (pos version)) (entry (int (pos 2)) (array entries) end)))

-- The artifact of the meta-table.
abbrev meta_artifact : Value
meta_artifact = table_map 0 1 (
    cons (entry_map 0 (codes "describes") (plain_type (pos 0)) 1) (
      cons (entry_map 1 (codes "version") (plain_type (pos 0)) 1)
        (cons (entry_map 2 (codes "entries") (of_type (pos 6) (ref_type (pos 7) (pos 1))) 1) nil)))

-- The fixed point, for the meta-table.
parse_meta : parse_field_table meta_artifact floor ≡ ok meta_table
unfolding run_parse
parse_meta = refl

-- Keys 0 and 2.
parse_gap :
    parse_field_table
      (table_map 7 1 (
        cons
          (entry_map 0 (codes "a") (plain_type (pos 0)) 1)
          (cons (entry_map 2 (codes "b") (plain_type (pos 0)) 1) nil)))
      floor
    ≡ refuse Errors.malformed_field_table (codes "entries[1]")
unfolding run_parse
parse_gap = refl

-- An array that does not say of what.
parse_bare_array :
    parse_field_table
      (table_map 7 1 (cons (entry_map 0 (codes "a") (plain_type (pos 6)) 1) nil))
      floor
    ≡ refuse Errors.malformed_descriptor (codes "type-descriptor")
unfolding run_parse
parse_bare_array = refl

-- A text where the table has an integer.
interpret_mismatch :
    interpret entry_table (map (entry (int (pos 0)) (text []) end)) floor
    ≡ refuse Errors.type_mismatch (codes "key")
unfolding run_interpret
interpret_mismatch = refl

parse_field_table-WellFormed_example : WellFormed meta_table
parse_field_table-WellFormed_example =
    parse_field_table-WellFormed meta_artifact floor meta_table parse_meta

-- The artifact that states the meta-table is the one above.
author_meta : author meta_table ≡ meta_artifact
unfolding author_type
author_meta = refl

pub floor-HoldsFloor : HoldsFloor floor
unfolding lookup find_table
floor-HoldsFloor = record { entries = refl; types = refl }

parse_field_table-author_example : parse_field_table (author meta_table) floor ≡ ok meta_table
parse_field_table-author_example =
    parse_field_table-author meta_table floor
      (parse_field_table-WellFormed meta_artifact floor meta_table parse_meta) floor-HoldsFloor

-- {0: 5, 2: {0: 3}} under the table of an entry.
abbrev pub partial_entry : Value
partial_entry =
    map (entry (int (pos 0)) (int (pos 5)) (entry (int (pos 2)) (plain_type (pos 3)) end))

abbrev pub partial_instance : Instance
partial_instance = instance_of entry_table (pos 1) (
    field (pos 0) (plain (int (pos 5))) (
      field (pos 2)
        (nested (
          instance_of type_descriptor_table (pos 1)
            (field (pos 0) (plain (int (pos 3))) no_fields)))
        no_fields))

pub interpret-partial_entry : interpret entry_table partial_entry floor ≡ ok partial_instance
unfolding run_interpret
interpret-partial_entry = refl

interpret-Interpreted_example : Interpreted floor entry_table partial_instance
interpret-Interpreted_example =
    interpret-Interpreted entry_table partial_entry floor partial_instance interpret-partial_entry

pub partial_entry-Distinct : Distinct partial_entry
partial_entry-Distinct = of_map (
    one_entry (new_before (λ p. cc) new_at_end) of_int
      (one_entry new_at_end (of_map (one_entry new_at_end of_int no_entries)) no_entries))

-- A table that is held already, and one that is not.
add_held : add meta_table floor ≡ panics
unfolding add lookup find_table
add_held = refl

add-Added_example :
    Added entry_table (held meta_table ∷ []) (add entry_table (held meta_table ∷ []))
add-Added_example = add-Added entry_table (held meta_table ∷ [])

require-Gate_example :
    Gate partial_instance (pos 0 ∷ pos 1 ∷ []) (require partial_instance (pos 0 ∷ pos 1 ∷ []))
require-Gate_example = require-Gate partial_instance (pos 0 ∷ pos 1 ∷ [])

abbrev pub partial_bytes : List ℕ
partial_bytes = 0xa2 ∷ 0x00 ∷ 0x05 ∷ 0x02 ∷ 0xa1 ∷ 0x00 ∷ 0x03 ∷ []

pub decode-partial_bytes : decode any partial_bytes ≡ ok partial_entry
unfolding run_decode
decode-partial_bytes = refl

encode-untyped_example : encode any (untyped partial_instance) ≡ ok partial_bytes
encode-untyped_example =
    encode-untyped any partial_bytes partial_entry entry_table floor partial_instance (omega arith)
      (omega arith) decode-partial_bytes interpret-partial_entry

-- The meta-table of a version to come.
abbrev next_meta : FieldTable
next_meta = record meta_table { version = pos 2 }

add-next_meta : add next_meta floor ≡ ok (held next_meta ∷ floor)
unfolding add lookup find_table
add-next_meta = refl

interpret-add_example :
    interpret entry_table partial_entry (held next_meta ∷ floor)
    ≡ interpret entry_table partial_entry floor
interpret-add_example =
    interpret-add entry_table next_meta partial_entry floor (held next_meta ∷ floor) add-next_meta
      (λ e. let two_is_one = ap abs e in absurd (omega (arith, two_is_one)))
