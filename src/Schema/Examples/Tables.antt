-- ===== src/Schema/Examples/Tables.antt =====
-- A table of one entry, in bytes and back, and the field of an instance.
use murmur_go.Common.{◌≡◌, refl, true, some, ◌>>=◌, arith, ℕ, List, [], ◌∷◌, ok}
use murmur_go.Common.Int.{pos}
use murmur_go.Cbor.Value.{Value, int, text, array, map, cons, nil, end, entry}
use murmur_go.Cbor.Encode.{encode}
use murmur_go.Cbor.Decode.{decode}
use murmur_go.Cbor.Examples.{any, run_decode}
use murmur_go.Schema.Path.{codes}
use murmur_go.Schema.Table.{
  FieldTable, Entry, presence_optional, presence_required, kind_text, kind_ref,
  artifact_type_descriptor, entry_by_key, find_entry,
}
use murmur_go.Schema.Instance.{has, get_field}
use murmur_go.Schema.Accessors.{Given, interpret-Given}
use murmur_go.Schema.Floor.{scalar, ref, meta_table, entry_table}
use murmur_go.Schema.Registry.{add}
use murmur_go.Schema.Adds.{Alike, add_comm}
use murmur_go.Schema.FieldTable.{parse_field_table}
use murmur_go.Schema.Examples.{
  floor, floor-HoldsFloor, run_parse, partial_entry, partial_instance, interpret-partial_entry,
}
use murmur_go.Schema.Author.{author}
use murmur_go.Schema.Author.Types.{known, no_element_known}
use murmur_go.Schema.Author.Unique.{encode-author}

-- {0: 5, 1: 1, 2: [{0: 0, 1: "a", 2: {0: 2}, 3: 0}]}
abbrev note_bytes : List ℕ
note_bytes =
    0xa3 ∷ 0x00 ∷ 0x05 ∷ 0x01 ∷ 0x01 ∷ 0x02 ∷ 0x81 ∷ 0xa4 ∷ 0x00 ∷ 0x00 ∷ 0x01 ∷ 0x61 ∷ 0x61 ∷ 0x02
    ∷ 0xa1 ∷ 0x00 ∷ 0x02 ∷ 0x03 ∷ 0x00 ∷ []

abbrev artifact_of : Value → Value
artifact_of type = map (
    entry (int (pos 0)) (int (pos 5)) (
      entry (int (pos 1)) (int (pos 1)) (
        entry (int (pos 2))
          (array (
            cons
              (map (
                entry (int (pos 0)) (int (pos 0)) (
                  entry (int (pos 1)) (text (codes "a"))
                    (entry (int (pos 2)) type (entry (int (pos 3)) (int (pos 0)) end)))))
              nil))
          end)))

abbrev note_artifact : Value
note_artifact = artifact_of (map (entry (int (pos 0)) (int (pos 2)) end))

abbrev note_table : FieldTable
note_table = record {
  describes = pos 5;
  version = pos 1;
  entries =
      record {
        key = pos 0;
        name = codes "a";
        type = scalar kind_text;
        presence = presence_optional;
      }
      ∷ [];
}

decode-note : decode any note_bytes ≡ ok note_artifact
unfolding run_decode
decode-note = refl

parse-note : parse_field_table note_artifact floor ≡ ok note_table
unfolding run_parse
parse-note = refl

encode-author_example : encode any (author note_table) ≡ ok note_bytes
encode-author_example =
    encode-author any note_bytes note_artifact floor note_table (omega arith) (omega arith)
      decode-note floor-HoldsFloor parse-note (known refl no_element_known, tt)

-- A type of an unknown kind has more than one artifact: {0: 9}, and {0: 9, 2: 0}.
abbrev unknown_artifact : Value
unknown_artifact = artifact_of (map (entry (int (pos 0)) (int (pos 9)) end))

abbrev unknown_with_ref : Value
unknown_with_ref =
    artifact_of (map (entry (int (pos 0)) (int (pos 9)) (entry (int (pos 2)) (int (pos 0)) end)))

parse-unknown : parse_field_table unknown_artifact floor ≡ parse_field_table unknown_with_ref floor
unfolding run_parse
parse-unknown = refl

add_comm_example :
    Alike (add note_table floor >>= add meta_table) (add meta_table floor >>= add note_table)
add_comm_example = add_comm floor note_table meta_table

-- The entry of an entry's type.
abbrev type_entry : Entry
type_entry = record {
  key = pos 2;
  name = codes "type";
  type = ref artifact_type_descriptor;
  presence = presence_required;
}

entry_by_key-type : entry_by_key entry_table (pos 2) ≡ some type_entry
unfolding entry_by_key find_entry
entry_by_key-type = refl

has-type : has partial_instance (pos 2) ≡ true
unfolding has get_field
has-type = refl

interpret-Given_example : Given partial_instance (pos 2) kind_ref
interpret-Given_example =
    interpret-Given entry_table partial_entry floor partial_instance (pos 2) type_entry
      interpret-partial_entry entry_by_key-type has-type
