-- ===== src/Schema/Table.antt =====
-- schema/table.go: field tables. Codes, keys and versions are Go ints; a name is the bytes of a string.
use murmur_go.Common.{ℕ, Option, none, some, List, [], ◌∷◌, if◌then◌else◌}
use murmur_go.Common.Int.{ℤ, pos, ◌==ℤ◌}

-- The code of a kind, an open set.
abbrev pub Kind : Type 0
Kind = ℤ

abbrev pub kind_int : Kind
kind_int = pos 0

abbrev pub kind_bytes : Kind
kind_bytes = pos 1

abbrev pub kind_text : Kind
kind_text = pos 2

abbrev pub kind_bool : Kind
kind_bool = pos 3

abbrev pub kind_decimal : Kind
kind_decimal = pos 4

abbrev pub kind_rational : Kind
kind_rational = pos 5

abbrev pub kind_array : Kind
kind_array = pos 6

abbrev pub kind_ref : Kind
kind_ref = pos 7

abbrev pub Presence : Type 0
Presence = ℤ

abbrev pub presence_optional : Presence
presence_optional = pos 0

abbrev pub presence_required : Presence
presence_required = pos 1

abbrev pub ArtifactType : Type 0
ArtifactType = ℤ

abbrev pub artifact_field_table : ArtifactType
artifact_field_table = pos 0

abbrev pub artifact_entry : ArtifactType
artifact_entry = pos 1

abbrev pub artifact_type_descriptor : ArtifactType
artifact_type_descriptor = pos 2

-- `descriptor kind of ref unit`; the pointer `Of` is nil or names an element type.
mutual
  pub data TypeDescriptor : Type 0 where
    descriptor : Kind → Element → ArtifactType → ℤ → TypeDescriptor

  pub data Element : Type 0 where
    no_element : Element
    element : TypeDescriptor → Element

abbrev pub kind_of : TypeDescriptor → Kind
kind_of (descriptor k o r u) = k

abbrev pub of_of : TypeDescriptor → Element
of_of (descriptor k o r u) = o

abbrev pub ref_of : TypeDescriptor → ArtifactType
ref_of (descriptor k o r u) = r

pub record Entry : Type 0 where
  pub key : ℤ
  pub name : List ℕ
  pub type : TypeDescriptor
  pub presence : Presence

pub record FieldTable : Type 0 where
  pub describes : ArtifactType
  pub version : ℤ
  pub entries : List Entry

-- The loop of `entryByKey`.
unfoldable pub find_entry : ℤ → List Entry → Option Entry
find_entry key [] = none
find_entry key (e ∷ es) = if e.key ==ℤ key then some e else find_entry key es

unfoldable pub entry_by_key : FieldTable → ℤ → Option Entry
entry_by_key t key = find_entry key t.entries

unfoldable pub required_in : List Entry → List ℤ
required_in [] = []
required_in (e ∷ es) =
    if e.presence ==ℤ presence_required then e.key ∷ required_in es else required_in es

unfoldable pub required_keys : FieldTable → List ℤ
required_keys t = required_in t.entries
