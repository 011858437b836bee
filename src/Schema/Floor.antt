-- ===== src/Schema/Floor.antt =====
-- schema/floor.go: the floor closure, the three tables that a node is born knowing.
use murmur_go.Common.{[], ◌∷◌, String, Result, ◌>>=◌}
use murmur_go.Common.Int.{ℤ, pos}
use murmur_go.Schema.Errors.{SchemaError}
use murmur_go.Schema.Path.{codes}
use murmur_go.Schema.Table.{
  Kind, kind_int, kind_text, kind_array, kind_ref, Presence, presence_optional, presence_required,
  ArtifactType, artifact_field_table, artifact_entry, artifact_type_descriptor, TypeDescriptor,
  descriptor, no_element, element, Entry, FieldTable,
}
use murmur_go.Schema.Registry.{Registry, new_registry, add}

abbrev pub scalar : Kind → TypeDescriptor
scalar k = descriptor k no_element (pos 0) (pos 0)

abbrev pub ref : ArtifactType → TypeDescriptor
ref t = descriptor kind_ref no_element t (pos 0)

abbrev pub array_of : TypeDescriptor → TypeDescriptor
array_of elem = descriptor kind_array (element elem) (pos 0) (pos 0)

-- `{Key: key, Name: name, Type: type, Presence: presence}`.
abbrev field : ℤ → String → TypeDescriptor → Presence → Entry
field key name type presence = record {
  key = key;
  name = codes name;
  type = type;
  presence = presence;
}

abbrev pub meta_table : FieldTable
meta_table = record {
  describes = artifact_field_table;
  version = pos 1;
  entries =
      field (pos 0) "describes" (scalar kind_int) presence_required
      ∷ field (pos 1) "version" (scalar kind_int) presence_required
      ∷ field (pos 2) "entries" (array_of (ref artifact_entry)) presence_required
      ∷ [];
}

abbrev pub entry_table : FieldTable
entry_table = record {
  describes = artifact_entry;
  version = pos 1;
  entries =
      field (pos 0) "key" (scalar kind_int) presence_required
      ∷ field (pos 1) "name" (scalar kind_text) presence_required
      ∷ field (pos 2) "type" (ref artifact_type_descriptor) presence_required
      ∷ field (pos 3) "presence" (scalar kind_int) presence_required
      ∷ [];
}

abbrev pub type_descriptor_table : FieldTable
type_descriptor_table = record {
  describes = artifact_type_descriptor;
  version = pos 1;
  entries =
      field (pos 0) "kind" (scalar kind_int) presence_required
      ∷ field (pos 1) "of" (ref artifact_type_descriptor) presence_optional
      ∷ field (pos 2) "ref" (scalar kind_int) presence_optional
      ∷ field (pos 3) "unit" (scalar kind_int) presence_optional
      ∷ [];
}

unfoldable pub default_registry : Result SchemaError Registry
default_registry = do
  r₁ ← add meta_table new_registry
  r₂ ← add entry_table r₁
  add type_descriptor_table r₂
