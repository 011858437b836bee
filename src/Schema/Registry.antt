-- ===== src/Schema/Registry.antt =====
-- The registry of schema/table.go: a map from an artifact type and a version to a table.
use murmur_go.Common.{
  Bool, Option, none, some, List, [], ◌∷◌, ◌&&◌, if◌then◌else◌, Result, ok, panics,
}
use murmur_go.Common.Int.{ℤ, ◌==ℤ◌}
use murmur_go.Schema.Table.{FieldTable, ArtifactType}
use murmur_go.Schema.Errors.{SchemaError}

pub record RegKey : Type 0 where
  pub typ : ArtifactType
  pub version : ℤ

abbrev pub same_key : RegKey → RegKey → Bool
same_key a b = a.typ ==ℤ b.typ && a.version ==ℤ b.version

-- The Go map, as its pairs.
abbrev pub Registry : Type 0
Registry = List (RegKey × FieldTable)

abbrev pub new_registry : Registry
new_registry = []

unfoldable pub find_table : RegKey → Registry → Option FieldTable
find_table k [] = none
find_table k ((j, t) ∷ r) = if same_key j k then some t else find_table k r

unfoldable pub lookup : Registry → ArtifactType → ℤ → Option FieldTable
lookup r typ version = find_table (record { typ = typ; version = version }) r

-- `Add` panics on a duplicate.
unfoldable pub add : FieldTable → Registry → Result SchemaError Registry
add t r = elim (lookup r t.describes t.version) [
  | some _ ↦ panics
  | none ↦ ok ((record { typ = t.describes; version = t.version }, t) ∷ r)
]
