-- ===== src/Schema/Examples/Refusals.antt =====
-- Concrete refusals of schema/interpret.go, and where they are.
use murmur_go.Common.{◌≡◌, ◌↔◌, refl, ok}
use murmur_go.Common.Int.{pos}
use murmur_go.Cbor.Value.{Value, int, array, map, cons, nil, end, entry}
use murmur_go.Schema.Errors
use murmur_go.Schema.Errors.{SchemaError, refuse}
use murmur_go.Schema.Path.{codes}
use murmur_go.Schema.Floor.{meta_table}
use murmur_go.Schema.Interpret.{interpret}
use murmur_go.Schema.Examples.{floor, run_interpret}
use murmur_go.Schema.Instance
use murmur_go.Schema.Refusal.{BlamesArtifact, refusal}
use murmur_go.Schema.Refusal.Refused.{interpret_iff}
use murmur_go.Schema.Refusal.Found.{interpret-Blames}

-- {2: [{}, {1: 5}]}: the name of the second entry is no text.
abbrev unnamed : Value
unnamed = map (
    entry (int (pos 2))
      (array (cons (map end) (cons (map (entry (int (pos 1)) (int (pos 5)) end)) nil))) end)

interpret-unnamed :
    interpret meta_table unnamed floor ≡ refuse Errors.type_mismatch (codes "entries[1].name")
unfolding run_interpret
interpret-unnamed = refl

interpret-Blames_example :
    BlamesArtifact floor
      (pos 1)
      meta_table
      unnamed
      (refusal Errors.type_mismatch (codes "entries[1].name"))
interpret-Blames_example =
    interpret-Blames meta_table unnamed floor
      (refusal Errors.type_mismatch (codes "entries[1].name")) interpret-unnamed

interpret_iff_example :
    ((inst : Instance.Instance) × (interpret meta_table unnamed floor ≡ ok inst))
    ↔ ((e : SchemaError) → ¬ BlamesArtifact floor (pos 1) meta_table unnamed e)
interpret_iff_example = interpret_iff meta_table unnamed floor
