-- ===== src/Schema/Held.antt =====
-- What a registry of schema/table.go holds, and the presence gate of schema/interpret.go.
use murmur_go.Common.{
  ◌≡◌, refl, true, false, ◌&&◌, List, [], ◌∷◌, Option, none, some, inl, inr, Result, ok, panics,
  All, Bool-cases,
}
use murmur_go.Common.Int.{ℤ, ◌==ℤ◌, ==ℤ-refl}
use murmur_go.Schema.Errors
use murmur_go.Schema.Errors.{SchemaError, refuse}
use murmur_go.Schema.Table.{FieldTable}
use murmur_go.Schema.Registry.{Registry, find_table, lookup, add}
use murmur_go.Schema.Instance.{Instance, has, require}

-- What Add comes to.
pub data Added (t : FieldTable) (r : Registry) : Result SchemaError Registry → Type 0 where
  was_held : {old : FieldTable} → lookup r t.describes t.version ≡ some old → Added t r panics
  was_free :
      {r' : Registry}
      → lookup r t.describes t.version ≡ none
      → lookup r' t.describes t.version ≡ some t
      → ((typ version : ℤ)
          → (t.describes ==ℤ typ && t.version ==ℤ version) ≡ false
          → lookup r' typ version ≡ lookup r typ version)
      → Added t r (ok r')

find_table-first :
    (t : FieldTable) (r : Registry)
    → find_table
        (record { typ = t.describes; version = t.version })
        ((record { typ = t.describes; version = t.version }, t) ∷ r)
      ≡ some t
unfolding find_table
find_table-first t r = rw (==ℤ-refl t.describes, ==ℤ-refl t.version) refl

add_of_found :
    (t : FieldTable) (r : Registry) (found : Option FieldTable)
    → lookup r t.describes t.version ≡ found
    → Added t r (elim found [
      | some _ ↦ panics
      | none ↦ ok ((record { typ = t.describes; version = t.version }, t) ∷ r)
    ])
unfolding lookup find_table
add_of_found t r (some old) h = was_held h
add_of_found t r none h = was_free h (find_table-first t r) λ typ version other. rw other refl

-- Add, on every registry: it panics if a table of that type and version is held; otherwise the new
-- table is found under its own type and version, and every other type and version as before.
pub add-Added : (t : FieldTable) (r : Registry) → Added t r (add t r)
unfolding add
add-Added t r = add_of_found t r (lookup r t.describes t.version) refl

-- A key that the instance has no field of.
pub data Missing (inst : Instance) : List ℤ → Type 0 where
  first : {k : ℤ} {ks : List ℤ} → has inst k ≡ false → Missing inst (k ∷ ks)
  later : {k : ℤ} {ks : List ℤ} → Missing inst ks → Missing inst (k ∷ ks)

pub data Gate (inst : Instance) (ks : List ℤ) : Result SchemaError (Unit {0}) → Type 0 where
  passes : All (λ k. has inst k ≡ true) ks → Gate inst ks (ok tt)
  stops : Missing inst ks → Gate inst ks (refuse Errors.missing_field [])

Gate-later :
    {inst : Instance} {k : ℤ} {ks : List ℤ} {r : Result SchemaError (Unit {0})}
    → has inst k ≡ true
    → Gate inst ks r
    → Gate inst (k ∷ ks) r
Gate-later h (passes all) = passes (h, all)
Gate-later h (stops m) = stops (later m)

-- Require passes where the instance has a field of every key, and refuses with the reason
-- missing-required-field, at the root, where some key has none.
pub require-Gate : (inst : Instance) (ks : List ℤ) → Gate inst ks (require inst ks)
unfolding require
require-Gate inst [] = passes tt
require-Gate inst (k ∷ ks) = elim (Bool-cases (has inst k)) [
  | inl there ↦ rw there (Gate-later there (require-Gate inst ks))
  | inr missing ↦ rw missing (stops (first missing))
]
