-- ===== src/Conformance/Files.antt =====
-- conformance/conformance.go: where vectors come from. The files of a tree, and the vector in a file.
pub mod Listed
use murmur_go.Common.{
  ℕ, Bool, not, ◌&&◌, ◌==◌, if◌then◌else◌, Option, none, some, List, [], ◌∷◌, ◌++◌, Result, ok,
  ◌>>=◌, map_err,
}
use murmur_go.Cbor.Order.{same_bytes}
use murmur_go.Schema.Path.{codes}
use murmur_go.Conformance.Vector.{Vector}

-- `filepath.Ext`: the last dot of the last element and what follows it, or nothing. The second text is
-- the one found so far.
unfoldable pub ext_loop : List ℕ → List ℕ → List ℕ
ext_loop [] found = found
ext_loop (c ∷ path) found =
    ext_loop path (if c == b'/' then [] else if c == b'.' then c ∷ path else found)

unfoldable pub ext : List ℕ → List ℕ
ext path = ext_loop path []

-- A call that `filepath.WalkDir` makes of its function: the path, `d.IsDir()`, and the error of
-- visiting it, if there was one.
pub record Visit (E : Type 0) : Type 0 where
  pub path : List ℕ
  pub is_dir : Bool
  pub failure : Option E

-- `!d.IsDir() && filepath.Ext(path) == ".json"`.
abbrev pub is_fixture : {E : Type 0} → Visit E → Bool
is_fixture v = not v.is_dir && same_bytes (ext v.path) (codes ".json")

module _ {E : Type 0} where
  -- The function over the visits that come: an error that it returns ends the walk.
  unfoldable pub visit_all : List (Visit E) → List (List ℕ) → List (List ℕ) × Option E
  visit_all [] out = (out, none)
  visit_all (v ∷ vs) out = elim v.failure [
    | some e ↦ (out, some e)
    | none ↦ visit_all vs (if is_fixture v then out ++ v.path ∷ [] else out)
  ]

  -- The walk of a directory is the list of the visits.
  unfoldable pub files : (List ℕ → List (Visit E)) → List ℕ → List (List ℕ) × Option E
  files walk_dir dir = visit_all (walk_dir dir) []

pub data LoadError (E F : Type 0) : Type 0 where
  not_read : E → LoadError E F
  not_parsed : List ℕ → F → LoadError E F

-- `os.ReadFile` and `json.Unmarshal` are the first two arguments.
unfoldable pub load :
    {E F : Type 0}
    → (List ℕ → Result E (List ℕ))
    → (List ℕ → Result F Vector)
    → List ℕ
    → Result (LoadError E F) Vector
load read_file unmarshal path = do
  raw ← map_err not_read (read_file path)
  map_err (not_parsed path) (unmarshal raw)
