-- ===== src/Schema/Path.antt =====
-- The paths of schema/interpret.go, as the bytes of the strings.
use Prim.Native.Char.{code}
use murmur_go.Common.{ℕ, zero, suc, ◌+◌, ◌/◌, ◌%◌, String, List, [], ◌∷◌, ◌++◌, ltb, if◌then◌else◌}

-- The bytes of an ASCII string.
abbrev pub codes : String → List ℕ
codes String.[] = []
codes (String.◌∷◌ c s) = code c ∷ codes s

-- `%d` of a number; a number has no more digits than its value and one.
unfoldable pub digits : ℕ → ℕ → List ℕ → List ℕ
digits zero n rest = rest
digits (suc fuel) n rest =
    let more = digits fuel (n / 10) ((48 + n % 10) ∷ rest) in
    if ltb n 10 then (48 + n) ∷ rest else more

-- `fmt.Sprintf("%s[%d]", path, i)`.
unfoldable pub index_path : List ℕ → ℕ → List ℕ
index_path path i = path ++ (b'[' ∷ digits (suc i) i (b']' ∷ []))

unfoldable pub field_path : List ℕ → List ℕ → List ℕ
field_path [] name = name
field_path (c ∷ parent) name = (c ∷ parent) ++ (b'.' ∷ name)
