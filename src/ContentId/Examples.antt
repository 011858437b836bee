-- ===== src/ContentId/Examples.antt =====
-- A hash for concrete content addresses.
use murmur_go.Common.{ℕ, List, [], ◌∷◌, length}

-- A hash that is only the length.
abbrev pub toy_sum : List ℕ → List ℕ
toy_sum bs = length bs ∷ []
