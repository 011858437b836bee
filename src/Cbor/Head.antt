-- ===== src/Cbor/Head.antt =====
-- `head` of cbor/encode.go: the shortest of the immediate, 1, 2, 4 and 8 byte argument forms. The
-- argument is a uint64; `byte(arg>>k)` is `arg / 2 ^ k % 256`.
pub mod Form
pub mod Width
use murmur_go.Common.{ℕ, ◌*◌, ◌/◌, ◌%◌, ◌^◌, List, [], ◌∷◌, ltb, if◌then◌else◌, bit_or}

-- The bytes that `head` appends.
unfoldable pub head_bytes : ℕ → ℕ → List ℕ
head_bytes major arg =
    let m : ℕ = major * 2 ^ 5 % 256 in
    if ltb arg 24
    then bit_or m (arg % 256) ∷ []
    else if ltb arg (2 ^ 8)
    then bit_or m 24 ∷ arg % 256 ∷ []
    else if ltb arg (2 ^ 16)
    then bit_or m 25 ∷ arg / 2 ^ 8 % 256 ∷ arg % 256 ∷ []
    else if ltb arg (2 ^ 32)
    then bit_or m 26 ∷ arg / 2 ^ 24 % 256 ∷ arg / 2 ^ 16 % 256 ∷ arg / 2 ^ 8 % 256 ∷ arg % 256 ∷ []
    else bit_or m 27
      ∷ arg / 2 ^ 56 % 256
      ∷ arg / 2 ^ 48 % 256
      ∷ arg / 2 ^ 40 % 256
      ∷ arg / 2 ^ 32 % 256
      ∷ arg / 2 ^ 24 % 256
      ∷ arg / 2 ^ 16 % 256
      ∷ arg / 2 ^ 8 % 256
      ∷ arg % 256
      ∷ []
