-- ===== src/Cbor/Encode/Buffer.antt =====
-- What the encoder of cbor/encode.go appends, apart from what its buffer holds.
use murmur_go.Common.{
  ℕ, ◌≤◌, ◌≡◌, sym, ◌∙◌, List, [], ◌∷◌, ◌++◌, append_assoc, append-nil, length, le→ltb, Result, ok,
}
use murmur_go.Cbor.Errors.{EncodeError}
use murmur_go.Cbor.Order.{Encoded}
use murmur_go.Cbor.Order.Laws.{AscendsFrom, sort_pairs-AscendsFrom, has_duplicate-AscendsFrom}
use murmur_go.Cbor.Head.{head_bytes}
use murmur_go.Cbor.Encode.{max_depth, Buffer, head, guard_depth, append_pairs, write_map}
use mathlib.Core.Option.{Option}

-- The keys and values of a map, one after the other.
abbrev pub flat : List Encoded → List ℕ
flat [] = []
flat (p ∷ ps) = p.key ++ (p.val ++ flat ps)

pub append_pairs-flat : (ps : List Encoded) (buf : Buffer) → append_pairs ps buf ≡ buf ++ flat ps
unfolding append_pairs
append_pairs-flat [] buf = sym (append-nil buf)
append_pairs-flat (p ∷ ps) buf = append_pairs-flat ps ((buf ++ p.key) ++ p.val) ∙ simp append_assoc

-- Pairs that ascend are written as they stand.
pub write_map-AscendsFrom :
    (prev : Option (List ℕ)) (ps : List Encoded) (buf : Buffer)
    → AscendsFrom prev ps
    → write_map ps buf ≡ ok (buf ++ (head_bytes 5 (length ps) ++ flat ps))
unfolding write_map head
write_map-AscendsFrom prev ps buf h = rw (
  sort_pairs-AscendsFrom prev ps h,
  has_duplicate-AscendsFrom prev ps h,
  append_pairs-flat ps (buf ++ head_bytes 5 (length ps)),
  append_assoc,
)

pub guard_depth-ok :
    {A : Type 0} (depth : ℕ) (r : Result EncodeError A)
    → depth ≤ max_depth
    → guard_depth depth r ≡ r
guard_depth-ok depth r h = rw (le→ltb max_depth depth h)
