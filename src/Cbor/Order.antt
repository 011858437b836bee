-- ===== src/Cbor/Order.antt =====
-- The canonical order of map entries: what cbor/encode.go takes from `bytes` and `sort`.
pub mod Laws
pub mod Swap
use Prim.Native.Nat.{compare, Ordering}
use murmur_go.Common.{ℕ, Bool, true, false, List, [], ◌∷◌, if◌then◌else◌, ◌||◌}

-- `bytes.Compare`.
unfoldable pub compare_bytes : List ℕ → List ℕ → Ordering
compare_bytes [] [] = Ordering.eq
compare_bytes [] (b ∷ bs) = Ordering.lt
compare_bytes (a ∷ rest) [] = Ordering.gt
compare_bytes (a ∷ rest) (b ∷ bs) = elim (compare a b) [
  | Ordering.lt ↦ Ordering.lt
  | Ordering.eq ↦ compare_bytes rest bs
  | Ordering.gt ↦ Ordering.gt
]

-- `bytes.Compare(a, b) < 0`, and `bytes.Equal(a, b)`.
abbrev pub precedes : List ℕ → List ℕ → Bool
precedes a b = elim (compare_bytes a b) [ Ordering.lt ↦ true | _ ↦ false ]

abbrev pub same_bytes : List ℕ → List ℕ → Bool
same_bytes a b = elim (compare_bytes a b) [ Ordering.eq ↦ true | _ ↦ false ]

-- An entry of a map, its key and its value encoded.
pub record Encoded : Type 0 where
  pub key : List ℕ
  pub val : List ℕ

-- `sort.SliceStable` by the bytes of a key: an element goes in front of the first that does not
-- precede it.
module _ {A : Type 0} (key_of : A → List ℕ) where
  unfoldable pub insert_by : A → List A → List A
  insert_by x [] = x ∷ []
  insert_by x (y ∷ ys) = if precedes (key_of y) (key_of x) then y ∷ insert_by x ys else x ∷ y ∷ ys

  unfoldable pub sort_by : List A → List A
  sort_by [] = []
  sort_by (x ∷ xs) = insert_by x (sort_by xs)

-- The sort of `mapValue`.
unfoldable pub sort_pairs : List Encoded → List Encoded
sort_pairs = sort_by (λ p. p.key)

-- The loop over neighbours that looks for a duplicate key.
unfoldable pub has_duplicate : List Encoded → Bool
has_duplicate [] = false
has_duplicate (p ∷ []) = false
has_duplicate (p ∷ q ∷ qs) = same_bytes p.key q.key || has_duplicate (q ∷ qs)
