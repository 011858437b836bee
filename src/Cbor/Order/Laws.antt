-- ===== src/Cbor/Order/Laws.antt =====
-- The order of encoded keys, and sorting.
use Prim.Native.Nat.{compare, Ordering}
use murmur_go.Common.{All, ◌≢◌, ℕ, ◌≡◌, refl, false, true, Option, none, some, List, [], ◌∷◌, arith}
use murmur_go.Cbor.Order.{
  compare_bytes, precedes, same_bytes, Encoded, insert_by, sort_by, sort_pairs, has_duplicate,
}

-- The comparison seen from the other side.
abbrev pub flip : Ordering → Ordering
flip Ordering.lt = Ordering.gt
flip Ordering.eq = Ordering.eq
flip Ordering.gt = Ordering.lt

compare-flip : (a b : ℕ) → compare b a ≡ flip (compare a b)
compare-flip a b = ground arith

pub compare_bytes-flip : (a b : List ℕ) → compare_bytes b a ≡ flip (compare_bytes a b)
unfolding compare_bytes
compare_bytes-flip [] [] = refl
compare_bytes-flip [] (y ∷ b) = refl
compare_bytes-flip (x ∷ a) [] = refl
compare_bytes-flip (x ∷ a) (y ∷ b) = ground (arith, compare-flip x y, compare_bytes-flip a b)

pub compare_bytes-eq : (a b : List ℕ) → compare_bytes a b ≡ Ordering.eq → a ≡ b
unfolding compare_bytes
compare_bytes-eq [] [] h = refl
compare_bytes-eq [] (y ∷ b) h = cc
compare_bytes-eq (x ∷ a) [] h = cc
compare_bytes-eq (x ∷ a) (y ∷ b) h = ground (arith, compare_bytes-eq a b)

pub not_precedes_of_lt : (a b : List ℕ) → compare_bytes a b ≡ Ordering.lt → precedes b a ≡ false
not_precedes_of_lt a b h = ground (arith, compare_bytes-flip a b)

pub not_same_of_lt : (a b : List ℕ) → compare_bytes a b ≡ Ordering.lt → same_bytes a b ≡ false
not_same_of_lt a b h = ground arith

-- `key` comes after `prev`, if there is one.
abbrev pub Follows : Option (List ℕ) → List ℕ → Type 0
Follows none key = Unit
Follows (some prev) key = compare_bytes prev key ≡ Ordering.lt

-- The keys ascend strictly, and the first comes after `prev`.
abbrev pub AscendsFrom : Option (List ℕ) → List Encoded → Type 0
AscendsFrom prev [] = Unit
AscendsFrom prev (p ∷ ps) = Follows prev p.key × AscendsFrom (some p.key) ps

-- Nothing is left to sort, and nothing is there twice.
pub sort_pairs-AscendsFrom :
    (prev : Option (List ℕ)) (ps : List Encoded) → AscendsFrom prev ps → sort_pairs ps ≡ ps
unfolding sort_pairs sort_by insert_by
sort_pairs-AscendsFrom prev [] h = refl
sort_pairs-AscendsFrom prev (p ∷ []) h = refl
sort_pairs-AscendsFrom prev (p ∷ q ∷ qs) h =
    rw (sort_pairs-AscendsFrom (some p.key) (q ∷ qs) h.1)
      (rw (not_precedes_of_lt p.key q.key h.1.0))

pub has_duplicate-AscendsFrom :
    (prev : Option (List ℕ)) (ps : List Encoded) → AscendsFrom prev ps → has_duplicate ps ≡ false
unfolding has_duplicate
has_duplicate-AscendsFrom prev [] h = refl
has_duplicate-AscendsFrom prev (p ∷ []) h = refl
has_duplicate-AscendsFrom prev (p ∷ q ∷ qs) h =
    rw (not_same_of_lt p.key q.key h.1.0) (has_duplicate-AscendsFrom (some p.key) (q ∷ qs) h.1)

pub same_bytes-eq : (a b : List ℕ) → same_bytes a b ≡ true → a ≡ b
same_bytes-eq a b h = ground (arith, compare_bytes-eq a b)

compare_bytes_self : (a : List ℕ) → compare_bytes a a ≡ Ordering.eq
unfolding compare_bytes
compare_bytes_self [] = refl
compare_bytes_self (x ∷ a) = ground (arith, compare_bytes_self a)

pub same_bytes_self : (a : List ℕ) → same_bytes a a ≡ true
same_bytes_self a = ground (arith, compare_bytes_self a)

pub compare_bytes_trans :
    (a b c : List ℕ)
    → compare_bytes a b ≡ Ordering.lt
    → compare_bytes b c ≡ Ordering.lt
    → compare_bytes a c ≡ Ordering.lt
unfolding compare_bytes
compare_bytes_trans [] [] c h k = cc
compare_bytes_trans [] (y ∷ b) [] h k = cc
compare_bytes_trans [] (y ∷ b) (z ∷ c) h k = refl
compare_bytes_trans (x ∷ a) [] c h k = cc
compare_bytes_trans (x ∷ a) (y ∷ b) [] h k = cc
compare_bytes_trans (x ∷ a) (y ∷ b) (z ∷ c) h k = ground (arith, compare_bytes_trans a b c)

abbrev pub NoKey : List ℕ → List Encoded → Type 0
NoKey key ps = All (λ p. p.key ≢ key) ps

abbrev pub NoRepeat : List Encoded → Type 0
NoRepeat [] = Unit
NoRepeat (p ∷ ps) = NoKey p.key ps × NoRepeat ps
