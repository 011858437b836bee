-- ===== src/Cbor/RoundTrip/Sorting.antt =====
-- The stable sort of cbor/encode.go: it commutes with a function, keeps what holds of every element,
-- and puts keys in ascending order.
use Prim.Native.Nat.{Ordering}
use murmur_go.Common.{
  ℕ, suc, ◌+◌, ◌≡◌, ◌≢◌, refl, ap, ◌∙◌, Bool, true, false, Option, none, some, List, [], ◌∷◌, arith,
  length, All, ◌||◌, Bool-cases, inl, inr,
}
use murmur_go.Cbor.Order.{
  compare_bytes, precedes, same_bytes, Encoded, insert_by, sort_by, sort_pairs, has_duplicate,
}
use murmur_go.Cbor.Order.Laws.{compare_bytes-flip, AscendsFrom}
use mathlib.Core.List

module _ {A B : Type 0} (key_of : B → List ℕ) (f : A → B) where
  insert_by-map :
      (x : A) (xs : List A)
      → insert_by key_of (f x) (List.map f xs) ≡ List.map f (insert_by (λ y. key_of (f y)) x xs)
  unfolding insert_by
  insert_by-map x [] = refl
  insert_by-map x (y ∷ ys) = elim (Bool-cases (precedes (key_of (f y)) (key_of (f x)))) [
    | inl before ↦ rw before (ap (◌∷◌ (f y)) (insert_by-map x ys))
    | inr behind ↦ rw behind
  ]

  pub sort_by-map :
      (xs : List A) → sort_by key_of (List.map f xs) ≡ List.map f (sort_by (λ y. key_of (f y)) xs)
  unfolding sort_by
  sort_by-map [] = refl
  sort_by-map (x ∷ xs) = rw (sort_by-map xs) (insert_by-map x (sort_by (λ y. key_of (f y)) xs))

-- The sum of a measure over a list.
abbrev pub total : {A : Type 0} → (A → ℕ) → List A → ℕ
total g [] = 0
total g (x ∷ xs) = g x + total g xs

module _ {A : Type 0} (key_of : A → List ℕ) where
  pub insert_by-All :
      (P : A → Type 0) (x : A) (xs : List A) → P x → All P xs → All P (insert_by key_of x xs)
  unfolding insert_by
  insert_by-All P x [] p h = (p, tt)
  insert_by-All P x (y ∷ ys) p h = elim (Bool-cases (precedes (key_of y) (key_of x))) [
    | inl before ↦ rw before (h.0, insert_by-All P x ys p h.1)
    | inr behind ↦ rw behind (p, h)
  ]

  pub sort_by-All : (P : A → Type 0) (xs : List A) → All P xs → All P (sort_by key_of xs)
  unfolding sort_by
  sort_by-All P [] h = tt
  sort_by-All P (x ∷ xs) h = insert_by-All P x (sort_by key_of xs) h.0 (sort_by-All P xs h.1)

  insert_by-total :
      (g : A → ℕ) (x : A) (xs : List A) → total g (insert_by key_of x xs) ≡ g x + total g xs
  unfolding insert_by
  insert_by-total g x [] = refl
  insert_by-total g x (y ∷ ys) = ground (arith, insert_by-total g x ys)

  pub sort_by-total : (g : A → ℕ) (xs : List A) → total g (sort_by key_of xs) ≡ total g xs
  unfolding sort_by
  sort_by-total g [] = refl
  sort_by-total g (x ∷ xs) =
      omega (arith, insert_by-total g x (sort_by key_of xs), sort_by-total g xs)

insert_by-length :
    {A : Type 0} (key_of : A → List ℕ) (x : A) (xs : List A)
    → length (insert_by key_of x xs) ≡ suc (length xs)
unfolding insert_by
insert_by-length key_of x [] = refl
insert_by-length key_of x (y ∷ ys) = ground (arith, insert_by-length key_of x ys)

pub sort_by-length :
    {A : Type 0} (key_of : A → List ℕ) (xs : List A) → length (sort_by key_of xs) ≡ length xs
unfolding sort_by
sort_by-length key_of [] = refl
sort_by-length key_of (x ∷ xs) =
    insert_by-length key_of x (sort_by key_of xs) ∙ ap suc (sort_by-length key_of xs)

-- `key` does not come before `prev`.
abbrev NotBefore : Option (List ℕ) → List ℕ → Type 0
NotBefore none key = Unit
NotBefore (some prev) key = compare_bytes prev key ≢ Ordering.gt

abbrev SortedFrom : Option (List ℕ) → List Encoded → Type 0
SortedFrom prev [] = Unit
SortedFrom prev (p ∷ ps) = NotBefore prev p.key × SortedFrom (some p.key) ps

precedes-NotBefore : (a b : List ℕ) → precedes a b ≡ true → compare_bytes a b ≢ Ordering.gt
precedes-NotBefore a b h = ground arith

not_precedes-NotBefore : (a b : List ℕ) → precedes b a ≡ false → compare_bytes a b ≢ Ordering.gt
not_precedes-NotBefore a b h = ground (arith, compare_bytes-flip a b)

abbrev key_of_pair : Encoded → List ℕ
key_of_pair p = p.key

insert_by-SortedFrom :
    (prev : Option (List ℕ)) (p : Encoded) (ps : List Encoded)
    → NotBefore prev p.key
    → SortedFrom prev ps
    → SortedFrom prev (insert_by key_of_pair p ps)
unfolding insert_by
insert_by-SortedFrom prev p [] hp h = (hp, tt)
insert_by-SortedFrom prev p (q ∷ qs) hp h = elim (Bool-cases (precedes q.key p.key)) [
  | inl before ↦
      rw before
        (h.0, insert_by-SortedFrom (some q.key) p qs (precedes-NotBefore q.key p.key before) h.1)
  | inr behind ↦ rw behind (hp, (not_precedes-NotBefore p.key q.key behind, h.1))
]

sort_pairs-SortedFrom : (ps : List Encoded) → SortedFrom none (sort_pairs ps)
unfolding sort_pairs sort_by
sort_pairs-SortedFrom [] = tt
sort_pairs-SortedFrom (p ∷ ps) =
    insert_by-SortedFrom none p (sort_by key_of_pair ps) tt (sort_pairs-SortedFrom ps)

or_false-right : (a b : Bool) → (a || b) ≡ false → b ≡ false
or_false-right a b h = ground arith

strictly :
    (a b : List ℕ) (c : Bool)
    → compare_bytes a b ≢ Ordering.gt
    → (same_bytes a b || c) ≡ false
    → compare_bytes a b ≡ Ordering.lt
strictly a b c h e = ground arith

SortedFrom-AscendsFrom :
    (p : Encoded) (ps : List Encoded)
    → SortedFrom (some p.key) ps
    → has_duplicate (p ∷ ps) ≡ false
    → AscendsFrom (some p.key) ps
unfolding has_duplicate
SortedFrom-AscendsFrom p [] h e = tt
SortedFrom-AscendsFrom p (q ∷ qs) h e = (
  strictly p.key q.key (has_duplicate (q ∷ qs)) h.0 e,
  SortedFrom-AscendsFrom q qs h.1
      (or_false-right (same_bytes p.key q.key) (has_duplicate (q ∷ qs)) e),
)

-- Sorted and with no duplicate found, the keys ascend strictly.
pub sort_pairs-ascends :
    (ps : List Encoded) → has_duplicate (sort_pairs ps) ≡ false → AscendsFrom none (sort_pairs ps)
sort_pairs-ascends ps e = start (sort_pairs ps) (sort_pairs-SortedFrom ps) e
  where
    start :
        (qs : List Encoded) → SortedFrom none qs → has_duplicate qs ≡ false → AscendsFrom none qs
    start [] h d = tt
    start (q ∷ qs) h d = (tt, SortedFrom-AscendsFrom q qs h.1 d)
