-- ===== src/Cbor/Order/Swap.antt =====
-- The sort of map entries by different keys does not depend on the order they come in.
use murmur_go.Common.{
  ℕ, ◌≡◌, ◌≢◌, refl, sym, ap, ◌∙◌, true, false, not, List, [], ◌∷◌, arith, All, Bool-cases, inl,
  inr,
}
use murmur_go.Cbor.Order.{precedes, Encoded, insert_by, sort_by, sort_pairs}
use murmur_go.Cbor.Order.Laws.{compare_bytes-flip, compare_bytes-eq, compare_bytes_trans, NoRepeat}

precedes_other : (a b : List ℕ) → a ≢ b → precedes a b ≡ not (precedes b a)
precedes_other a b h = ground (arith, compare_bytes-flip a b, compare_bytes-eq a b)

precedes_of_not :
    (y p q : List ℕ) → precedes y p ≡ false → precedes y q ≡ true → precedes p q ≡ true
precedes_of_not y p q h k =
    ground (arith, compare_bytes-flip y p, compare_bytes-eq y p, compare_bytes_trans p y q)

abbrev insert : Encoded → List Encoded → List Encoded
insert = insert_by (λ p. p.key)

not_precedes : (a b : List ℕ) → precedes a b ≡ true → precedes b a ≡ false
not_precedes a b h = ground (arith, compare_bytes-flip a b)

insert_past :
    (p q : Encoded) (xs : List Encoded)
    → precedes q.key p.key ≡ true
    → insert p (q ∷ xs) ≡ q ∷ insert p xs
unfolding insert_by
insert_past p q xs h = rw h refl

insert_before :
    (p q : Encoded) (xs : List Encoded)
    → precedes q.key p.key ≡ false
    → insert p (q ∷ xs) ≡ p ∷ q ∷ xs
unfolding insert_by
insert_before p q xs h = rw h refl

-- The smaller of two new elements stands in front of a list that begins with neither.
insert_front :
    (p q y : Encoded) (ys : List Encoded)
    → precedes p.key q.key ≡ true
    → precedes y.key p.key ≡ false
    → insert p (insert q (y ∷ ys)) ≡ insert q (insert p (y ∷ ys))
insert_front p q y ys less h = elim (Bool-cases (precedes y.key q.key)) [
  | inl before ↦
      ap (insert p) (insert_past q y ys before)
      ∙ insert_before p y (insert q ys) h
      ∙ sym (
          ap (insert q) (insert_before p y ys h)
          ∙ insert_past q p (y ∷ ys) less
          ∙ ap (◌∷◌ p) (insert_past q y ys before))
  | inr behind ↦
      ap (insert p) (insert_before q y ys behind)
      ∙ insert_before p q (y ∷ ys) (not_precedes p.key q.key less)
      ∙ sym (
          ap (insert q) (insert_before p y ys h)
          ∙ insert_past q p (y ∷ ys) less
          ∙ ap (◌∷◌ p) (insert_before q y ys behind))
]

precedes_trans : (a b c : List ℕ) → precedes a b ≡ true → precedes b c ≡ true → precedes a c ≡ true
precedes_trans a b c h k = ground (arith, compare_bytes_trans a b c)

insert_less :
    (p q : Encoded) (xs : List Encoded)
    → precedes p.key q.key ≡ true
    → insert p (insert q xs) ≡ insert q (insert p xs)
unfolding insert_by
insert_less p q [] h = rw (h, not_precedes p.key q.key h) refl
insert_less p q (y ∷ ys) h = elim (Bool-cases (precedes y.key p.key)) [
  | inl before ↦
      let first = precedes_trans y.key p.key q.key before h in
      ap (insert p) (insert_past q y ys first)
      ∙ insert_past p y (insert q ys) before
      ∙ ap (◌∷◌ y) (insert_less p q ys h)
      ∙ sym (ap (insert q) (insert_past p y ys before) ∙ insert_past q y (insert p ys) first)
  | inr behind ↦ insert_front p q y ys h behind
]

insert_swap :
    (p q : Encoded) (xs : List Encoded)
    → p.key ≢ q.key
    → insert p (insert q xs) ≡ insert q (insert p xs)
insert_swap p q xs other = elim (Bool-cases (precedes p.key q.key)) [
  | inl less ↦ insert_less p q xs less
  | inr more ↦
      let less : precedes q.key p.key ≡ true =
        ground (arith, precedes_other p.key q.key other, more) in
      sym (insert_less q p xs less)
]

-- The same elements in another order.
pub data Shuffled : List Encoded → List Encoded → Type 0 where
  nothing : Shuffled [] []
  keep : {p : Encoded} {ps qs : List Encoded} → Shuffled ps qs → Shuffled (p ∷ ps) (p ∷ qs)
  swap : {p q : Encoded} {ps : List Encoded} → Shuffled (p ∷ q ∷ ps) (q ∷ p ∷ ps)
  after : {ps qs rs : List Encoded} → Shuffled ps qs → Shuffled qs rs → Shuffled ps rs

All-Shuffled : (P : Encoded → Type 0) {ps qs : List Encoded} → Shuffled ps qs → All P ps → All P qs
All-Shuffled P nothing h = h
All-Shuffled P (keep s) h = (h.0, All-Shuffled P s h.1)
All-Shuffled P swap (a, (b, h)) = (b, (a, h))
All-Shuffled P (after s t) h = All-Shuffled P t (All-Shuffled P s h)

NoRepeat-Shuffled : {ps qs : List Encoded} → Shuffled ps qs → NoRepeat ps → NoRepeat qs
NoRepeat-Shuffled nothing h = h
NoRepeat-Shuffled (keep {p} s) h =
    (All-Shuffled (λ q. q.key ≢ p.key) s h.0, NoRepeat-Shuffled s h.1)
NoRepeat-Shuffled swap ((ab, a), (b, h)) = ((λ e. ab (sym e), b), (a, h))
NoRepeat-Shuffled (after s t) h = NoRepeat-Shuffled t (NoRepeat-Shuffled s h)

pub sort_pairs-Shuffled :
    {ps qs : List Encoded} → Shuffled ps qs → NoRepeat ps → sort_pairs ps ≡ sort_pairs qs
unfolding sort_pairs sort_by
sort_pairs-Shuffled nothing h = refl
sort_pairs-Shuffled (keep {p} s) h = ap (insert p) (sort_pairs-Shuffled s h.1)
sort_pairs-Shuffled (swap {p} {q} {ps}) ((other, _), _) =
    insert_swap p q (sort_by (λ r. r.key) ps) (λ e. other (sym e))
sort_pairs-Shuffled (after s t) h =
    sort_pairs-Shuffled s h ∙ sort_pairs-Shuffled t (NoRepeat-Shuffled s h)
