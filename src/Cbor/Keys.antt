-- ===== src/Cbor/Keys.antt =====
-- The keys of the maps that cbor/encode.go accepts.
use murmur_go.Common.{
  ℕ, ◌≡◌, ◌≢◌, sym, Bool, Option, none, some, List, [], ◌∷◌, arith, All, Bool-cases, inl, inr, ok,
  Ensures, returned, refused, Ensures-if, subst,
}
use murmur_go.Common.Int.{ℤ}
use murmur_go.Cbor.Value.{
  Value, Values, Entries, int, bytes, text, bool, array, map, decimal, rational, nil, cons, end,
  entry,
}
use murmur_go.Cbor.Order.{
  compare_bytes, precedes, Encoded, insert_by, sort_by, sort_pairs, has_duplicate,
}
use murmur_go.Cbor.Order.Laws.{
  compare_bytes-flip, compare_bytes_trans, AscendsFrom, NoKey, NoRepeat,
}
use murmur_go.Cbor.Encode.{Buffer, write_map, value}
use murmur_go.Cbor.RoundTrip.Sorting.{sort_pairs-ascends}
use Prim.Native.Nat.{Ordering}

pub data NewKey (k : Value) : Entries → Type 0 where
  new_at_end : NewKey k end
  new_before : {j v : Value} {es : Entries} → j ≢ k → NewKey k es → NewKey k (entry j v es)

-- No map has a key twice, at any depth.
mutual
  pub data Distinct : Value → Type 0 where
    of_int : {n : ℤ} → Distinct (int n)
    of_bytes : {b : List ℕ} → Distinct (bytes b)
    of_text : {s : List ℕ} → Distinct (text s)
    of_bool : {b : Bool} → Distinct (bool b)
    of_decimal : {s m : ℤ} → Distinct (decimal s m)
    of_rational : {n d : ℤ} → Distinct (rational n d)
    of_array : {vs : Values} → DistinctItems vs → Distinct (array vs)
    of_map : {es : Entries} → DistinctEntries es → Distinct (map es)

  pub data DistinctItems : Values → Type 0 where
    no_items : DistinctItems nil
    one_item : {v : Value} {vs : Values} → Distinct v → DistinctItems vs → DistinctItems (cons v vs)

  pub data DistinctEntries : Entries → Type 0 where
    no_entries : DistinctEntries end
    one_entry :
        {k v : Value} {es : Entries}
        → NewKey k es
        → Distinct v
        → DistinctEntries es
        → DistinctEntries (entry k v es)

not_equal_of_lt : (a b : List ℕ) → compare_bytes a b ≡ Ordering.lt → b ≢ a
not_equal_of_lt a b h p =
    let same : compare_bytes a a ≡ Ordering.lt = subst (λ x. compare_bytes a x ≡ Ordering.lt) p h in
    let flipped = compare_bytes-flip a a in ground (arith, same, flipped)

AscendsFrom-NoKey :
    (a b : List ℕ) (ps : List Encoded)
    → compare_bytes a b ≡ Ordering.lt
    → AscendsFrom (some b) ps
    → NoKey a ps
AscendsFrom-NoKey a b [] h s = tt
AscendsFrom-NoKey a b (p ∷ ps) h s =
    let after = compare_bytes_trans a b p.key h s.0 in
    (not_equal_of_lt a p.key after, AscendsFrom-NoKey a p.key ps after s.1)

AscendsFrom-NoRepeat :
    (prev : Option (List ℕ)) (ps : List Encoded) → AscendsFrom prev ps → NoRepeat ps
AscendsFrom-NoRepeat prev [] h = tt
AscendsFrom-NoRepeat prev (p ∷ []) h = (tt, tt)
AscendsFrom-NoRepeat prev (p ∷ q ∷ qs) h = (
  (not_equal_of_lt p.key q.key h.1.0, AscendsFrom-NoKey p.key q.key qs h.1.0 h.1.1),
  AscendsFrom-NoRepeat (some p.key) (q ∷ qs) h.1,
)

-- What holds of all of a sorted list held before.
insert_by-All_back :
    (P : Encoded → Type 0) (p : Encoded) (ps : List Encoded)
    → All P (insert_by (λ q. q.key) p ps)
    → P p × All P ps
unfolding insert_by
insert_by-All_back P p [] h = h
insert_by-All_back P p (q ∷ qs) h = elim (Bool-cases (precedes q.key p.key)) [
  | inl before ↦
      let here : P q × All P (insert_by (λ r. r.key) p qs) = rw before at h in
      let rest = insert_by-All_back P p qs here.1 in (rest.0, (here.0, rest.1))
  | inr behind ↦ rw behind at h
]

sort_pairs-All_back : (P : Encoded → Type 0) (ps : List Encoded) → All P (sort_pairs ps) → All P ps
unfolding sort_pairs sort_by
sort_pairs-All_back P [] h = tt
sort_pairs-All_back P (p ∷ ps) h =
    let (here, rest) = insert_by-All_back P p (sort_by (λ q. q.key) ps) h in
    (here, sort_pairs-All_back P ps rest)

insert_by-NoRepeat_back :
    (p : Encoded) (ps : List Encoded)
    → NoRepeat (insert_by (λ q. q.key) p ps)
    → NoKey p.key ps × NoRepeat ps
unfolding insert_by
insert_by-NoRepeat_back p [] h = (tt, tt)
insert_by-NoRepeat_back p (q ∷ qs) h = elim (Bool-cases (precedes q.key p.key)) [
  | inl before ↦
      let here : NoRepeat (q ∷ insert_by (λ r. r.key) p qs) = rw before at h in
      let others = insert_by-All_back (λ r. r.key ≢ q.key) p qs here.0 in
      let rest = insert_by-NoRepeat_back p qs here.1 in
      ((λ e. others.0 (sym e), rest.0), (others.1, rest.1))
  | inr behind ↦ rw behind at h
]

sort_pairs-NoRepeat_back : (ps : List Encoded) → NoRepeat (sort_pairs ps) → NoRepeat ps
unfolding sort_pairs sort_by
sort_pairs-NoRepeat_back [] h = tt
sort_pairs-NoRepeat_back (p ∷ ps) h =
    let (new, rest) = insert_by-NoRepeat_back p (sort_by (λ q. q.key) ps) h in
    (sort_pairs-All_back (λ q. q.key ≢ p.key) ps new, sort_pairs-NoRepeat_back ps rest)

-- A map that is written has no key bytes twice.
pub write_map-NoRepeat :
    (ps : List Encoded) (buf : Buffer) → Ensures (λ _. NoRepeat ps) (write_map ps buf)
unfolding write_map
write_map-NoRepeat ps buf =
    Ensures-if (has_duplicate (sort_pairs ps)) (λ _. refused)
      λ new. returned (
        sort_pairs-NoRepeat_back ps
          (AscendsFrom-NoRepeat none (sort_pairs ps) (sort_pairs-ascends ps new)))

module _ (is_nfc : List ℕ → Bool) where
  pub data EncodedAs (depth : ℕ) : Entries → List Encoded → Type 0 where
    encoded_end : EncodedAs depth end []
    encoded_entry :
        {k v : Value} {es : Entries} {p : Encoded} {ps : List Encoded}
        → value is_nfc k depth [] ≡ ok p.key
        → Distinct v
        → EncodedAs depth es ps
        → EncodedAs depth (entry k v es) (p ∷ ps)

  NoKey-NewKey :
      {k : Value} {key : List ℕ} (depth : ℕ) {es : Entries} {ps : List Encoded}
      → value is_nfc k depth [] ≡ ok key
      → EncodedAs depth es ps
      → NoKey key ps
      → NewKey k es
  NoKey-NewKey depth h encoded_end n = new_at_end
  NoKey-NewKey depth h (encoded_entry hk hv rest) n =
      new_before (λ p. n.0 (cc)) (NoKey-NewKey depth h rest n.1)

  pub EncodedAs-DistinctEntries :
      (depth : ℕ) {es : Entries} {ps : List Encoded}
      → EncodedAs depth es ps
      → NoRepeat ps
      → DistinctEntries es
  EncodedAs-DistinctEntries depth encoded_end n = no_entries
  EncodedAs-DistinctEntries depth (encoded_entry hk hv rest) n =
      one_entry (NoKey-NewKey depth hk rest n.0) hv (EncodedAs-DistinctEntries depth rest n.1)
