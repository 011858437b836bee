-- ===== src/Schema/Same/Reordering.antt =====
-- The values behind instances that are the same as Go values.
use murmur_go.Common.{
  ◌≡◌, refl, sym, ap, inl, inr, Bool-cases, Option, Option-cases, none, some, List, [], ◌∷◌,
}
use murmur_go.Common.Int.{ℤ, ◌==ℤ◌, ==ℤ→eq, ==ℤ-refl}
use murmur_go.Cbor.Value.{Value, Values, Entries, int}
use murmur_go.Cbor.Keys
use murmur_go.Cbor.Keys.{
  Distinct, of_array, of_map, DistinctItems, NewKey, new_at_end, new_before, DistinctEntries,
}
use murmur_go.Cbor.Reorder
use murmur_go.Cbor.Reorder.{
  Reordered, of_items, of_entries, ReorderedItems, ReorderedEntries, no_entries, exchanged,
  then_too,
}
use murmur_go.Schema.Instance.{Instance, Fields, Any, Anys, no_fields, field, get_field}
use murmur_go.Schema.Untyped.{untyped, untyped_any, untyped_items, untyped_fields}
use murmur_go.Schema.Author.Order.{
  entry_of, by_keys, Among, here, there, Unlike, NoTwice, KeysAmong, no_keys, one_key,
  untyped_fields-by_keys,
}
use murmur_go.Schema.Author.FieldLaws.{get_field-Distinct}
use murmur_go.Schema.Same
use murmur_go.Schema.Same.{
  SameInstance, same_fields, SameFound, both_absent, both_there, SameAny, same_plain, same_nested,
  same_array, SameItems,
}

mutual
  Reordered-turned : {v w : Value} → Reordered v w → Reordered w v
  Reordered-turned Reorder.same = Reorder.same
  Reordered-turned (of_items rs) = of_items (ReorderedItems-turned rs)
  Reordered-turned (of_entries rs) = of_entries (ReorderedEntries-turned rs)

  ReorderedItems-turned : {vs ws : Values} → ReorderedItems vs ws → ReorderedItems ws vs
  ReorderedItems-turned Reorder.no_items = Reorder.no_items
  ReorderedItems-turned (Reorder.one_item r rs) =
      Reorder.one_item (Reordered-turned r) (ReorderedItems-turned rs)

  ReorderedEntries-turned : {es fs : Entries} → ReorderedEntries es fs → ReorderedEntries fs es
  ReorderedEntries-turned no_entries = no_entries
  ReorderedEntries-turned (Reorder.one_entry r rs) =
      Reorder.one_entry (Reordered-turned r) (ReorderedEntries-turned rs)
  ReorderedEntries-turned exchanged = exchanged
  ReorderedEntries-turned (then_too rs ss) =
      then_too (ReorderedEntries-turned ss) (ReorderedEntries-turned rs)

abbrev field_keys : Fields → List ℤ
field_keys no_fields = []
field_keys (field k a fs) = k ∷ field_keys fs

NewKey-Unlike :
    (k : ℤ) (fs : Fields) → NewKey (int k) (untyped_fields fs) → Unlike k (field_keys fs)
unfolding untyped_fields
NewKey-Unlike k no_fields n = tt
NewKey-Unlike k (field j a fs) (new_before other n) = (
  elim (Bool-cases (k ==ℤ j)) [
    | inl same ↦ absurd (other (ap int (sym (==ℤ→eq k j same))))
    | inr differ ↦ differ
  ],
  NewKey-Unlike k fs n,
)

field_keys-NoTwice : (fs : Fields) → DistinctEntries (untyped_fields fs) → NoTwice (field_keys fs)
unfolding untyped_fields
field_keys-NoTwice no_fields d = tt
field_keys-NoTwice (field k a fs) (Keys.one_entry new _ d) =
    (NewKey-Unlike k fs new, field_keys-NoTwice fs d)

get_field-Among :
    (k : ℤ) (fs : Fields) {a : Any} → get_field k fs ≡ some a → Among k (field_keys fs)
unfolding get_field
get_field-Among k no_fields h = absurd (cc)
get_field-Among k (field j b fs) h = elim (Bool-cases (j ==ℤ k)) [
  | inl same ↦ rw (==ℤ→eq j k same) here
  | inr differ ↦ there (get_field-Among k fs (rw differ at h))
]

-- Fields are among keys that every key with a value is among.
all-KeysAmong :
    (ks : List ℤ) (gs : Fields)
    → ((k : ℤ) → (a : Any) → get_field k gs ≡ some a → Among k ks)
    → DistinctEntries (untyped_fields gs)
    → KeysAmong ks gs
unfolding get_field untyped_fields
all-KeysAmong ks no_fields h d = no_keys
all-KeysAmong ks (field j a gs) h (Keys.one_entry new _ d) =
    one_key (h j a (rw (==ℤ-refl j) refl)) (all-KeysAmong ks gs later d)
  where
    later : (k : ℤ) (b : Any) → get_field k gs ≡ some b → Among k ks
    later k b found = elim (Bool-cases (j ==ℤ k)) [
      | inl same ↦ h k a (rw same refl)
      | inr differ ↦ h k b (rw differ found)
    ]

-- Under one key, no value in either, or two values that are the same up to the order.
data Matched : Option Any → Option Any → Type 0 where
  neither : Matched none none
  either : {a b : Any} → Reordered (untyped_any a) (untyped_any b) → Matched (some a) (some b)

abbrev DistinctFound : Option Any → Type 0
DistinctFound none = Unit {0}
DistinctFound (some a) = Distinct (untyped_any a)

get_field-DistinctFound :
    (k : ℤ) (fs : Fields) → DistinctEntries (untyped_fields fs) → DistinctFound (get_field k fs)
get_field-DistinctFound k fs d = elim (Option-cases (get_field k fs)) [
  | inl missing ↦ rw missing tt
  | inr (a, found) ↦ rw found (get_field-Distinct k fs d found)
]

Matched-there : {o p : Option Any} {b : Any} → Matched o p → p ≡ some b → (a : Any) × (o ≡ some a)
Matched-there neither h = absurd (cc)
Matched-there (either {a} r) h = (a, refl)

by_keys-Matched :
    (ks : List ℤ) (fs gs : Fields)
    → ((k : ℤ) → Matched (get_field k fs) (get_field k gs))
    → ReorderedEntries (by_keys ks fs) (by_keys ks gs)
unfolding by_keys
by_keys-Matched [] fs gs h = no_entries
by_keys-Matched (k ∷ ks) fs gs h =
    first (get_field k fs) (get_field k gs) (h k) (by_keys-Matched ks fs gs h)
  where
    first :
        (o p : Option Any) {es es' : Entries}
        → Matched o p
        → ReorderedEntries es es'
        → ReorderedEntries (entry_of k o es) (entry_of k p es')
    first o p neither rs = rs
    first o p (either r) rs = Reorder.one_entry r rs

untyped_fields-Matched :
    (fs gs : Fields)
    → DistinctEntries (untyped_fields fs)
    → DistinctEntries (untyped_fields gs)
    → ((k : ℤ) → Matched (get_field k fs) (get_field k gs))
    → ReorderedEntries (untyped_fields fs) (untyped_fields gs)
untyped_fields-Matched fs gs df dg h =
    let ks = field_keys fs in
    let once = field_keys-NoTwice fs df in
    let mine = all-KeysAmong ks fs (λ k a found. get_field-Among k fs found) df in
    let theirs =
      all-KeysAmong ks gs (λ k b found. get_field-Among k fs (Matched-there (h k) found).1) dg in
    then_too (untyped_fields-by_keys ks fs once mine df) (
      then_too (by_keys-Matched ks fs gs h)
        (ReorderedEntries-turned (untyped_fields-by_keys ks gs once theirs dg)))

mutual
  unfolding untyped

  pub SameInstance-Reordered :
      {i j : Instance}
      → SameInstance i j
      → Distinct (untyped i)
      → Distinct (untyped j)
      → Reordered (untyped i) (untyped j)
  SameInstance-Reordered (same_fields {fs} {gs} h) (of_map df) (of_map dg) = of_entries (
      untyped_fields-Matched fs gs df dg (λ k.
        SameFound-Matched (h k) (get_field-DistinctFound k fs df)
          (get_field-DistinctFound k gs dg)))

  SameFound-Matched :
      {o p : Option Any} → SameFound o p → DistinctFound o → DistinctFound p → Matched o p
  SameFound-Matched both_absent df dg = neither
  SameFound-Matched (both_there s) df dg = either (SameAny-Reordered s df dg)

  SameAny-Reordered :
      {a b : Any}
      → SameAny a b
      → Distinct (untyped_any a)
      → Distinct (untyped_any b)
      → Reordered (untyped_any a) (untyped_any b)
  SameAny-Reordered same_plain da db = Reorder.same
  SameAny-Reordered (same_nested s) da db = SameInstance-Reordered s da db
  SameAny-Reordered (same_array s) (of_array da) (of_array db) =
      of_items (SameItems-Reordered s da db)

  SameItems-Reordered :
      {xs ys : Anys}
      → SameItems xs ys
      → DistinctItems (untyped_items xs)
      → DistinctItems (untyped_items ys)
      → ReorderedItems (untyped_items xs) (untyped_items ys)
  SameItems-Reordered Same.no_items dx dy = Reorder.no_items
  SameItems-Reordered (Same.one_item s ss) (Keys.one_item da dx) (Keys.one_item db dy) =
      Reorder.one_item (SameAny-Reordered s da db) (SameItems-Reordered ss dx dy)
