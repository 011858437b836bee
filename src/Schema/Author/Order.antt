-- ===== src/Schema/Author/Order.antt =====
-- The fields of an instance in the order of a table's keys.
use murmur_go.Common.{
  ◌∙◌, ◌≡◌, refl, ap, false, inl, inr, Bool-cases, Option, none, some, List, [], ◌∷◌, All,
}
use murmur_go.Common.Int.{==ℤ_comm, ℤ, ◌==ℤ◌, ==ℤ→eq, ==ℤ-refl}
use murmur_go.Cbor.Value.{Value, Entries, int, end, entry}
use murmur_go.Cbor.Keys.{NewKey, new_before, DistinctEntries, one_entry}
use murmur_go.Cbor.Reorder
use murmur_go.Cbor.Reorder.{Reordered, ReorderedEntries, no_entries, exchanged, then_too}
use murmur_go.Schema.Table.{Entry, FieldTable, find_entry, entry_by_key}
use murmur_go.Schema.Instance.{Fields, Any, no_fields, field, get_field}
use murmur_go.Schema.Untyped.{untyped_any, untyped_fields}

abbrev pub entry_of : ℤ → Option Any → Entries → Entries
entry_of k none rest = rest
entry_of k (some a) rest = entry (int k) (untyped_any a) rest

-- The fields of the keys, in the order of the keys.
unfoldable pub by_keys : List ℤ → Fields → Entries
by_keys [] fs = end
by_keys (k ∷ ks) fs = entry_of k (get_field k fs) (by_keys ks fs)

pub data Among (k : ℤ) : List ℤ → Type 0 where
  here : {ks : List ℤ} → Among k (k ∷ ks)
  there : {j : ℤ} {ks : List ℤ} → Among k ks → Among k (j ∷ ks)

-- No key comes twice.
abbrev pub Unlike : ℤ → List ℤ → Type 0
Unlike k ks = All (λ j. (k ==ℤ j) ≡ false) ks

abbrev pub NoTwice : List ℤ → Type 0
NoTwice [] = Unit
NoTwice (k ∷ ks) = Unlike k ks × NoTwice ks

abbrev pub keys_of : List Entry → List ℤ
keys_of [] = []
keys_of (e ∷ es) = e.key ∷ keys_of es

pub data KeysAmong (ks : List ℤ) : Fields → Type 0 where
  no_keys : KeysAmong ks no_fields
  one_key :
      {k : ℤ} {a : Any} {fs : Fields} → Among k ks → KeysAmong ks fs → KeysAmong ks (field k a fs)

find_entry-Among :
    (k : ℤ) (es : List Entry) {e : Entry} → find_entry k es ≡ some e → Among k (keys_of es)
unfolding find_entry
find_entry-Among k [] h = absurd (cc)
find_entry-Among k (e ∷ es) h = elim (Bool-cases (e.key ==ℤ k)) [
  | inl same ↦ rw (==ℤ→eq e.key k same) here
  | inr other ↦ there (find_entry-Among k es (rw other at h))
]

pub entry_by_key-Among :
    (t : FieldTable) (k : ℤ) {e : Entry} → entry_by_key t k ≡ some e → Among k (keys_of t.entries)
unfolding entry_by_key
entry_by_key-Among t k h = find_entry-Among k t.entries h

NewKey-get_field :
    (k : ℤ) (fs : Fields) → NewKey (int k) (untyped_fields fs) → get_field k fs ≡ none
unfolding get_field untyped_fields
NewKey-get_field k no_fields n = refl
NewKey-get_field k (field j a fs) (new_before other n) = elim (Bool-cases (j ==ℤ k)) [
  | inl same ↦ absurd (other (ap int (==ℤ→eq j k same)))
  | inr differ ↦ rw differ (NewKey-get_field k fs n)
]

-- A field of a key that is not asked for changes nothing.
by_keys-field :
    (ks : List ℤ) (k : ℤ) (a : Any) (fs : Fields)
    → Unlike k ks
    → by_keys ks (field k a fs) ≡ by_keys ks fs
unfolding by_keys get_field
by_keys-field [] k a fs h = refl
by_keys-field (j ∷ ks) k a fs (other, h) = rw (other, by_keys-field ks k a fs h)

Unlike-Among : (j k : ℤ) (ks : List ℤ) → Among k ks → Unlike j ks → (j ==ℤ k) ≡ false
Unlike-Among j k [] m h = elim m [ ]
Unlike-Among j k (_ ∷ ks) here h = h.0
Unlike-Among j k (_ ∷ ks) (there m) h = Unlike-Among j k ks m h.1

by_keys-no_fields : (ks : List ℤ) → by_keys ks no_fields ≡ end
unfolding by_keys get_field
by_keys-no_fields [] = refl
by_keys-no_fields (k ∷ ks) = by_keys-no_fields ks

all_same : (es : Entries) → ReorderedEntries es es
all_same end = no_entries
all_same (entry k v es) = Reorder.one_entry Reorder.same (all_same es)

-- A field goes to the place of its key.
field-by_keys :
    (ks : List ℤ) (k : ℤ) (a : Any) (fs : Fields)
    → NoTwice ks
    → Among k ks
    → get_field k fs ≡ none
    → ReorderedEntries (entry (int k) (untyped_any a) (by_keys ks fs)) (by_keys ks (field k a fs))
unfolding by_keys get_field
field-by_keys [] k a fs _ m new = elim m [ ]
field-by_keys (k ∷ ks) _ a fs (unlike, _) here new =
    rw (new, ==ℤ-refl k, by_keys-field ks k a fs unlike) (all_same _)
field-by_keys (j ∷ ks) k a fs (unlike, once) (there m) new =
    rw (==ℤ_comm k j ∙ Unlike-Among j k ks m unlike)
      (past (get_field j fs) (field-by_keys ks k a fs once m new))
  where
    past :
        (o : Option Any)
        → ReorderedEntries
            (entry (int k) (untyped_any a) (by_keys ks fs))
            (by_keys ks (field k a fs))
        → ReorderedEntries
            (entry (int k) (untyped_any a) (entry_of j o (by_keys ks fs)))
            (entry_of j o (by_keys ks (field k a fs)))
    past none r = r
    past (some b) r = then_too exchanged (Reorder.one_entry Reorder.same r)

-- The fields are those of the keys, in another order.
pub untyped_fields-by_keys :
    (ks : List ℤ) (fs : Fields)
    → NoTwice ks
    → KeysAmong ks fs
    → DistinctEntries (untyped_fields fs)
    → ReorderedEntries (untyped_fields fs) (by_keys ks fs)
unfolding untyped_fields
untyped_fields-by_keys ks no_fields once m d = rw (by_keys-no_fields ks) no_entries
untyped_fields-by_keys ks (field k a fs) once (one_key m ms) (one_entry new _ d) =
    then_too (Reorder.one_entry Reorder.same (untyped_fields-by_keys ks fs once ms d))
      (field-by_keys ks k a fs once m (NewKey-get_field k fs new))

-- An entry that is there stands in front.
pub there_first :
    (k : ℤ) (ks : List ℤ) (fs : Fields) {a : Any} {w : Value} {rest : Entries}
    → get_field k fs ≡ some a
    → Reordered (untyped_any a) w
    → ReorderedEntries (by_keys ks fs) rest
    → ReorderedEntries (by_keys (k ∷ ks) fs) (entry (int k) w rest)
unfolding by_keys
there_first k ks fs found r rs = rw found (Reorder.one_entry r rs)

pub not_there :
    (k : ℤ) (ks : List ℤ) (fs : Fields) {rest : Entries}
    → get_field k fs ≡ none
    → ReorderedEntries (by_keys ks fs) rest
    → ReorderedEntries (by_keys (k ∷ ks) fs) rest
unfolding by_keys
not_there k ks fs none_found rs = rw none_found rs

pub none_after : (fs : Fields) → ReorderedEntries (by_keys [] fs) end
unfolding by_keys
none_after fs = no_entries
