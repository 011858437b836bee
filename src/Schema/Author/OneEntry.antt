-- ===== src/Schema/Author/OneEntry.antt =====
-- The artifacts of the entries of a field table, of those whose kinds are all known.
use murmur_go.Common.{
  ℕ, suc, ◌≡◌, refl, sym, ap, ◌∙◌, true, not, Option-cases, inl, inr, some, List, [], ◌∷◌, All, ok,
  Ensures, Ensures-ok, Ensures-if, Ensures-bind, Ensures-weaken, returned, refused, itself,
  not-false→true,
}
use murmur_go.Common.Int.{ℤ, pos}
use murmur_go.Cbor.Value.{int, text}
use murmur_go.Cbor.Keys.{Distinct, DistinctItems, one_item, of_map}
use murmur_go.Cbor.Reorder
use murmur_go.Cbor.Reorder.{
  Reordered, of_entries, of_items, ReorderedItems, no_items, ReorderedEntries, then_too,
  encode-Reordered,
}
use murmur_go.Schema.Errors.{Reason}
use murmur_go.Schema.Table.{Entry, entry_by_key, find_entry}
use murmur_go.Schema.Registry.{Registry}
use murmur_go.Schema.Floor.{entry_table, ref}
use murmur_go.Schema.Table.{artifact_entry}
use murmur_go.Schema.Instance
use murmur_go.Schema.Instance.{
  Instance, Fields, Any, Anys, plain, nested, instance_of, fields_of, get_field, get_int, get_text,
  get_ref, get_array, is_present, has,
}
use murmur_go.Schema.FieldTable.{
  parse_type_descriptor, all_present, entry_keys, type_of, text_or_empty, entry_present,
  parse_entry, parse_entries,
}
use murmur_go.Schema.Typing
use murmur_go.Schema.Typing.{IsInstance, fields_typed, IsArray, items_typed, AllTyped, FieldsTyped}
use murmur_go.Schema.Untyped.{untyped, untyped_items}
use murmur_go.Schema.Author.{author_entry, author_entries}
use murmur_go.Schema.Author.Reading.{HoldsFloor}
use murmur_go.Schema.Author.Order.{there_first, none_after, untyped_fields-by_keys}
use murmur_go.Schema.Accessors.{get_text-field}
use murmur_go.Schema.Author.FieldLaws.{
  present_found, to_int-found, get_ref-found, get_field-Distinct, get_field-HasType,
  FieldsTyped-KeysAmong, IsText, is_text, HasType-IsText, HasType-IsInstance,
}
use murmur_go.Schema.Author.Types.{Known, four_keys, four_once, untyped-author_type}

all_present-has :
    (inst : Instance) (ks : List ℤ) (reason : Reason) (path : ℤ → List ℕ)
    → Ensures (λ _. All (λ k. has inst k ≡ true) ks) (all_present inst ks reason path)
unfolding all_present
all_present-has inst [] reason path = returned tt
all_present-has inst (k ∷ ks) reason path =
    Ensures-if (not (has inst k)) (λ _. refused)
      λ there.
        Ensures-weaken (λ _ rest. (not-false→true (has inst k) there, rest))
          (all_present-has inst ks reason path)

-- What an entry was read from.
record EntryFrom (ei : Instance) (e : Entry) : Type 0 where
  key : get_field (pos 0) (fields_of ei) ≡ some (plain (int e.key))
  named : has ei (pos 1) ≡ true
  name : e.name ≡ text_or_empty (get_text ei (pos 1))
  ti : Instance
  type_field : get_field (pos 2) (fields_of ei) ≡ some (nested ti)
  type : parse_type_descriptor ti ≡ ok e.type
  presence : get_field (pos 3) (fields_of ei) ≡ some (plain (int e.presence))

type_of-found :
    (ei : Instance) (i : ℕ)
    → Ensures
        (λ td.
          (ti : Instance) × (get_field (pos 2) (fields_of ei) ≡ some (nested ti))
          × (parse_type_descriptor ti ≡ ok td))
        (type_of (get_ref ei (pos 2)) i)
type_of-found ei i = elim (Option-cases (get_ref ei (pos 2))) [
  | inl missing ↦ rw missing refused
  | inr (ti, found) ↦ rw found (
      Ensures-weaken (λ td h. (ti, get_ref-found ei (pos 2) found, h))
        (itself (parse_type_descriptor ti)))
]

parse_entry-EntryFrom : (ei : Instance) (i : ℕ) → Ensures (EntryFrom ei) (parse_entry ei i)
unfolding parse_entry entry_present
parse_entry-EntryFrom ei i = Ensures-bind (all_present-has ei entry_keys _ _) λ _ there.
    Ensures-bind (to_int-found ei (pos 0)) λ key at_key.
      Ensures-bind (to_int-found ei (pos 3)) λ pres at_presence.
        Ensures-bind (type_of-found ei i) λ td (ti, found, h). returned (record {
          key = at_key;
          named = there.1.0;
          name = refl;
          ti = ti;
          type_field = found;
          type = h;
          presence = at_presence;
        })

text_found :
    (ei : Instance) {a : Any}
    → get_field (pos 1) (fields_of ei) ≡ some a
    → IsText a
    → get_field (pos 1) (fields_of ei) ≡ some (plain (text (text_or_empty (get_text ei (pos 1)))))
text_found ei found is_text =
    found ∙ ap (λ o. some (plain (text (text_or_empty o)))) (sym (get_text-field ei (pos 1) found))

-- Every type in a table is of known kinds.
abbrev pub KnownEntries : List Entry → Type 0
KnownEntries es = All (λ e. Known e.type) es

module _ (reg : Registry) (holds : HoldsFloor reg) where
  untyped-author_entry :
      (ei : Instance) (i : ℕ) (e : Entry)
      → IsInstance reg (pos 1) entry_table (nested ei)
      → Distinct (untyped ei)
      → Known e.type
      → parse_entry ei i ≡ ok e
      → Reordered (untyped ei) (author_entry e)
  unfolding untyped entry_by_key find_entry
  untyped-author_entry (instance_of t v fs) i e (fields_typed typed) (of_map d) k h =
      let f = Ensures-ok (parse_entry-EntryFrom (instance_of t v fs) i) h in
      let (a, there) = present_found (instance_of t v fs) (pos 1) f.named in
      let named =
        text_found (instance_of t v fs) there (
          HasType-IsText reg (pos 1) (get_field-HasType reg (pos 1) (pos 1) fs typed refl there)) in
      let type =
        untyped-author_type reg holds e.type f.ti
          (HasType-IsInstance reg (pos 1) holds.types
            (get_field-HasType reg (pos 1) (pos 2) fs typed refl f.type_field))
          (get_field-Distinct (pos 2) fs d f.type_field) k f.type in
      of_entries (
        then_too
          (untyped_fields-by_keys four_keys fs four_once (FieldsTyped-KeysAmong reg (pos 1) typed)
            d)
          (there_first (pos 0) _ fs f.key Reorder.same (
            there_first (pos 1) _ fs (named ∙ ap (λ s. some (plain (text s))) (sym f.name))
              Reorder.same
              (there_first (pos 2) _ fs f.type_field type
                (there_first (pos 3) [] fs f.presence Reorder.same (none_after fs))))))

  pub untyped-author_entries :
      (xs : Anys) (i : ℕ)
      → AllTyped reg (pos 1) (ref artifact_entry) xs
      → DistinctItems (untyped_items xs)
      → Ensures
          (λ es. KnownEntries es → ReorderedItems (untyped_items xs) (author_entries es))
          (parse_entries xs i)
  unfolding parse_entries untyped_items
  untyped-author_entries Instance.nil i t d = returned (λ _. no_items)
  untyped-author_entries (Instance.cons (nested ei) xs) i (Typing.one_item typed t)
        (one_item de d) =
      Ensures-bind (itself (parse_entry ei i)) λ e h.
        Ensures-bind (untyped-author_entries xs (suc i) t d) λ es rest. returned (λ k.
          Reorder.one_item
            (untyped-author_entry ei i e (HasType-IsInstance reg (pos 1) holds.entries typed) de k.0
              h)
            (rest k.1))
  untyped-author_entries (Instance.cons (plain v) xs) i t d = refused
  untyped-author_entries (Instance.cons (Instance.array ys) xs) i t d = refused
