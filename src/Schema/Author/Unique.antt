-- ===== src/Schema/Author/Unique.antt =====
-- The artifacts of a field table, of those whose kinds are all known.
use murmur_go.Common.{
  ℕ, ◌≡◌, refl, sym, subst, Bool, Option-cases, inl, inr, some, List, [], ◌∷◌, All, ok, Ensures,
  Ensures-ok, Ensures-bind, Ensures-weaken, returned, itself, anything, length, ◌≤◌,
}
use murmur_go.Common.Int.{ℤ, pos}
use murmur_go.Cbor.Value.{Value, int, array}
use murmur_go.Cbor.Head.Form.{IsByte}
use murmur_go.Cbor.Encode.{encode}
use murmur_go.Cbor.Decode.{decode, max_alloc}
use murmur_go.Cbor.Canonicity.{encode-decode}
use murmur_go.Cbor.Unique.{encode-Distinct}
use murmur_go.Cbor.Keys.{Distinct, of_map, of_array}
use murmur_go.Cbor.Reorder
use murmur_go.Cbor.Reorder.{
  Reordered, of_entries, of_items, ReorderedItems, no_items, ReorderedEntries, then_too,
  encode-Reordered,
}
use murmur_go.Schema.Table.{Element, Entry, FieldTable, entry_by_key, find_entry}
use murmur_go.Schema.Registry.{Registry}
use murmur_go.Schema.Floor.{meta_table, ref}
use murmur_go.Schema.Table.{artifact_entry}
use murmur_go.Schema.Instance
use murmur_go.Schema.Instance.{
  Instance, Fields, Any, Anys, plain, nested, instance_of, fields_of, get_field, get_int, get_text,
  get_ref, get_array, is_present, has,
}
use murmur_go.Schema.Interpret.{interpret}
use murmur_go.Schema.FieldTable.{
  parse_entries, validate_entry_keys, array_or_empty, table_present, project, parse_field_table,
}
use murmur_go.Schema.Typing.{IsArray, items_typed}
use murmur_go.Schema.Sound.{Interpreted, interpreted, interpret-Interpreted}
use murmur_go.Schema.Untyped.{untyped, untyped_items}
use murmur_go.Schema.Faithful.{untyped-interpret}
use murmur_go.Schema.Author.{author_entries, author}
use murmur_go.Schema.Author.Reading.{HoldsFloor}
use murmur_go.Schema.Author.Order.{there_first, none_after, NoTwice, untyped_fields-by_keys}
use murmur_go.Schema.Author.FieldLaws.{
  to_int-found, get_array-found, get_field-Distinct, get_field-HasType, FieldsTyped-KeysAmong,
  HasType-IsArray,
}
use murmur_go.Schema.Author.OneEntry.{KnownEntries, untyped-author_entries}

module _ (reg : Registry) (holds : HoldsFloor reg) where
  -- What a table was read from.
  record TableFrom (fs : Fields) (t : FieldTable) : Type 0 where
    describes : get_field (pos 0) fs ≡ some (plain (int t.describes))
    version : get_field (pos 1) fs ≡ some (plain (int t.version))
    raws : Anys
    array_field : get_field (pos 2) fs ≡ some (Instance.array raws)
    entries : parse_entries raws 0 ≡ ok t.entries

  raws_found :
      (inst : Instance) (es : List Entry)
      → parse_entries (array_or_empty (get_array inst (pos 2))) 0 ≡ ok es
      → validate_entry_keys es ≡ ok tt
      → (raws : Anys) × (get_field (pos 2) (fields_of inst) ≡ some (Instance.array raws))
        × (parse_entries raws 0 ≡ ok es)
  unfolding parse_entries validate_entry_keys
  raws_found inst es h valid = elim (Option-cases (get_array inst (pos 2))) [
    | inl missing ↦
        let read : ok [] ≡ ok es = rw missing at h in
        let empty : [] ≡ es = cc in
        let never : validate_entry_keys [] ≡ ok tt =
          subst (λ x. validate_entry_keys x ≡ ok tt) (sym empty) valid in
        absurd (cc)
    | inr (raws, found) ↦ (raws, get_array-found inst (pos 2) found, rw found at h)
  ]

  project-TableFrom : (inst : Instance) → Ensures (TableFrom (fields_of inst)) (project inst)
  unfolding project
  project-TableFrom inst = Ensures-bind (anything (table_present inst)) λ _ _.
      Ensures-bind (to_int-found inst (pos 0)) λ d at_describes.
        Ensures-bind (to_int-found inst (pos 1)) λ v at_version.
          Ensures-bind (itself (parse_entries (array_or_empty (get_array inst (pos 2))) 0)) λ es h.
            Ensures-bind (itself (validate_entry_keys es)) λ _ valid.
              let (raws, found, read) = raws_found inst es h valid in
              returned (record {
                describes = at_describes;
                version = at_version;
                raws = raws;
                array_field = found;
                entries = read;
              })

  abbrev three_keys : List ℤ
  three_keys = pos 0 ∷ pos 1 ∷ pos 2 ∷ []

  three_once : NoTwice three_keys
  three_once = ((refl, (refl, tt)), ((refl, tt), (tt, tt)))

  untyped-author :
      (inst : Instance) (t : FieldTable)
      → Interpreted reg meta_table inst
      → Distinct (untyped inst)
      → KnownEntries t.entries
      → project inst ≡ ok t
      → Reordered (untyped inst) (author t)
  unfolding untyped entry_by_key find_entry
  untyped-author (instance_of _ _ fs) t (interpreted typed) (of_map d) k h =
      let f = Ensures-ok (project-TableFrom (instance_of meta_table (pos 1) fs)) h in
      of_entries (
        then_too
          (untyped_fields-by_keys three_keys fs three_once (FieldsTyped-KeysAmong reg (pos 1) typed)
            d)
          (there_first (pos 0) _ fs f.describes Reorder.same (
            there_first (pos 1) _ fs f.version Reorder.same (
              there_first (pos 2) [] fs f.array_field
                (items_of f.raws t.entries
                  (HasType-IsArray reg (pos 1)
                    (get_field-HasType reg (pos 1) (pos 2) fs typed refl f.array_field))
                  (get_field-Distinct (pos 2) fs d f.array_field) k f.entries)
                (none_after fs)))))
    where
      items_of :
          (xs : Anys) (es : List Entry)
          → IsArray reg (pos 1) (Element.element (ref artifact_entry)) (Instance.array xs)
          → Distinct (array (untyped_items xs))
          → KnownEntries es
          → parse_entries xs 0 ≡ ok es
          → Reordered (array (untyped_items xs)) (array (author_entries es))
      items_of xs es (items_typed typed) (of_array d) k h =
          of_items (Ensures-ok (untyped-author_entries reg holds xs 0 typed d) h k)

parse_field_table-Reordered :
    (reg : Registry)
    → HoldsFloor reg
    → (v : Value) → Distinct v
    → Ensures (λ t. KnownEntries t.entries → Reordered v (author t)) (parse_field_table v reg)
unfolding parse_field_table
parse_field_table-Reordered reg holds v d =
    Ensures-bind (itself (interpret meta_table v reg)) λ inst hi.
      Ensures-weaken
        (λ t h k.
          let same = untyped-interpret meta_table v reg inst d hi in
          subst (λ x. Reordered x (author t)) same
            (untyped-author reg holds inst t (interpret-Interpreted meta_table v reg inst hi)
              (subst Distinct (sym same) d) k h))
        (itself (project inst))

-- The bytes, no longer than a slice can be, that Decode reads and of which ParseFieldTable makes a table
-- whose kinds are all known are the ones that Encode writes for the artifact that states the table, under
-- a registry that holds the tables of entries and of types: such a table has one artifact.
pub encode-author :
    (is_nfc : List ℕ → Bool) (input : List ℕ) (v : Value) (reg : Registry) (t : FieldTable)
    → All IsByte input
    → length input ≤ max_alloc
    → decode is_nfc input ≡ ok v
    → HoldsFloor reg
    → parse_field_table v reg ≡ ok t
    → KnownEntries t.entries
    → encode is_nfc (author t) ≡ ok input
encode-author is_nfc input v reg t hb hs hd holds hp k =
    let back = encode-decode is_nfc input v hb hs hd in
    let d = encode-Distinct is_nfc v input back in
    encode-Reordered is_nfc v (author t) input
      (Ensures-ok (parse_field_table-Reordered reg holds v d) hp k) back
