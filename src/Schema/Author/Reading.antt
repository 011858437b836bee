-- ===== src/Schema/Author/Reading.antt =====
-- Interpret reads the artifact of a field table as the instance it is.
use murmur_go.Common.{ℕ, suc, ◌≡◌, refl, ap, ◌∙◌, Bool, true, false, List, [], ◌∷◌, some, ok, ◌>>=◌}
use murmur_go.Common.Int.{ℤ, pos, is_int64}
use murmur_go.Cbor.Value.{Entries, map}
use murmur_go.Schema.Table.{
  ArtifactType, artifact_entry, artifact_type_descriptor, TypeDescriptor, Element, descriptor,
  element, no_element, Entry, FieldTable, find_entry, entry_by_key,
}
use murmur_go.Schema.Registry.{Registry, lookup}
use murmur_go.Schema.Floor.{meta_table, entry_table, type_descriptor_table, ref}
use murmur_go.Schema.Instance.{no_fields, nested, instance_of, set_field}
use murmur_go.Schema.Interpret.{
  interpret_value, interpret_entries, interpret_items, interpret_map, interpret, by_kind,
  bind_entry, as_int, as_text, with_element,
}
use murmur_go.Schema.Author.{
  type_entries, type_fields, author_type, of_entry, type_instance, of_field, says_ref, says_unit,
  author_entry, entry_instance, author_entries, entry_instances, author, table_instance,
}

-- A registry that holds the tables of entries and of types at version 1.
pub record HoldsFloor (reg : Registry) : Type 0 where
  pub entries : lookup reg artifact_entry (pos 1) ≡ some entry_table
  pub types : lookup reg artifact_type_descriptor (pos 1) ≡ some type_descriptor_table

module _ (reg : Registry) where
  read_ref :
      (es : Entries) (code : ArtifactType) (t : FieldTable) (path : List ℕ)
      → lookup reg code (pos 1) ≡ some t
      → interpret_value reg (pos 1) (map es) (ref code) path ≡ (
          interpret_entries reg (pos 1) es t path no_fields
          >>= (λ fs. ok (nested (instance_of t (pos 1) fs))))
  unfolding interpret_value by_kind
  read_ref es code t path held = rw held

  module _ (holds : HoldsFloor reg) where
    mutual
      unfolding interpret_entries bind_entry is_int64 entry_by_key find_entry interpret_value
          by_kind as_int set_field of_entry of_field author_type type_instance

      read_type :
          (td : TypeDescriptor) (path : List ℕ)
          → interpret_value reg (pos 1) (author_type td) (ref artifact_type_descriptor) path
            ≡ ok (nested (type_instance td))
      read_type (descriptor k o r u) path =
          read_ref (type_entries k o r u (says_ref k) (says_unit k)) artifact_type_descriptor
            type_descriptor_table path holds.types
          ∙ ap (λ x. x >>= (λ fs. ok (nested (instance_of type_descriptor_table (pos 1) fs))))
              (read_codes k o r u (says_ref k) (says_unit k) path)

      read_codes :
          (k : ℤ) (o : Element) (r u : ℤ) (b c : Bool) (path : List ℕ)
          → interpret_entries reg
              (pos 1)
              (type_entries k o r u b c)
              type_descriptor_table
              path
              no_fields
            ≡ ok (type_fields k o r u b c)
      read_codes k no_element r u false false path = refl
      read_codes k no_element r u false true path = refl
      read_codes k no_element r u true false path = refl
      read_codes k no_element r u true true path = refl
      read_codes k (element td) r u false false path = rw (read_type td _)
      read_codes k (element td) r u false true path = rw (read_type td _)
      read_codes k (element td) r u true false path = rw (read_type td _)
      read_codes k (element td) r u true true path = rw (read_type td _)

    read_entry :
        (e : Entry) (path : List ℕ)
        → interpret_value reg (pos 1) (author_entry e) (ref artifact_entry) path
          ≡ ok (nested (entry_instance e))
    unfolding interpret_value interpret_entries bind_entry is_int64 entry_by_key find_entry by_kind
        as_int as_text set_field
    read_entry e path = rw (holds.entries, read_type e.type _)

    read_entries :
        (es : List Entry) (path : List ℕ) (i : ℕ)
        → interpret_items reg (pos 1) (author_entries es) (ref artifact_entry) path i
          ≡ ok (entry_instances es)
    unfolding interpret_items
    read_entries [] path i = refl
    read_entries (e ∷ es) path i = rw (read_entry e _, read_entries es path (suc i))

    -- Under the meta-table, the artifact of a table is its instance.
    pub interpret-author :
        (t : FieldTable) → interpret meta_table (author t) reg ≡ ok (table_instance t)
    unfolding interpret interpret_map interpret_value interpret_entries bind_entry is_int64
        entry_by_key find_entry by_kind as_int with_element set_field
    interpret-author t = rw (read_entries t.entries _ 0)
