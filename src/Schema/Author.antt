-- ===== src/Schema/Author.antt =====
-- The artifact that states a field table, and the instance it is under the floor's tables.
pub mod Reading
pub mod Parsing
pub mod Order
pub mod FieldLaws
pub mod Types
pub mod OneEntry
pub mod Unique
use murmur_go.Common.{ℕ, Bool, true, false, not, ◌||◌, List, [], ◌∷◌}
use murmur_go.Common.Int.{ℤ, pos, ◌==ℤ◌}
use murmur_go.Cbor.Value.{Value, Values, Entries, int, text, array, map, nil, cons, end, entry}
use murmur_go.Schema.Table.{
  Kind, kind_array, kind_ref, TypeDescriptor, Element, descriptor, element, no_element, Entry,
  FieldTable,
}
use murmur_go.Schema.Floor.{meta_table, entry_table, type_descriptor_table}
use murmur_go.Schema.Instance
use murmur_go.Schema.Instance.{Instance, Fields, Anys, no_fields, field, plain, nested, instance_of}
use murmur_go.Schema.FieldTable.{is_scalar, is_magnitude}

-- Whether a descriptor of the kind says what it refers to, and in which unit it is. One of an unknown
-- kind says both.
abbrev pub says_ref : Kind → Bool
says_ref k = not (is_scalar k || k ==ℤ kind_array || is_magnitude k)

abbrev pub says_unit : Kind → Bool
says_unit k = not (is_scalar k || k ==ℤ kind_array || k ==ℤ kind_ref)

abbrev code_entry : Bool → ℕ → ℤ → Entries → Entries
code_entry true key code rest = entry (int (pos key)) (int code) rest
code_entry false key code rest = rest

abbrev code_field : Bool → ℕ → ℤ → Fields → Fields
code_field true key code rest = field (pos key) (plain (int code)) rest
code_field false key code rest = rest

unfoldable mutual
  pub author_type : TypeDescriptor → Value
  author_type (descriptor k o r u) = map (
      entry (int (pos 0)) (int k)
        (of_entry o (code_entry (says_ref k) 2 r (code_entry (says_unit k) 3 u end))))

  pub of_entry : Element → Entries → Entries
  of_entry no_element rest = rest
  of_entry (element td) rest = entry (int (pos 1)) (author_type td) rest

abbrev pub type_entries : Kind → Element → ℤ → ℤ → Bool → Bool → Entries
type_entries k o r u has_ref has_unit =
    entry (int (pos 0)) (int k) (of_entry o (code_entry has_ref 2 r (code_entry has_unit 3 u end)))

unfoldable mutual
  pub type_instance : TypeDescriptor → Instance
  type_instance (descriptor k o r u) = instance_of type_descriptor_table (pos 1) (
      field (pos 0) (plain (int k))
        (of_field o (code_field (says_ref k) 2 r (code_field (says_unit k) 3 u no_fields))))

  pub of_field : Element → Fields → Fields
  of_field no_element rest = rest
  of_field (element td) rest = field (pos 1) (nested (type_instance td)) rest

abbrev pub type_fields : Kind → Element → ℤ → ℤ → Bool → Bool → Fields
type_fields k o r u has_ref has_unit =
    field (pos 0) (plain (int k))
      (of_field o (code_field has_ref 2 r (code_field has_unit 3 u no_fields)))

abbrev pub author_entry : Entry → Value
author_entry e = map (
    entry (int (pos 0)) (int e.key) (
      entry (int (pos 1)) (text e.name)
        (entry (int (pos 2)) (author_type e.type) (entry (int (pos 3)) (int e.presence) end))))

abbrev pub entry_instance : Entry → Instance
entry_instance e = instance_of entry_table (pos 1) (
    field (pos 0) (plain (int e.key)) (
      field (pos 1) (plain (text e.name)) (
        field (pos 2) (nested (type_instance e.type))
          (field (pos 3) (plain (int e.presence)) no_fields))))

abbrev pub author_entries : List Entry → Values
author_entries [] = nil
author_entries (e ∷ es) = cons (author_entry e) (author_entries es)

abbrev pub entry_instances : List Entry → Anys
entry_instances [] = Instance.nil
entry_instances (e ∷ es) = Instance.cons (nested (entry_instance e)) (entry_instances es)

abbrev pub author : FieldTable → Value
author t = map (
    entry (int (pos 0)) (int t.describes) (
      entry (int (pos 1)) (int t.version)
        (entry (int (pos 2)) (array (author_entries t.entries)) end)))

abbrev pub table_instance : FieldTable → Instance
table_instance t = instance_of meta_table (pos 1) (
    field (pos 0) (plain (int t.describes)) (
      field (pos 1) (plain (int t.version))
        (field (pos 2) (Instance.array (entry_instances t.entries)) no_fields)))
