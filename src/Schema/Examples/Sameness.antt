-- ===== src/Schema/Examples/Sameness.antt =====
-- The instance of an artifact, and that of one with its entries in another order.
use murmur_go.Common.{◌≡◌, refl, sym, ap, ◌∙◌, arith, ok, Bool-cases, inl, inr}
use murmur_go.Common.Int.{ℤ, abs, pos, ◌==ℤ◌, ==ℤ→eq}
use murmur_go.Cbor.Value.{Value, int, map, end, entry}
use murmur_go.Cbor.Examples.{any}
use murmur_go.Cbor.Keys.{Distinct, of_int, of_map, one_entry, no_entries, new_before, new_at_end}
use murmur_go.Cbor.Reorder.{Reordered, of_entries, exchanged}
use murmur_go.Schema.Floor.{entry_table, type_descriptor_table}
use murmur_go.Schema.Instance.{
  Instance, instance_of, field, no_fields, plain, nested, fields_of, get_field,
}
use murmur_go.Schema.Interpret.{interpret}
use murmur_go.Schema.Same.{SameInstance, SameFound, same_fields, both_absent, both_there}
use murmur_go.Schema.Same.Self.{SameInstance-self, SameAny-self}
use murmur_go.Schema.Same.Reading.{interpret-SameInstance}
use murmur_go.Schema.Same.Received.{interpret-Reordered, Received, equal_artifacts}
use murmur_go.Schema.Examples.{
  floor, run_interpret, partial_entry, partial_instance, partial_bytes, decode-partial_bytes,
  interpret-partial_entry, partial_entry-Distinct,
}

-- {2: {0: 3}, 0: 5}
abbrev turned_entry : Value
turned_entry = map (
    entry (int (pos 2)) (map (entry (int (pos 0)) (int (pos 3)) end))
      (entry (int (pos 0)) (int (pos 5)) end))

abbrev turned_instance : Instance
turned_instance = instance_of entry_table (pos 1) (
    field (pos 2)
      (nested
        (instance_of type_descriptor_table (pos 1) (field (pos 0) (plain (int (pos 3))) no_fields)))
      (field (pos 0) (plain (int (pos 5))) no_fields))

interpret-turned_entry : interpret entry_table turned_entry floor ≡ ok turned_instance
unfolding run_interpret
interpret-turned_entry = refl

turned_entry-Distinct : Distinct turned_entry
turned_entry-Distinct = of_map (
    one_entry (new_before (λ p. cc) new_at_end) (of_map (one_entry new_at_end of_int no_entries))
      (one_entry new_at_end of_int no_entries))

turned_fields :
    (key : ℤ)
    → SameFound
        (get_field key (fields_of partial_instance))
        (get_field key (fields_of turned_instance))
unfolding get_field
turned_fields key = elim (Bool-cases (pos 0 ==ℤ key)) [
  | inl zero ↦ elim (Bool-cases (pos 2 ==ℤ key)) [
    | inl two ↦
        let two_is_zero : 2 ≡ 0 = ap abs (==ℤ→eq (pos 2) key two ∙ sym (==ℤ→eq (pos 0) key zero)) in
        absurd (omega (arith, two_is_zero))
    | inr not_two ↦ rw (zero, not_two) (both_there (SameAny-self _))
  ]
  | inr not_zero ↦ elim (Bool-cases (pos 2 ==ℤ key)) [
    | inl two ↦ rw (not_zero, two) (both_there (SameAny-self _))
    | inr not_two ↦ rw (not_zero, not_two) both_absent
  ]
]

turned-SameInstance : SameInstance partial_instance turned_instance
turned-SameInstance = same_fields turned_fields

interpret-Reordered_example : Reordered partial_entry turned_entry
interpret-Reordered_example =
    interpret-Reordered entry_table entry_table partial_entry turned_entry floor floor
      partial_instance turned_instance partial_entry-Distinct turned_entry-Distinct
      interpret-partial_entry interpret-turned_entry turned-SameInstance

received : Received any partial_bytes partial_instance
received = record {
  are_bytes = omega arith;
  short = omega arith;
  value = partial_entry;
  table = entry_table;
  registry = floor;
  decoded = decode-partial_bytes;
  interpreted = interpret-partial_entry;
}

equal_artifacts_example : partial_bytes ≡ partial_bytes
equal_artifacts_example =
    equal_artifacts any partial_bytes partial_bytes partial_instance partial_instance received
      received (SameInstance-self partial_instance)

interpret-SameInstance_example :
    (j : Instance) × (interpret entry_table turned_entry floor ≡ ok j)
    × SameInstance partial_instance j
interpret-SameInstance_example =
    interpret-SameInstance entry_table floor partial_entry turned_entry partial_instance
      partial_entry-Distinct (of_entries exchanged) interpret-partial_entry
