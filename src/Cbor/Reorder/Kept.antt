-- ===== src/Cbor/Reorder/Kept.antt =====
-- Repeated keys, in a value with the entries of its maps in another order.
use murmur_go.Common.{sym}
use murmur_go.Cbor.Value.{Value, Values, Entries}
use murmur_go.Cbor.Keys
use murmur_go.Cbor.Keys.{
  NewKey, new_at_end, new_before, Distinct, of_array, of_map, DistinctItems, DistinctEntries,
}
use murmur_go.Cbor.Reorder.{
  Reordered, same, of_items, of_entries, ReorderedItems, no_items, one_item, ReorderedEntries,
  no_entries, one_entry, exchanged, then_too,
}

NewKey-ReorderedEntries :
    {k : Value} {es fs : Entries} → ReorderedEntries es fs → NewKey k es → NewKey k fs
NewKey-ReorderedEntries no_entries n = n
NewKey-ReorderedEntries (one_entry _ rs) (new_before other n) =
    new_before other (NewKey-ReorderedEntries rs n)
NewKey-ReorderedEntries exchanged (new_before one (new_before two n)) =
    new_before two (new_before one n)
NewKey-ReorderedEntries (then_too rs ss) n =
    NewKey-ReorderedEntries ss (NewKey-ReorderedEntries rs n)

mutual
  pub Distinct-Reordered : {v w : Value} → Reordered v w → Distinct v → Distinct w
  Distinct-Reordered same d = d
  Distinct-Reordered (of_items rs) (of_array d) = of_array (DistinctItems-Reordered rs d)
  Distinct-Reordered (of_entries rs) (of_map d) = of_map (DistinctEntries-Reordered rs d)

  DistinctItems-Reordered :
      {vs ws : Values} → ReorderedItems vs ws → DistinctItems vs → DistinctItems ws
  DistinctItems-Reordered no_items d = d
  DistinctItems-Reordered (one_item r rs) (Keys.one_item d ds) =
      Keys.one_item (Distinct-Reordered r d) (DistinctItems-Reordered rs ds)

  pub DistinctEntries-Reordered :
      {es fs : Entries} → ReorderedEntries es fs → DistinctEntries es → DistinctEntries fs
  DistinctEntries-Reordered no_entries d = d
  DistinctEntries-Reordered (one_entry r rs) (Keys.one_entry n dv d) =
      Keys.one_entry (NewKey-ReorderedEntries rs n) (Distinct-Reordered r dv)
        (DistinctEntries-Reordered rs d)
  DistinctEntries-Reordered exchanged
        (Keys.one_entry (new_before other n) dv (Keys.one_entry m dw d)) =
      Keys.one_entry (new_before (λ e. other (sym e)) m) dw (Keys.one_entry n dv d)
  DistinctEntries-Reordered (then_too rs ss) d =
      DistinctEntries-Reordered ss (DistinctEntries-Reordered rs d)
