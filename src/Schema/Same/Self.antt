-- ===== src/Schema/Same/Self.antt =====
-- Every instance is the same as itself, as a Go value.
use murmur_go.Common.{Bool-cases, inl, inr}
use murmur_go.Common.Int.{ℤ, ◌==ℤ◌}
use murmur_go.Schema.Instance
use murmur_go.Schema.Instance.{
  Instance, Fields, Any, Anys, no_fields, field, plain, nested, instance_of, get_field,
}
use murmur_go.Schema.Same.{
  SameInstance, same_fields, SameFound, both_absent, both_there, SameAny, same_plain, same_nested,
  same_array, SameItems, no_items, one_item,
}

mutual
  unfolding get_field

  pub SameInstance-self : (i : Instance) → SameInstance i i
  SameInstance-self (instance_of t v fs) = same_fields (SameFields-self fs)

  pub SameFields-self : (fs : Fields) (key : ℤ) → SameFound (get_field key fs) (get_field key fs)
  SameFields-self no_fields key = both_absent
  SameFields-self (field k a fs) key =
      let rest = SameFields-self fs key in
      let this = SameAny-self a in
      elim (Bool-cases (k ==ℤ key)) [
        | inl same ↦ rw same (both_there this)
        | inr differ ↦ rw differ rest
      ]

  pub SameAny-self : (a : Any) → SameAny a a
  SameAny-self (plain v) = same_plain
  SameAny-self (nested i) = same_nested (SameInstance-self i)
  SameAny-self (Instance.array xs) = same_array (SameItems-self xs)

  SameItems-self : (xs : Anys) → SameItems xs xs
  SameItems-self Instance.nil = no_items
  SameItems-self (Instance.cons a xs) = one_item (SameAny-self a) (SameItems-self xs)
