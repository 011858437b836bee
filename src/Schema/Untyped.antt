-- ===== src/Schema/Untyped.antt =====
-- The value behind an instance of schema/interpret.go, and the loop that sets its fields.
use murmur_go.Common.{◌≡◌, ◌≢◌, refl, sym, ap, Bool, true, false, if◌then◌else◌}
use murmur_go.Common.Int.{ℤ, ◌==ℤ◌, ==ℤ→eq}
use murmur_go.Cbor.Value.{
  Value, Values, Entries, int, array, map, decimal, rational, nil, cons, end, entry,
}
use murmur_go.Cbor.Keys.{NewKey, new_at_end, new_before}
use murmur_go.Schema.Instance
use murmur_go.Schema.Instance.{
  Instance, Fields, Any, Anys, no_fields, field, plain, nested, instance_of, set_field,
}

abbrev pub pair_of : ℤ → ℤ → Value
pair_of a b = array (cons (int a) (cons (int b) nil))

-- A value without its type: a decimal or a rational is a pair of integers, an instance a map.
abbrev pub untyped_plain : Value → Value
untyped_plain (decimal s m) = pair_of s m
untyped_plain (rational n d) = pair_of n d
untyped_plain v = v

unfoldable mutual
  pub untyped : Instance → Value
  untyped (instance_of t v fs) = map (untyped_fields fs)

  pub untyped_fields : Fields → Entries
  untyped_fields no_fields = end
  untyped_fields (field k a fs) = entry (int k) (untyped_any a) (untyped_fields fs)

  pub untyped_any : Any → Value
  untyped_any (plain v) = untyped_plain v
  untyped_any (nested i) = untyped i
  untyped_any (Instance.array xs) = array (untyped_items xs)

  pub untyped_items : Anys → Values
  untyped_items Instance.nil = nil
  untyped_items (Instance.cons a xs) = cons (untyped_any a) (untyped_items xs)

unfoldable pub join : Entries → Entries → Entries
join end es = es
join (entry k v rest) es = entry k v (join rest es)

pub join-end : (es : Entries) → join es end ≡ es
unfolding join
join-end end = refl
join-end (entry k v es) = ap (entry k v) (join-end es)

pub join-join :
    (xs es : Entries) (k v : Value) → join (join xs (entry k v end)) es ≡ join xs (entry k v es)
unfolding join
join-join end es k v = refl
join-join (entry j w xs) es k v = ap (entry j w) (join-join xs es k v)

NewKey-join :
    {j k : Value} (v : Value) (xs : Entries)
    → NewKey j xs
    → k ≢ j
    → NewKey j (join xs (entry k v end))
unfolding join
NewKey-join v end new_at_end other = new_before other new_at_end
NewKey-join v (entry i w xs) (new_before h hs) other = new_before h (NewKey-join v xs hs other)

-- Every key of the first entries is new to the second.
pub data AllNew (seen : Entries) : Entries → Type 0 where
  all_new : AllNew seen end
  one_new :
      {k v : Value} {es : Entries} → NewKey k seen → AllNew seen es → AllNew seen (entry k v es)

pub AllNew-join :
    {k : Value} {seen : Entries} (v : Value) (es : Entries)
    → AllNew seen es
    → NewKey k es
    → AllNew (join seen (entry k v end)) es
AllNew-join v end all_new h = all_new
AllNew-join {seen} v (entry j w es) (one_new n ns) (new_before other hs) =
    one_new (NewKey-join v seen n (λ p. other (sym p))) (AllNew-join v es ns hs)

pub AllNew-end : (es : Entries) → AllNew end es
AllNew-end end = all_new
AllNew-end (entry k v es) = one_new new_at_end (AllNew-end es)

set_field_if :
    (b : Bool) (j key : ℤ) (a val : Any) (fs gs : Fields)
    → (b ≡ true → j ≡ key)
    → int j ≢ int key
    → untyped_fields gs ≡ join (untyped_fields fs) (entry (int key) (untyped_any val) end)
    → untyped_fields (if b then field j val fs else field j a gs)
      ≡ entry
          (int j)
          (untyped_any a)
          (join (untyped_fields fs) (entry (int key) (untyped_any val) end))
unfolding untyped
set_field_if true j key a val fs gs same other h = elim (other (ap int (same refl))) [ ]
set_field_if false j key a val fs gs same other h = ap (entry (int j) (untyped_any a)) h

-- A field of a new key is set behind the others.
pub set_field-join :
    (key : ℤ) (val : Any) (fs : Fields)
    → NewKey (int key) (untyped_fields fs)
    → untyped_fields (set_field key val fs)
      ≡ join (untyped_fields fs) (entry (int key) (untyped_any val) end)
unfolding untyped set_field join
set_field-join key val no_fields h = refl
set_field-join key val (field j a fs) (new_before other hs) =
    set_field_if (j ==ℤ key) j key a val fs (set_field key val fs) (==ℤ→eq j key) other
      (set_field-join key val fs hs)
