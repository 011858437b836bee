-- ===== src/Schema/Same/Setting.antt =====
-- Setting fields of instances that are the same as Go values.
use murmur_go.Common.{
  ◌≡◌, ◌≢◌, refl, sym, ◌∙◌, subst, Bool, true, false, Bool-cases, inl, inr, Option, some,
  if◌then◌else◌,
}
use murmur_go.Common.Int.{ℤ, ◌==ℤ◌, ==ℤ→eq, ==ℤ_comm}
use murmur_go.Schema.Instance.{Instance, Fields, Any, Anys, no_fields, field, get_field, set_field}
use murmur_go.Schema.Same
use murmur_go.Schema.Same.{
  SameInstance, same_fields, SameFound, both_absent, both_there, SameAny, same_plain, same_nested,
  same_array, SameItems,
}

abbrev pub SameFields : Fields → Fields → Type 0
SameFields fs gs = (key : ℤ) → SameFound (get_field key fs) (get_field key gs)

mutual
  SameInstance-then : {i j k : Instance} → SameInstance i j → SameInstance j k → SameInstance i k
  SameInstance-then (same_fields h) (same_fields h') =
      same_fields λ key. SameFound-then (h key) (h' key)

  pub SameFound-then : {o p q : Option Any} → SameFound o p → SameFound p q → SameFound o q
  SameFound-then both_absent both_absent = both_absent
  SameFound-then (both_there s) (both_there s') = both_there (SameAny-then s s')

  SameAny-then : {a b c : Any} → SameAny a b → SameAny b c → SameAny a c
  SameAny-then same_plain s = s
  SameAny-then (same_nested s) (same_nested s') = same_nested (SameInstance-then s s')
  SameAny-then (same_array s) (same_array s') = same_array (SameItems-then s s')

  SameItems-then : {xs ys zs : Anys} → SameItems xs ys → SameItems ys zs → SameItems xs zs
  SameItems-then Same.no_items s = s
  SameItems-then (Same.one_item s ss) (Same.one_item s' ss') =
      Same.one_item (SameAny-then s s') (SameItems-then ss ss')

-- What is under a key after a field is set.
get_field-set_field :
    (key k : ℤ) (a : Any) (fs : Fields)
    → get_field key (set_field k a fs) ≡ (if k ==ℤ key then some a else get_field key fs)
unfolding get_field set_field
get_field-set_field key k a no_fields = refl
get_field-set_field key k a (field j b fs) = elim (Bool-cases (j ==ℤ k)) [
  | inl same ↦ rw (same, ==ℤ→eq j k same) (either (k ==ℤ key) _)
  | inr differ ↦ elim (Bool-cases (j ==ℤ key)) [
    | inl here ↦
        let not_k : (k ==ℤ key) ≡ false =
          ==ℤ_comm k key ∙ subst (λ x. (x ==ℤ k) ≡ false) (==ℤ→eq j key here) differ in
        rw (differ, here, not_k) refl
    | inr not_here ↦ rw (differ, not_here) (get_field-set_field key k a fs)
  ]
]
  where
    either :
        (c : Bool) (o : Option Any)
        → (if c then some a else o) ≡ (if c then some a else if c then some b else o)
    either true o = refl
    either false o = refl

SameFound-if :
    (c : Bool) {a b : Any} {o p : Option Any}
    → SameAny a b
    → SameFound o p
    → SameFound (if c then some a else o) (if c then some b else p)
SameFound-if true s h = both_there s
SameFound-if false s h = h

pub set_field-SameFields :
    (k : ℤ) (fs gs : Fields) {a b : Any}
    → SameAny a b
    → SameFields fs gs
    → SameFields (set_field k a fs) (set_field k b gs)
set_field-SameFields k fs gs {a} {b} s h key =
    rw (get_field-set_field key k a fs, get_field-set_field key k b gs)
      (SameFound-if (k ==ℤ key) s (h key))

-- Fields of different keys, set the one way and the other.
pub set_field-exchange :
    (j k : ℤ) (fs gs : Fields) {a a' b b' : Any}
    → j ≢ k
    → SameAny a a'
    → SameAny b b'
    → SameFields fs gs
    → SameFields (set_field k b (set_field j a fs)) (set_field j a' (set_field k b' gs))
set_field-exchange j k fs gs {a} {a'} {b} {b'} other sa sb h key =
    rw
      (
        get_field-set_field key k b (set_field j a fs),
        get_field-set_field key j a fs,
        get_field-set_field key j a' (set_field k b' gs),
        get_field-set_field key k b' gs,
      )
      (exchange (j ==ℤ key) (k ==ℤ key) (h key)
        (λ one two. other (==ℤ→eq j key one ∙ sym (==ℤ→eq k key two))))
  where
    exchange :
        (c d : Bool) {o p : Option Any}
        → SameFound o p
        → (c ≡ true → d ≢ true)
        → SameFound
            (if d then some b else if c then some a else o)
            (if c then some a' else if d then some b' else p)
    exchange true true h apart = absurd (apart refl refl)
    exchange true false h apart = both_there sa
    exchange false true h apart = both_there sb
    exchange false false h apart = h
