-- ===== src/Schema/Refusal/Stops.antt =====
-- The switch of schema/interpret.go on a value that has a fault.
use murmur_go.Common.{
  ℕ, true, false, ◌||◌, ◌≡◌, ◌≢◌, refl, sym, subst, List, none, some, ◌>>=◌, Result, ok, err,
  panics, map_err, Ensures, refused, crashed, Ensures-if, Ensures-bind, inl, inr, or_true,
}
use murmur_go.Common.Int.{ℤ, ◌==ℤ◌, ==ℤ→eq}
use murmur_go.Cbor.Value.{Value, int, bytes, text, bool, array, nil, cons}
use murmur_go.Schema.Errors.{SchemaError}
use murmur_go.Schema.Table.{
  Kind, Element, descriptor, FieldTable, kind_int, kind_bytes, kind_text, kind_bool, kind_decimal,
  kind_rational, kind_array, kind_ref,
}
use murmur_go.Schema.Registry.{Registry, lookup}
use murmur_go.Schema.Instance.{Any}
use murmur_go.Schema.Interpret.{
  two_ints, as_int, as_bytes, as_text, as_bool, as_decimal, as_rational, by_kind,
}
use murmur_go.Schema.FieldTable.{is_scalar, is_magnitude}
use murmur_go.Schema.Refusal.{shape_of, is_pair}

-- The call does not come to a value.
abbrev pub Never : {A : Type 0} → Result SchemaError A → Type 0
Never {A} r = Ensures {A = A} (λ _. ⊥) r

pub Never-bind :
    {A B : Type 0} {r : Result SchemaError A} (f : A → Result SchemaError B)
    → Never r
    → Never (r >>= f)
Never-bind f h = Ensures-bind h λ a no_value. elim no_value [ ]

pub map_err-Never :
    {E : Type 0} (f : E → SchemaError) (r : Result E (Unit {0})) → r ≢ ok tt → Never (map_err f r)
map_err-Never f (ok _) h = absurd (h refl)
map_err-Never f (err e) h = refused
map_err-Never f panics h = crashed

two_ints-Never : (v : Value) (path : List ℕ) → is_pair v ≡ false → Never (two_ints v path)
unfolding two_ints
two_ints-Never (array (cons (int a) (cons (int b) nil))) path h = cc
two_ints-Never _ path h = refused

as_int-Never :
    (v : Value) (path : List ℕ) → (kind_int ==ℤ shape_of v) ≡ false → Never (as_int v path)
unfolding as_int
as_int-Never (int n) path h = cc
as_int-Never _ path h = refused

as_bytes-Never :
    (v : Value) (path : List ℕ) → (kind_bytes ==ℤ shape_of v) ≡ false → Never (as_bytes v path)
unfolding as_bytes
as_bytes-Never (bytes n) path h = cc
as_bytes-Never _ path h = refused

as_text-Never :
    (v : Value) (path : List ℕ) → (kind_text ==ℤ shape_of v) ≡ false → Never (as_text v path)
unfolding as_text
as_text-Never (text n) path h = cc
as_text-Never _ path h = refused

as_bool-Never :
    (v : Value) (path : List ℕ) → (kind_bool ==ℤ shape_of v) ≡ false → Never (as_bool v path)
unfolding as_bool
as_bool-Never (bool n) path h = cc
as_bool-Never _ path h = refused

module _ (reg : Registry) (version : ℤ) where
  -- The readings as an array and as a map refuse values of another shape.
  pub record Shaped (v : Value) (as_array : Element → Result SchemaError Any)
      (as_map : FieldTable → Result SchemaError Any) : Type 0 where
    pub no_array : (kind_array ==ℤ shape_of v) ≡ false → (o : Element) → Never (as_array o)
    pub no_ref : (kind_ref ==ℤ shape_of v) ≡ false → (t : FieldTable) → Never (as_map t)

  module _ (o : Element) (r u : ℤ) (v : Value) (path : List ℕ)
      (as_array : Element → Result SchemaError Any)
      (as_map : FieldTable → Result SchemaError Any) where
    -- The switch, of a kind.
    abbrev pub Stops : Kind → Type 0
    Stops k = Never (by_kind reg version (descriptor k o r u) v path as_array as_map)

    Stops-at : (c k : Kind) → (k ==ℤ c) ≡ true → Stops c → Stops k
    Stops-at c k same h = subst Stops (sym (==ℤ→eq k c same)) h

    differs :
        (c k : Kind) → (k ==ℤ c) ≡ true → (k ==ℤ shape_of v) ≡ false → (c ==ℤ shape_of v) ≡ false
    differs c k same h = subst (λ x. (x ==ℤ shape_of v) ≡ false) (==ℤ→eq k c same) h

    pub wrong_type-Never :
        (k : Kind)
        → Shaped v as_array as_map
        → (is_scalar k || k ==ℤ kind_array) ≡ true
        → (k ==ℤ shape_of v) ≡ false
        → Stops k
    unfolding by_kind
    wrong_type-Never k shaped known other = elim (or_true (is_scalar k) (k ==ℤ kind_array) known) [
      | inr a ↦ Stops-at kind_array k a (shaped.no_array (differs kind_array k a other) o)
      | inl s ↦ elim (or_true _ (k ==ℤ kind_bool) s) [
        | inr l ↦ Stops-at kind_bool k l (as_bool-Never v path (differs kind_bool k l other))
        | inl s' ↦ elim (or_true _ (k ==ℤ kind_text) s') [
          | inr t ↦ Stops-at kind_text k t (as_text-Never v path (differs kind_text k t other))
          | inl s'' ↦ elim (or_true (k ==ℤ kind_int) (k ==ℤ kind_bytes) s'') [
            | inl i ↦ Stops-at kind_int k i (as_int-Never v path (differs kind_int k i other))
            | inr b ↦ Stops-at kind_bytes k b (as_bytes-Never v path (differs kind_bytes k b other))
          ]
        ]
      ]
    ]

    pub no_map-Never :
        (k : Kind) (t : FieldTable)
        → Shaped v as_array as_map
        → (k ==ℤ kind_ref) ≡ true
        → lookup reg r version ≡ some t
        → (kind_ref ==ℤ shape_of v) ≡ false
        → Stops k
    unfolding by_kind
    no_map-Never k t shaped f held other = Stops-at kind_ref k f (rw held (shaped.no_ref other t))

    pub no_pair-Never : (k : Kind) → is_magnitude k ≡ true → is_pair v ≡ false → Stops k
    unfolding by_kind as_decimal as_rational
    no_pair-Never k m odd = elim (or_true (k ==ℤ kind_decimal) (k ==ℤ kind_rational) m) [
      | inl d ↦ Stops-at kind_decimal k d (Never-bind _ (two_ints-Never v path odd))
      | inr q ↦ Stops-at kind_rational k q (Never-bind _ (two_ints-Never v path odd))
    ]

    pub no_table-Never :
        (k : Kind) → (k ==ℤ kind_ref) ≡ true → lookup reg r version ≡ none → Stops k
    unfolding by_kind
    no_table-Never k f missing = Stops-at kind_ref k f (rw missing refused)

    pub unknown_kind-Never :
        (k : Kind)
        → is_scalar k ≡ false
        → is_magnitude k ≡ false
        → (k ==ℤ kind_array) ≡ false
        → (k ==ℤ kind_ref) ≡ false
        → Stops k
    unfolding by_kind
    unknown_kind-Never k s m a f =
        Ensures-if (k ==ℤ kind_int) (λ i. (let bad = rw i at s in cc))
          λ i.
            Ensures-if (k ==ℤ kind_bytes) (λ b. (let bad = rw (i, b) at s in cc))
              λ b.
                Ensures-if (k ==ℤ kind_text) (λ t. (let bad = rw (i, b, t) at s in cc))
                  λ t.
                    Ensures-if (k ==ℤ kind_bool) (λ l. (let bad = rw (i, b, t, l) at s in cc))
                      λ l.
                        Ensures-if (k ==ℤ kind_decimal) (λ d. (let bad = rw d at m in cc))
                          λ d.
                            Ensures-if (k ==ℤ kind_rational) (λ q. (let bad = rw (d, q) at m in cc))
                              λ q. rw (a, f) refused
