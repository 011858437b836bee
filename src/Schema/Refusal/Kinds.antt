-- ===== src/Schema/Refusal/Kinds.antt =====
-- Where the switch of schema/interpret.go refuses a value, the value has the fault.
use murmur_go.Common.{
  ℕ, true, false, ◌||◌, ◌≡◌, refl, sym, subst, List, Option, none, some, Result, err, Faults,
  passed, at_fault, own_error, Faults-if, Faults-weaken, Faults-bind, map_err-Faults, Ensures,
  returned, refused, anything,
}
use murmur_go.Common.Int.{ℤ, ◌==ℤ◌, ==ℤ→eq}
use murmur_go.Cbor.Value.{Value, int, bytes, text, bool, array, nil, cons}
use murmur_go.Cbor.Canonical.{check_decimal, check_rational}
use murmur_go.Schema.Errors
use murmur_go.Schema.Errors.{SchemaError}
use murmur_go.Schema.Table.{
  Kind, Element, descriptor, FieldTable, kind_int, kind_bytes, kind_text, kind_bool, kind_decimal,
  kind_rational, kind_array, kind_ref,
}
use murmur_go.Schema.Registry.{Registry, lookup}
use murmur_go.Schema.Instance.{Any}
use murmur_go.Schema.Interpret.{
  two_ints, as_int, as_bytes, as_text, as_bool, as_decimal, as_rational, by_kind,
}
use murmur_go.Schema.FieldTable.{is_scalar, is_magnitude}
use murmur_go.Schema.Refusal.{
  shape_of, is_pair, pair, Fault, wrong_type, no_pair, odd_decimal, odd_rational, no_table,
  unknown_kind, Blames, here, refusal,
}

two_ints-Faults :
    {Q : SchemaError → Type 0} (v : Value) (path : List ℕ)
    → (is_pair v ≡ false → Q (refusal Errors.bad_magnitude path))
    → Faults Q (two_ints v path)
unfolding two_ints
two_ints-Faults (array (cons (int a) (cons (int b) nil))) path h = passed
two_ints-Faults _ path h = at_fault (h refl)

two_ints-pair : (v : Value) (path : List ℕ) → Ensures (λ (a, b). v ≡ pair a b) (two_ints v path)
unfolding two_ints
two_ints-pair (array (cons (int a) (cons (int b) nil))) path = returned refl
two_ints-pair _ path = refused

magnitude_of : (k c : Kind) → (k ==ℤ c) ≡ true → is_magnitude c ≡ true → is_magnitude k ≡ true
magnitude_of k c same h = subst (λ x. is_magnitude x ≡ true) (sym (==ℤ→eq k c same)) h

module _ (reg : Registry) (version : ℤ) where
  pub mistyped :
      {k : Kind} {o : Element} {r u : ℤ} {v : Value} {path : List ℕ} (c : Kind)
      → (k ==ℤ c) ≡ true
      → (is_scalar c || c ==ℤ kind_array) ≡ true
      → (c ==ℤ shape_of v) ≡ false
      → Blames reg version (descriptor k o r u) v path (refusal Errors.type_mismatch path)
  mistyped {k} {o} {r} {u} {v} c same known differs = here (
      subst (λ x. Fault reg version (descriptor x o r u) v Errors.type_mismatch)
        (sym (==ℤ→eq k c same)) (wrong_type known differs))

  module _ (k : Kind) (o : Element) (r u : ℤ) (path : List ℕ) where
    as_int-Faults :
        (v : Value)
        → (k ==ℤ kind_int) ≡ true
        → Faults (Blames reg version (descriptor k o r u) v path) (as_int v path)
    unfolding as_int
    as_int-Faults (int n) h = passed
    as_int-Faults _ h = at_fault (mistyped kind_int h refl refl)

    as_bytes-Faults :
        (v : Value)
        → (k ==ℤ kind_bytes) ≡ true
        → Faults (Blames reg version (descriptor k o r u) v path) (as_bytes v path)
    unfolding as_bytes
    as_bytes-Faults (bytes n) h = passed
    as_bytes-Faults _ h = at_fault (mistyped kind_bytes h refl refl)

    as_text-Faults :
        (v : Value)
        → (k ==ℤ kind_text) ≡ true
        → Faults (Blames reg version (descriptor k o r u) v path) (as_text v path)
    unfolding as_text
    as_text-Faults (text n) h = passed
    as_text-Faults _ h = at_fault (mistyped kind_text h refl refl)

    as_bool-Faults :
        (v : Value)
        → (k ==ℤ kind_bool) ≡ true
        → Faults (Blames reg version (descriptor k o r u) v path) (as_bool v path)
    unfolding as_bool
    as_bool-Faults (bool n) h = passed
    as_bool-Faults _ h = at_fault (mistyped kind_bool h refl refl)

    as_decimal-Faults :
        (v : Value)
        → (k ==ℤ kind_decimal) ≡ true
        → Faults (Blames reg version (descriptor k o r u) v path) (as_decimal v path)
    unfolding as_decimal
    as_decimal-Faults v h =
        Faults-bind
          (two_ints-Faults v path (λ odd. here (no_pair (magnitude_of k kind_decimal h refl) odd)))
          (two_ints-pair v path)
          λ (s, m) e.
            Faults-bind
              (map_err-Faults _ (
                Faults-weaken (λ x bad. rw e (here (odd_decimal h (λ fine. cc))))
                  (own_error (check_decimal (some s) (some m)))))
              (anything _) λ _ _. passed

    as_rational-Faults :
        (v : Value)
        → (k ==ℤ kind_rational) ≡ true
        → Faults (Blames reg version (descriptor k o r u) v path) (as_rational v path)
    unfolding as_rational
    as_rational-Faults v h =
        Faults-bind
          (two_ints-Faults v path (λ odd. here (no_pair (magnitude_of k kind_rational h refl) odd)))
          (two_ints-pair v path)
          λ (n, d) e.
            Faults-bind
              (map_err-Faults _ (
                Faults-weaken (λ x bad. rw e (here (odd_rational h (λ fine. cc))))
                  (own_error (check_rational (some n) (some d)))))
              (anything _) λ _ _. passed

    lookup-Faults :
        (v : Value) (found : Option FieldTable) {as_map : FieldTable → Result SchemaError Any}
        → (k ==ℤ kind_ref) ≡ true
        → lookup reg r version ≡ found
        → ((t : FieldTable)
            → lookup reg r version ≡ some t
            → Faults (Blames reg version (descriptor k o r u) v path) (as_map t))
        → Faults (Blames reg version (descriptor k o r u) v path) (elim found [
          | some child ↦ as_map child
          | none ↦ err (refusal Errors.unresolved_ref path)
        ])
    lookup-Faults v none h missing hm = at_fault (here (no_table h missing))
    lookup-Faults v (some t) h held hm = hm t held

    unknown :
        {v : Value}
        → (k ==ℤ kind_int) ≡ false
        → (k ==ℤ kind_bytes) ≡ false
        → (k ==ℤ kind_text) ≡ false
        → (k ==ℤ kind_bool) ≡ false
        → (k ==ℤ kind_decimal) ≡ false
        → (k ==ℤ kind_rational) ≡ false
        → (k ==ℤ kind_array) ≡ false
        → (k ==ℤ kind_ref) ≡ false
        → Blames reg version (descriptor k o r u) v path (refusal Errors.unresolved_ref path)
    unknown i b t o' d q a f = here (unknown_kind (rw (i, b, t, o')) (rw (d, q)) a f)

  -- The switch blames the value, if the readings as an array and as a map do.
  pub by_kind-Faults :
      (k : Kind) (o : Element) (r u : ℤ) (v : Value) (path : List ℕ)
      (as_array : Element → Result SchemaError Any) {as_map : FieldTable → Result SchemaError Any}
      → ((k ==ℤ kind_array) ≡ true
          → Faults (Blames reg version (descriptor k o r u) v path) (as_array o))
      → ((k ==ℤ kind_ref) ≡ true
          → (t : FieldTable) → lookup reg r version ≡ some t
          → Faults (Blames reg version (descriptor k o r u) v path) (as_map t))
      → Faults
          (Blames reg version (descriptor k o r u) v path)
          (by_kind reg version (descriptor k o r u) v path as_array as_map)
  unfolding by_kind
  by_kind-Faults k o r u v path as_array ha hm =
      Faults-if (k ==ℤ kind_int) (as_int-Faults k o r u path v) λ i.
        Faults-if (k ==ℤ kind_bytes) (as_bytes-Faults k o r u path v) λ b.
          Faults-if (k ==ℤ kind_text) (as_text-Faults k o r u path v) λ t.
            Faults-if (k ==ℤ kind_bool) (as_bool-Faults k o r u path v) λ l.
              Faults-if (k ==ℤ kind_decimal) (as_decimal-Faults k o r u path v) λ d.
                Faults-if (k ==ℤ kind_rational) (as_rational-Faults k o r u path v) λ q.
                  Faults-if (k ==ℤ kind_array) ha λ a.
                    Faults-if (k ==ℤ kind_ref)
                      (λ h. lookup-Faults k o r u path v (lookup reg r version) h refl (hm h))
                      λ f. at_fault (unknown k o r u path i b t l d q a f)
