-- ===== src/Schema/Adds.antt =====
-- The order of the Adds of schema/table.go.
use murmur_go.Common.{
  subst, ◌≡◌, refl, sym, ◌∙◌, Bool, true, false, ◌&&◌, ◌∷◌, Option-cases, none, some, inl, inr,
  Result, ok, panics, Bool-cases, ◌>>=◌,
}
use murmur_go.Common.Int.{ℤ, ◌==ℤ◌, ==ℤ→eq, ==ℤ-refl, ==ℤ_comm}
use murmur_go.Schema.Errors.{SchemaError}
use murmur_go.Schema.Table.{FieldTable}
use murmur_go.Schema.Registry.{Registry, RegKey, same_key, find_table, lookup, add}

-- Both panic, or both make registries that hold the same.
pub data Alike : Result SchemaError Registry → Result SchemaError Registry → Type 0 where
  both_panic : Alike panics panics
  both_hold :
      {r s : Registry}
      → ((typ version : ℤ) → lookup r typ version ≡ lookup s typ version)
      → Alike (ok r) (ok s)

Alike-swapped : {a b : Result SchemaError Registry} → Alike a b → Alike b a
Alike-swapped both_panic = both_panic
Alike-swapped (both_hold h) = both_hold (λ typ version. sym (h typ version))

abbrev key_of : FieldTable → RegKey
key_of t = record { typ = t.describes; version = t.version }

same_key_comm : (a b : RegKey) → same_key a b ≡ same_key b a
same_key_comm a b = rw (==ℤ_comm a.typ b.typ, ==ℤ_comm a.version b.version) refl

both_true : (x y : Bool) → (x && y) ≡ true → (x ≡ true) × (y ≡ true)
both_true true true h = (refl, refl)
both_true true false h = absurd (cc)
both_true false y h = absurd (cc)

same_key_true : (a b : RegKey) → same_key a b ≡ true → a ≡ b
same_key_true a b h =
    let (typ, version) = both_true (a.typ ==ℤ b.typ) (a.version ==ℤ b.version) h in
    let typ' = ==ℤ→eq a.typ b.typ typ in
    let version' = ==ℤ→eq a.version b.version version in
    λ i. record { typ = typ' i; version = version' i }

same_key_self : (k : RegKey) → same_key k k ≡ true
same_key_self k = rw (==ℤ-refl k.typ, ==ℤ-refl k.version) refl

module _ (r : Registry) where
  add_taken :
      (t : FieldTable) {old : FieldTable} → find_table (key_of t) r ≡ some old → add t r ≡ panics
  unfolding add lookup
  add_taken t held = rw (add, held) refl

  add_free : (t : FieldTable) → find_table (key_of t) r ≡ none → add t r ≡ ok ((key_of t, t) ∷ r)
  unfolding add lookup
  add_free t free = rw (add, free) refl

  find_front :
      (j k : RegKey) (t : FieldTable) → same_key j k ≡ true → find_table k ((j, t) ∷ r) ≡ some t
  unfolding find_table
  find_front j k t same = rw same refl

  find_behind :
      (j k : RegKey) (t : FieldTable)
      → same_key j k ≡ false
      → find_table k ((j, t) ∷ r) ≡ find_table k r
  unfolding find_table
  find_behind j k t differ = rw differ refl

module _ (r : Registry) where
  -- A table that is held is held behind another too.
  held_behind :
      (t : FieldTable) (j : RegKey) (u : FieldTable) {old : FieldTable}
      → find_table (key_of t) r ≡ some old
      → add t ((j, u) ∷ r) ≡ panics
  held_behind t j u held = elim (Bool-cases (same_key j (key_of t))) [
    | inl same ↦ add_taken ((j, u) ∷ r) t (find_front r j (key_of t) u same)
    | inr differ ↦ add_taken ((j, u) ∷ r) t (find_behind r j (key_of t) u differ ∙ held)
  ]

  add_held :
      (t u : FieldTable) {old : FieldTable}
      → find_table (key_of t) r ≡ some old
      → Alike (add t r >>= add u) (add u r >>= add t)
  add_held t u held = elim (Option-cases (find_table (key_of u) r)) [
    | inr (_, there) ↦ rw (add_taken r t held, add_taken r u there) both_panic
    | inl free ↦
        rw (add_taken r t held, add_free r u free, held_behind t (key_of u) u held) both_panic
  ]

  -- The later of two tables of one type and version.
  add_again :
      (t u : FieldTable)
      → same_key (key_of t) (key_of u) ≡ true
      → add u ((key_of t, t) ∷ r) ≡ panics
  add_again t u same = add_taken ((key_of t, t) ∷ r) u (find_front r (key_of t) (key_of u) t same)

  add_other :
      (t u : FieldTable)
      → same_key (key_of t) (key_of u) ≡ false
      → find_table (key_of u) r ≡ none
      → add u ((key_of t, t) ∷ r) ≡ ok ((key_of u, u) ∷ (key_of t, t) ∷ r)
  add_other t u differ free =
      add_free ((key_of t, t) ∷ r) u (find_behind r (key_of t) (key_of u) t differ ∙ free)

  either_first :
      (j i k : RegKey) (t u : FieldTable)
      → same_key j i ≡ false
      → find_table k ((i, u) ∷ (j, t) ∷ r) ≡ find_table k ((j, t) ∷ (i, u) ∷ r)
  unfolding find_table
  either_first j i k t u differ = elim (Bool-cases (same_key j k)) [
    | inl of_t ↦
        let one = same_key_true j k of_t in
        let not_u : same_key i k ≡ false =
          same_key_comm i k ∙ subst (λ x. same_key x i ≡ false) one differ in
        rw (of_t, not_u) refl
    | inr not_t ↦ elim (Bool-cases (same_key i k)) [
      | inl of_u ↦ rw (not_t, of_u) refl
      | inr not_u ↦ rw (not_t, not_u) refl
    ]
  ]

  -- Of two tables, Add puts in the one and then the other with the same effect as the other way around:
  -- both ways panic, or both make registries in which every lookup finds the same.
  pub add_comm : (t u : FieldTable) → Alike (add t r >>= add u) (add u r >>= add t)
  unfolding lookup
  add_comm t u = elim (Option-cases (find_table (key_of t) r)) [
    | inr (_, held) ↦ add_held t u held
    | inl free ↦ elim (Option-cases (find_table (key_of u) r)) [
      | inr (_, held) ↦ Alike-swapped (add_held u t held)
      | inl free' ↦ elim (Bool-cases (same_key (key_of t) (key_of u))) [
        | inl same ↦
            let turned = same_key_comm (key_of u) (key_of t) ∙ same in
            rw (add_free r t free, add_free r u free', add_again t u same, add_again u t turned)
              both_panic
        | inr differ ↦
            let turned = same_key_comm (key_of u) (key_of t) ∙ differ in
            rw
              (
                add_free r t free,
                add_free r u free',
                add_other t u differ free',
                add_other u t turned free,
              )
              (both_hold λ typ version.
                either_first (key_of t) (key_of u) (record { typ = typ; version = version }) t u
                  differ)
      ]
    ]
  ]
