-- ===== src/Cbor/Encodable/Keys.antt =====
-- The bytes of different keys, by cbor/encode.go.
use murmur_go.Common.{
  ℕ, ◌^◌, ◌≤◌, ◌≡◌, ◌≢◌, refl, sym, ap, ◌∙◌, Bool, true, false, List, [], ◌∷◌, ◌++◌, arith, length,
  Bool-cases, inl, inr, ltb, leb, ok, Ensures, Ensures-ok, Ensures-both, returned, refused,
  Ensures-if, Ensures-bind, Ensures-weaken, anything, itself,
}
use murmur_go.Common.Int.{ℤ, pos, negsuc}
use murmur_go.Cbor.Value.{Value, Entries, int, text, entry}
use murmur_go.Cbor.Text.{validate_text}
use murmur_go.Cbor.Order.{
  precedes, same_bytes, Encoded, insert_by, sort_by, sort_pairs, has_duplicate,
}
use murmur_go.Cbor.Order.Laws.{same_bytes-eq, NoKey, NoRepeat}
use murmur_go.Cbor.Head.{head_bytes}
use murmur_go.Cbor.Head.Width.{length-head_bytes, behind_head}
use murmur_go.Cbor.Encode.{max_depth, head, integer, value, encode}
use murmur_go.Cbor.Decode.{decode}
use murmur_go.Cbor.Wire.{wire, size}
use murmur_go.Cbor.Keys.{
  NewKey, new_before, DistinctEntries, one_entry, EncodedAs, encoded_end, encoded_entry,
}
use murmur_go.Cbor.RoundTrip.{decode-encode}
use murmur_go.Cbor.RoundTrip.Sorting.{insert_by-All, sort_by-All}
use murmur_go.Cbor.Encodable.{Keyed, int_key, text_key}

integer-short : (n : ℤ) → Ensures (λ out. length out ≤ 9) (integer n [])
unfolding integer head
integer-short (pos n) =
    Ensures-if (leb (2 ^ 64) n) (λ _. refused) λ _. returned (length-head_bytes 0 n (omega arith))
integer-short (negsuc n) =
    Ensures-if (leb (2 ^ 64) n) (λ _. refused) λ _. returned (length-head_bytes 1 n (omega arith))

pub other_keys : {t : Bool} {k v : Value} {es : Entries} → Keyed t (entry k v es) → Keyed t es
other_keys (int_key h) = h
other_keys (text_key h) = h

module _ (is_nfc : List ℕ → Bool) where
  int-decode :
      (n : ℤ) (depth : ℕ)
      → Ensures (λ out. decode is_nfc out ≡ ok (int n)) (value is_nfc (int n) depth [])
  unfolding value encode wire size
  int-decode n depth =
      Ensures-if (ltb max_depth depth) (λ _. refused)
        λ _.
          Ensures-weaken
            (λ out (short, h).
              decode-encode is_nfc (int n) out h (omega (arith, short)) (omega arith))
            (Ensures-both (integer-short n) (itself (integer n [])))

  text-head :
      (s : List ℕ) (depth : ℕ)
      → Ensures (λ out. out ≡ head_bytes 3 (length s) ++ s) (value is_nfc (text s) depth [])
  unfolding value head
  text-head s depth =
      Ensures-if (ltb max_depth depth) (λ _. refused)
        λ _. Ensures-bind (anything (validate_text is_nfc s)) λ _ _. returned refl

  -- The key of the encoded entry is one of the type.
  data KeyOf : Bool → Value → Type 0 where
    of_ints : {n : ℤ} → KeyOf false (int n)
    of_texts : {s : List ℕ} → KeyOf true (text s)

  KeyOf-first : {t : Bool} {k v : Value} {es : Entries} → Keyed t (entry k v es) → KeyOf t k
  KeyOf-first (int_key h) = of_ints
  KeyOf-first (text_key h) = of_texts

  same_key :
      {t : Bool} {j k : Value} {out : List ℕ} (depth : ℕ)
      → KeyOf t j
      → KeyOf t k
      → value is_nfc j depth [] ≡ ok out
      → value is_nfc k depth [] ≡ ok out
      → j ≡ k
  same_key depth (of_ints {n}) (of_ints {n = m}) hj hk =
      let first = Ensures-ok (int-decode n depth) hj in
      let second = Ensures-ok (int-decode m depth) hk in cc
  same_key depth (of_texts {s}) (of_texts {s = r}) hj hk =
      let first = Ensures-ok (text-head s depth) hj in
      let second = Ensures-ok (text-head r depth) hk in
      ap text (behind_head 3 (length s) (length r) s r (omega arith) (sym first ∙ second))

  NewKey-NoKey :
      {t : Bool} {k : Value} {out : List ℕ} (depth : ℕ) {es : Entries} {ps : List Encoded}
      → KeyOf t k
      → Keyed t es
      → value is_nfc k depth [] ≡ ok out
      → EncodedAs is_nfc depth es ps
      → NewKey k es
      → NoKey out ps
  NewKey-NoKey depth kind kinds h encoded_end n = tt
  NewKey-NoKey {k} {out} depth kind kinds h (encoded_entry {p} hk hv rest) (new_before other n) = (
    λ e. other (same_key depth (KeyOf-first kinds) kind (hk ∙ ap ok e) h),
    NewKey-NoKey depth kind (other_keys kinds) h rest n,
  )

  pub EncodedAs-NoRepeat :
      {t : Bool} (depth : ℕ) {es : Entries} {ps : List Encoded}
      → Keyed t es
      → EncodedAs is_nfc depth es ps
      → DistinctEntries es
      → NoRepeat ps
  EncodedAs-NoRepeat depth kinds encoded_end d = tt
  EncodedAs-NoRepeat depth kinds (encoded_entry hk hv rest) (one_entry new _ others) = (
    NewKey-NoKey depth (KeyOf-first kinds) (other_keys kinds) hk rest new,
    EncodedAs-NoRepeat depth (other_keys kinds) rest others,
  )

insert_by-NoRepeat :
    (p : Encoded) (ps : List Encoded)
    → NoKey p.key ps
    → NoRepeat ps
    → NoRepeat (insert_by (λ q. q.key) p ps)
unfolding insert_by
insert_by-NoRepeat p [] new h = (tt, tt)
insert_by-NoRepeat p (q ∷ qs) new h = elim (Bool-cases (precedes q.key p.key)) [
  | inl before ↦ rw before (
    insert_by-All (λ r. r.key) (λ r. r.key ≢ q.key) p qs (λ e. new.0 (sym e)) h.0,
    insert_by-NoRepeat p qs new.1 h.1,
  )
  | inr behind ↦ rw behind (new, h)
]

sort_pairs-NoRepeat : (ps : List Encoded) → NoRepeat ps → NoRepeat (sort_pairs ps)
unfolding sort_pairs sort_by
sort_pairs-NoRepeat [] h = tt
sort_pairs-NoRepeat (p ∷ ps) h =
    insert_by-NoRepeat p (sort_by (λ q. q.key) ps)
      (sort_by-All (λ q. q.key) (λ q. q.key ≢ p.key) ps h.0) (sort_pairs-NoRepeat ps h.1)

has_duplicate-NoRepeat : (ps : List Encoded) → NoRepeat ps → has_duplicate ps ≡ false
unfolding has_duplicate
has_duplicate-NoRepeat [] h = refl
has_duplicate-NoRepeat (p ∷ []) h = refl
has_duplicate-NoRepeat (p ∷ q ∷ qs) h = elim (Bool-cases (same_bytes p.key q.key)) [
  | inl same ↦ absurd (h.0.0 (sym (same_bytes-eq p.key q.key same)))
  | inr other ↦ rw (other, has_duplicate-NoRepeat (q ∷ qs) h.1)
]

pub no_duplicate : (ps : List Encoded) → NoRepeat ps → has_duplicate (sort_pairs ps) ≡ false
no_duplicate ps h = has_duplicate-NoRepeat (sort_pairs ps) (sort_pairs-NoRepeat ps h)
