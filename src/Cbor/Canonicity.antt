-- ===== src/Cbor/Canonicity.antt =====
-- What cbor/decode.go accepts is what cbor/encode.go writes.
pub mod Loops
pub mod Items
use murmur_go.Common.{
  ℕ, suc, ◌+◌, ◌^◌, ◌≤◌, ◌<◌, ◌≡◌, refl, sym, ap, ◌∙◌, Bool, true, false, List, [], ◌∷◌, ◌++◌,
  append-nil, arith, length, All, ok, Ensures, returned, refused, crashed, Ensures-ok, Ensures-bind,
  Ensures-if, ◌==◌, not, ==_iff, not-false→true, eq-nil_of_length, length-append,
}
use murmur_go.Cbor.Value.{Value}
use murmur_go.Cbor.Head.Form.{IsByte}
use murmur_go.Cbor.Decode.{decode, item, max_alloc}
use murmur_go.Cbor.Decode.Reading.{Fits}
use murmur_go.Cbor.Encode.{encode, value, max_depth}
use Items.{item-Ensures}

-- Where the position has come to the end, nothing is left.
all_read : (input bs rest : List ℕ) → input ≡ bs ++ rest → length bs ≡ length input → bs ≡ input
all_read input bs rest e size =
    let nothing_left : rest ≡ [] =
      eq-nil_of_length rest (omega (arith, ap length e, length-append bs rest)) in
    sym (e ∙ rw (nothing_left, append-nil))

module _ (is_nfc : List ℕ → Bool) where
  decode-Ensures :
      (input : List ℕ)
      → All IsByte input
      → length input ≤ max_alloc
      → Ensures (λ v. encode is_nfc v ≡ ok input) (decode is_nfc input)
  unfolding decode encode
  decode-Ensures input hb hs =
      Ensures-bind
        (item-Ensures is_nfc (max_depth + 1) _ (record { are_bytes = hb; short = omega arith }))
        λ (v, d) (bs, c, enc).
          Ensures-if (not (d.pos == length input)) (λ _. refused)
            λ e.
              let ended : d.pos ≡ length input =
                (==_iff d.pos (length input)).0 (not-false→true (d.pos == length input) e) in
              returned (
                enc 0 [] refl
                ∙ ap ok (all_read input bs d.rest c.split (omega (arith, ended, c.moved))))

  -- A decoder that accepts an input has found the one canonical form of the value: whatever `Decode`
  -- returns for a slice of bytes no longer than a slice can be, `Encode` writes back as that input.
  pub encode-decode :
      (input : List ℕ) (v : Value)
      → All IsByte input
      → length input ≤ max_alloc
      → decode is_nfc input ≡ ok v
      → encode is_nfc v ≡ ok input
  encode-decode input v hb hs h = Ensures-ok (decode-Ensures input hb hs) h
