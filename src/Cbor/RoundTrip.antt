-- ===== src/Cbor/RoundTrip.antt =====
-- What cbor/encode.go writes, cbor/decode.go reads back.
pub mod Sorting
pub mod Heads
mod Maps
mod Strings
mod Numbers
mod Fields
mod Values
use murmur_go.Common.{
  ℕ, suc, ◌+◌, ◌≤◌, ◌<◌, ◌≡◌, ◌≢◌, sym, ap, Bool, List, [], ◌∷◌, ◌++◌, append-nil, arith, length,
  length-append, ok, Ensures-ok, ne→==, eq→==, refl, ◌==◌, true, subst,
}
use murmur_go.Cbor.Value.{Value}
use murmur_go.Cbor.Errors
use murmur_go.Cbor.Errors.{fail}
use murmur_go.Cbor.Encode.{encode, max_depth}
use murmur_go.Cbor.Decode.{decode, item, max_alloc, max_items}
use murmur_go.Cbor.Wire.{wire, size}
use native.Mathlib.Nat.{zero-add}
use Heads.{at}
use Maps.{Reads}
use Values.{value-Appends}

module _ (is_nfc : List ℕ → Bool) where
  encode-Reads :
      (v : Value) (bs : List ℕ)
      → encode is_nfc v ≡ ok bs
      → Reads is_nfc (max_depth + 1) bs (wire v) (size v)
  unfolding encode
  encode-Reads v bs e =
      let (cs, same, reads) =
        Ensures-ok (value-Appends is_nfc v 0 (max_depth + 1) [] (omega arith)) e in
      subst (λ t. Reads is_nfc (max_depth + 1) t (wire v) (size v)) (sym same) reads

  -- `item` at the start of the data.
  item-encode :
      (v : Value) (bs more : List ℕ)
      → encode is_nfc v ≡ ok bs
      → length (bs ++ more) ≤ max_alloc
      → size v ≤ max_items
      → item is_nfc (max_depth + 1) (at 0 0 (bs ++ more))
        ≡ ok (wire v, at (length bs) (size v) more)
  item-encode v bs more e fits few =
      rw (zero-add (length bs), zero-add (size v)) at
        (encode-Reads v bs e more 0 0 (omega (arith, fits)) (omega (arith, few)))

  -- The round trip: what `Encode` writes for a value of at most MaxItems items, and no longer than a
  -- slice can be, `Decode` reads back as that value, with its decimals and rationals as pairs of
  -- integers and the entries of its maps in the order of their encoded keys.
  pub decode-encode :
      (v : Value) (bs : List ℕ)
      → encode is_nfc v ≡ ok bs
      → length bs ≤ max_alloc
      → size v ≤ max_items
      → decode is_nfc bs ≡ ok (wire v)
  unfolding decode
  decode-encode v bs e fits few =
      let read = rw (append-nil bs) at (item-encode v bs [] e (rw (append-nil bs) fits) few) in
      rw read (rw (eq→== (length bs) (length bs) refl))

  -- Whatever rides behind an encoded value is refused, at the place where it begins.
  pub decode-trailing :
      (v : Value) (bs : List ℕ) (x : ℕ) (more : List ℕ)
      → encode is_nfc v ≡ ok bs
      → length (bs ++ x ∷ more) ≤ max_alloc
      → size v ≤ max_items
      → decode is_nfc (bs ++ x ∷ more) ≡ fail Errors.trailing_bytes (length bs)
  unfolding decode
  decode-trailing v bs x more e fits few = rw (item-encode v bs (x ∷ more) e fits few) (
      rw (ne→== (length bs) (length (bs ++ x ∷ more)) (omega (arith, length-append bs (x ∷ more)))))
