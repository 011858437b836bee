-- ===== src/Cbor/RoundTrip/Numbers.antt =====
-- Numbers, and pairs of numbers, that cbor/encode.go appends: the decoder reads them back.
use murmur_go.Common.{
  ℕ, zero, suc, ◌+◌, ◌^◌, ◌≤◌, ◌≡◌, refl, ◌∙◌, Bool, List, [], ◌++◌, append_assoc, append-nil,
  arith, Result, ok, err, panics, crashed, ◌>>◌, Ensures, returned, refused, Ensures-if,
  Ensures-bind, Ensures-weaken, leb, ltb, ltb-false→le, leb-false→lt,
}
use murmur_go.Common.Int.{ℤ, pos, negsuc}
use murmur_go.Cbor.Value.{Value, Values, int, array, nil, cons, count}
use murmur_go.Cbor.Errors.{EncodeError}
use murmur_go.Cbor.Head.{head_bytes}
use murmur_go.Cbor.Encode.{max_depth, Buffer, head, integer, int_pair, guard_depth}
use murmur_go.Cbor.Wire.{size, size_items}
use murmur_go.Cbor.RoundTrip.Maps.{Reads}
use murmur_go.Cbor.RoundTrip.Strings
use murmur_go.Cbor.RoundTrip.Strings.{ReadsItems}

-- The guard refuses, or there is room.
pub guard_depth-Ensures :
    {A : Type 0} (P : ℕ → A → Type 0) (depth room : ℕ) {r : Result EncodeError A}
    → depth + room ≡ max_depth + 1
    → ((below : ℕ) → depth + suc below ≡ max_depth + 1 → Ensures (P (suc below)) r)
    → Ensures (P room) (guard_depth depth r)
guard_depth-Ensures P depth zero h k =
    Ensures-if (ltb max_depth depth) (λ _. refused)
      (λ e. absurd (omega (arith, ltb-false→le max_depth depth e)))
guard_depth-Ensures P depth (suc below) h k =
    Ensures-if (ltb max_depth depth) (λ _. refused) (λ _. k below h)

pub size-pos : (v : Value) → 1 ≤ size v
unfolding size
size-pos (int n) = omega arith
size-pos _ = omega arith

pub count-le-size_items : (vs : Values) → count vs ≤ size_items vs
unfolding size
count-le-size_items nil = omega arith
count-le-size_items (cons v vs) = omega (arith, size-pos v, count-le-size_items vs)

-- A check in front of what follows it.
pub check-Appends :
    {P : Buffer → Type 0} {r : Result EncodeError Buffer} (c : Result EncodeError (Unit {0}))
    → (c ≡ ok tt → Ensures P r)
    → Ensures P (c >> r)
check-Appends (ok _) h = h refl
check-Appends (err _) h = refused
check-Appends panics h = crashed

module _ (is_nfc : List ℕ → Bool) where
  -- What is appended to `buf` reads back as `v`.
  abbrev pub Appends : Value → ℕ → Buffer → ℕ → Buffer → Type 0
  Appends v n buf room out = (bs : List ℕ) × (out ≡ buf ++ bs) × Reads is_nfc room bs v n

  pub integer-Appends :
      (n : ℤ) (room : ℕ) (buf : Buffer) → Ensures (Appends (int n) 1 buf (suc room)) (integer n buf)
  unfolding integer head
  integer-Appends (pos n) room buf =
      Ensures-if (leb (2 ^ 64) n) (λ _. refused)
        (λ e.
          returned
            (head_bytes 0 n, refl, Strings.Reads-int is_nfc room n (leb-false→lt (2 ^ 64) n e)))
  integer-Appends (negsuc k) room buf =
      Ensures-if (leb (2 ^ 64) k) (λ _. refused)
        (λ e.
          returned (
            head_bytes 1 k,
            refl,
            Strings.Reads-negative is_nfc room k (leb-false→lt (2 ^ 64) k e),
          ))

  pub int_pair-Appends :
      (a b : ℤ) (depth room : ℕ) (buf : Buffer)
      → depth + suc room ≡ max_depth + 1
      → Ensures
          (Appends (array (cons (int a) (cons (int b) nil))) 3 buf (suc room))
          (int_pair a b depth buf)
  unfolding int_pair head
  int_pair-Appends a b depth room buf h =
      guard_depth-Ensures (λ r. Appends (array (cons (int a) (cons (int b) nil))) 3 buf (suc r))
        (depth + 1) room (omega arith)
        λ below _.
          Ensures-bind (integer-Appends a below (buf ++ head_bytes 4 2)) λ out (cs, ea, ra).
            Ensures-weaken
              (λ out' (bs, eb, rb). (
                head_bytes 4 2 ++ (cs ++ (bs ++ [])),
                eb ∙ rw (ea, append-nil) (simp append_assoc),
                Strings.Reads-array is_nfc (suc below) (cs ++ (bs ++ []))
                    (cons (int a) (cons (int b) nil)) 2 2 (omega arith)
                    (Strings.ReadsItems-cons is_nfc (suc below) cs (bs ++ []) (int a)
                      (cons (int b) nil) 1 1 1 ra
                      (Strings.ReadsItems-cons is_nfc (suc below) bs [] (int b) nil 0 1 0 rb
                        (Strings.ReadsItems-nil is_nfc (suc below)))),
              ))
              (integer-Appends b below out)
