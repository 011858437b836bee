-- ===== src/Schema/Same/Received.antt =====
-- From instances of schema/interpret.go that are the same as Go values back to values and bytes.
use murmur_go.Common.{ℕ, ◌≡◌, ◌≤◌, sym, Bool, List, length, All, ok, subst}
use murmur_go.Cbor.Value.{Value}
use murmur_go.Cbor.Head.Form.{IsByte}
use murmur_go.Cbor.Decode.{decode, max_alloc}
use murmur_go.Cbor.Canonicity.{encode-decode}
use murmur_go.Cbor.Keys.{Distinct}
use murmur_go.Cbor.Reorder.{Reordered, encode-Reordered}
use murmur_go.Cbor.Unique.{encode-Distinct}
use murmur_go.Schema.Table.{FieldTable}
use murmur_go.Schema.Registry.{Registry}
use murmur_go.Schema.Instance.{Instance}
use murmur_go.Schema.Interpret.{interpret}
use murmur_go.Schema.Untyped.{untyped}
use murmur_go.Schema.Faithful.{untyped-interpret}
use murmur_go.Schema.Same.{SameInstance}
use murmur_go.Schema.Same.Reordering.{SameInstance-Reordered}

-- Two values without repeated keys that Interpret makes the same instance of, as Go values and under whatever
-- registries, differ at most in the order of the entries of their maps, at any depth.
pub interpret-Reordered :
    (s t : FieldTable) (v w : Value) (r q : Registry) (i j : Instance)
    → Distinct v
    → Distinct w
    → interpret s v r ≡ ok i
    → interpret t w q ≡ ok j
    → SameInstance i j
    → Reordered v w
interpret-Reordered s t v w r q i j dv dw hi hj same =
    let back_v = untyped-interpret s v r i dv hi in
    let back_w = untyped-interpret t w q j dw hj in
    subst (λ x. Reordered x w) back_v
      (subst (λ x. Reordered (untyped i) x) back_w
        (SameInstance-Reordered same (subst Distinct (sym back_v) dv)
          (subst Distinct (sym back_w) dw)))

-- An artifact as it is received: bytes that a slice can hold, that Decode reads, and that Interpret
-- accepts under a table as the instance.
pub record Received (is_nfc : List ℕ → Bool) (input : List ℕ) (inst : Instance) : Type 0 where
  pub are_bytes : All IsByte input
  pub short : length input ≤ max_alloc
  pub value : Value
  pub table : FieldTable
  pub registry : Registry
  pub decoded : decode is_nfc input ≡ ok value
  pub interpreted : interpret table value registry ≡ ok inst

-- Two artifacts, no longer than a slice can be, that Decode and Interpret make the same instance of, as Go
-- values and under whatever registries, are the same bytes.
pub equal_artifacts :
    (is_nfc : List ℕ → Bool) (a b : List ℕ) (i j : Instance)
    → Received is_nfc a i
    → Received is_nfc b j
    → SameInstance i j
    → a ≡ b
equal_artifacts is_nfc a b i j ra rb same =
    let back_a = encode-decode is_nfc a ra.value ra.are_bytes ra.short ra.decoded in
    let back_b = encode-decode is_nfc b rb.value rb.are_bytes rb.short rb.decoded in
    let turned =
      interpret-Reordered ra.table rb.table ra.value rb.value ra.registry rb.registry i j
        (encode-Distinct is_nfc ra.value a back_a) (encode-Distinct is_nfc rb.value b back_b)
        ra.interpreted rb.interpreted same in
    let as_b = encode-Reordered is_nfc ra.value rb.value a turned back_a in cc (as_b, back_b)
