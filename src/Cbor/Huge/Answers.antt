-- ===== src/Cbor/Huge/Answers.antt =====
-- The calls of cbor/decode.go that make no slice.
use murmur_go.Common.{
  ℕ, zero, suc, [], ◌∷◌, length, ◌≤◌, arith, ltb-false→le, ◌+◌, ◌^◌, Bool, true, false, not, ◌||◌,
  none, some, List, ltb, ◌==◌, ok, err, Crashes, answered, declined, Crashes-if, Crashes-bind,
  map_err-Crashes, anything,
}
use murmur_go.Cbor.Value.{Value, int, text}
use murmur_go.Cbor.Errors.{DecodeError}
use murmur_go.Cbor.Order.{compare_bytes}
use murmur_go.Cbor.Text.{validate_text, valid_string, has_byte_order_mark}
use murmur_go.Cbor.Decode.{
  Decoder, Previous, data_length, take_loop, take_uint, long_arg, read_arg, simple, check_key_kind,
  check_key_order, check_text,
}
use Prim.Native.Nat.{Ordering}

pub check_key_kind-Crashes :
    {Q : Type 0} (k : Value) (prev : Previous) (p : ℕ) → Crashes Q (check_key_kind k prev p)
unfolding check_key_kind
check_key_kind-Crashes (int n) none p = answered
check_key_kind-Crashes (int n) (some (true, key)) p = declined
check_key_kind-Crashes (int n) (some (false, key)) p = answered
check_key_kind-Crashes (text s) none p = answered
check_key_kind-Crashes (text s) (some (true, key)) p = answered
check_key_kind-Crashes (text s) (some (false, key)) p = declined
check_key_kind-Crashes _ _ p = declined

pub compared-Crashes :
    {Q : Type 0} (o : Ordering) (e e' : DecodeError)
    → Crashes Q (elim o [ Ordering.lt ↦ ok tt | Ordering.eq ↦ err e | Ordering.gt ↦ err e' ])
compared-Crashes Ordering.lt e e' = answered
compared-Crashes Ordering.eq e e' = declined
compared-Crashes Ordering.gt e e' = declined

pub check_key_order-Crashes :
    {Q : Type 0} (prev : Previous) (key : List ℕ) (p : ℕ) → Crashes Q (check_key_order prev key p)
unfolding check_key_order
check_key_order-Crashes none key p = answered
check_key_order-Crashes (some (t, before)) key p = compared-Crashes (compare_bytes before key) _ _

-- No index of the loop is behind the data, where enough data is left.
take_loop-Crashes :
    {Q : Type 0} (n : ℕ) (bs : List ℕ) (v : ℕ) → n ≤ length bs → Crashes Q (take_loop n bs v)
unfolding take_loop
take_loop-Crashes zero bs v h = answered
take_loop-Crashes (suc n) [] v h = absurd (omega (arith, h))
take_loop-Crashes (suc n) (b ∷ bs) v h = take_loop-Crashes n bs _ (omega (arith, h))

pub take_uint-Crashes : {Q : Type 0} (n p : ℕ) (d : Decoder) → Crashes Q (take_uint n p d)
unfolding take_uint
take_uint-Crashes n p d =
    Crashes-if (ltb (data_length d) (d.pos + n)) (λ _. declined)
      λ long.
        Crashes-bind
          (take_loop-Crashes n d.rest 0
            (omega (arith, ltb-false→le (data_length d) (d.pos + n) long)))
          (anything (take_loop n d.rest 0)) (λ v _. answered)

pub long_arg-Crashes : {Q : Type 0} (n least p : ℕ) (d : Decoder) → Crashes Q (long_arg n least p d)
unfolding long_arg
long_arg-Crashes n least p d =
    Crashes-bind (take_uint-Crashes n p d) (anything (take_uint n p d))
      λ (v, d₁) _. Crashes-if (ltb v least) (λ _. declined) (λ _. answered)

pub read_arg-Crashes : {Q : Type 0} (ai p : ℕ) (d : Decoder) → Crashes Q (read_arg ai p d)
unfolding read_arg
read_arg-Crashes ai p d =
    Crashes-if (ltb ai 24) (λ _. answered)
      λ _.
        Crashes-if (ai == 24) (λ _. long_arg-Crashes 1 24 p d)
          λ _.
            Crashes-if (ai == 25) (λ _. long_arg-Crashes 2 (2 ^ 8) p d)
              λ _.
                Crashes-if (ai == 26) (λ _. long_arg-Crashes 4 (2 ^ 16) p d)
                  λ _.
                    Crashes-if (ai == 27) (λ _. long_arg-Crashes 8 (2 ^ 32) p d)
                      λ _. Crashes-if (ai == 31) (λ _. declined) (λ _. declined)

pub simple-Crashes : {Q : Type 0} (ai : ℕ) (d : Decoder) → Crashes Q (simple ai d)
unfolding simple
simple-Crashes ai d =
    Crashes-if (ai == 20) (λ _. answered)
      λ _.
        Crashes-if (ai == 21) (λ _. answered)
          λ _.
            Crashes-if (ai == 22 || ai == 23) (λ _. declined)
              λ _.
                Crashes-if (ai == 25 || ai == 26 || ai == 27) (λ _. declined)
                  λ _. Crashes-if (ai == 31) (λ _. declined) (λ _. declined)

pub check_text-Crashes :
    {Q : Type 0} (is_nfc : List ℕ → Bool) (s : List ℕ) (p : ℕ) → Crashes Q (check_text is_nfc s p)
unfolding check_text validate_text
check_text-Crashes is_nfc s p = map_err-Crashes _ (
    Crashes-if (not (valid_string s)) (λ _. declined)
      λ _.
        Crashes-if (has_byte_order_mark s) (λ _. declined)
          λ _. Crashes-if (not (is_nfc s)) (λ _. declined) (λ _. answered))
