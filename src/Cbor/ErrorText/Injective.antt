-- ===== src/Cbor/ErrorText/Injective.antt =====
-- What the texts of `Error()` in cbor/errors.go tell.
use murmur_go.Common.{
  ℕ, zero, suc, ◌+◌, ◌-◌, ◌*◌, ◌/◌, ◌%◌, ◌≤◌, ◌<◌, ◌≡◌, refl, sym, ap, ◌∙◌, String, Bool-cases, inl,
  inr, ◌==◌, ltb, leb, lt→ltb, ltb→lt, ltb-false→le, ◌&&◌, if◌then◌else◌, arith, Option, none, some,
  List, [], ◌∷◌, ◌++◌, drop,
}
use murmur_go.Cbor.Errors
use murmur_go.Cbor.Errors.{Reason, reason_string, DecodeError}
use murmur_go.Cbor.ErrorText.{message_text, decode_error_text}
use murmur_go.Schema.Path.{codes, digits}

-- What is behind a text, if another starts with it.
behind : List ℕ → List ℕ → Option (List ℕ)
behind [] s = some s
behind (c ∷ cs) [] = none
behind (c ∷ cs) (d ∷ s) = if c == d then behind cs s else none

-- The reason of the list that a text starts with, a space behind it.
read_reason : List Reason → List ℕ → Option (Reason × List ℕ)
read_reason [] s = none
read_reason (r ∷ rs) s = elim (behind (codes (reason_string r) ++ b' ' ∷ []) s) [
  | some rest ↦ some (r, rest)
  | none ↦ read_reason rs s
]

abbrev reasons : List Reason
reasons =
    Errors.non_minimal ∷ Errors.indefinite_length ∷ Errors.trailing_bytes ∷ Errors.duplicate_map_key
    ∷ Errors.unsorted_map_keys ∷ Errors.mixed_map_keys ∷ Errors.bad_map_key_type ∷ Errors.tag
    ∷ Errors.float ∷ Errors.null ∷ Errors.simple_value ∷ Errors.reserved_additional
    ∷ Errors.truncated ∷ Errors.invalid_utf8 ∷ Errors.byte_order_mark ∷ Errors.non_nfc
    ∷ Errors.depth_exceeded ∷ Errors.size_exceeded ∷ []

read_reason-reason_string :
    (r : Reason) (s : List ℕ)
    → read_reason reasons (codes (reason_string r) ++ b' ' ∷ s) ≡ some (r, s)
unfolding read_reason behind reason_string
read_reason-reason_string Errors.non_minimal s = refl
read_reason-reason_string _ s = refl

-- The number that a text starts with, and what is behind it.
read_number : List ℕ → ℕ → ℕ × List ℕ
read_number [] n = (n, [])
read_number (c ∷ s) n =
    let more = read_number s (n * 10 + (c - b'0')) in
    if leb b'0' c && leb c b'9' then more else (n, c ∷ s)

read_one : (n : ℕ) (rest : List ℕ) → n < 10 → read_number ((48 + n) ∷ rest) 0 ≡ read_number rest n
unfolding read_number
read_one n rest h = ground arith

read_last :
    (n : ℕ) (rest : List ℕ) → read_number ((48 + n % 10) ∷ rest) (n / 10) ≡ read_number rest n
unfolding read_number
read_last n rest = ground arith

read_number-digits :
    (f n : ℕ) (rest : List ℕ) → n ≤ f → read_number (digits (suc f) n rest) 0 ≡ read_number rest n
unfolding digits
read_number-digits zero n rest h = rw (lt→ltb n 10 (omega arith)) (read_one n rest (omega arith))
read_number-digits (suc f) n rest h = elim (Bool-cases (ltb n 10)) [
  | inl small ↦ rw small (read_one n rest (ltb→lt n 10 small))
  | inr large ↦
      let big = ltb-false→le n 10 large in
      rw large (
        read_number-digits f (n / 10) ((48 + n % 10) ∷ rest) (omega (arith, big))
        ∙ read_last n rest)
]

-- No message starts with a digit.
read_number-message_text :
    (m : String) (n : ℕ) → read_number (message_text m) n ≡ (n, message_text m)
unfolding read_number
read_number-message_text String.[] n = refl
read_number-message_text (String.◌∷◌ c s) n = refl

message_text_back : (m k : String) → message_text m ≡ message_text k → codes m ≡ codes k
message_text_back String.[] String.[] h = refl
message_text_back String.[] (String.◌∷◌ c s) h = absurd (cc)
message_text_back (String.◌∷◌ c s) String.[] h = absurd (cc)
message_text_back (String.◌∷◌ c s) (String.◌∷◌ d t) h = ap (drop 2) h

read_decode_error :
    (e : DecodeError)
    → read_reason reasons (drop 6 (decode_error_text e))
      ≡ some (e.reason, codes "at byte " ++ digits (suc e.pos) e.pos (message_text e.msg))
unfolding decode_error_text
read_decode_error e =
    read_reason-reason_string e.reason
      (codes "at byte " ++ digits (suc e.pos) e.pos (message_text e.msg))

read_offset :
    (e : DecodeError)
    → read_number (digits (suc e.pos) e.pos (message_text e.msg)) 0 ≡ (e.pos, message_text e.msg)
read_offset e =
    read_number-digits e.pos e.pos (message_text e.msg) (omega arith)
    ∙ read_number-message_text e.msg e.pos

both_read :
    {q r : Reason} {s t : List ℕ}
    → ◌≡◌ {A = Option (Reason × List ℕ)} (some (q, s)) (some (r, t))
    → (q ≡ r) × (s ≡ t)
both_read h = (cc, cc)

-- Of two refusals of Decode with the same text of Error(), the reason, the offset and the message are the
-- same.
pub decode_error_text_injective :
    (e f : DecodeError)
    → decode_error_text e ≡ decode_error_text f
    → (e.reason ≡ f.reason) × (e.pos ≡ f.pos) × (codes e.msg ≡ codes f.msg)
decode_error_text_injective e f h =
    let read =
      sym (read_decode_error e)
      ∙ ap (λ s. read_reason reasons (drop 6 s)) h
      ∙ read_decode_error f in
    let (reason, rest) = both_read read in
    let offset = sym (read_offset e) ∙ ap (λ s. read_number (drop 8 s) 0) rest ∙ read_offset f in
    (reason, ap (λ p. p.0) offset, message_text_back e.msg f.msg (ap (λ p. p.1) offset))
