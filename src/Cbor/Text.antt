-- ===== src/Cbor/Text.antt =====
-- The text rules of cbor/encode.go and the reasons of cbor/decode.go for them. The Unicode tables
-- behind Normalization Form C come from golang.org/x/text and are the parameter `is_nfc`.
use murmur_go.Common.{
  ℕ, Bool, true, false, not, ◌&&◌, Option, none, some, List, [], ◌∷◌, leb, ltb, ◌==◌, if◌then◌else◌,
  str_eq, Result, ok,
}
use murmur_go.Cbor.Errors.{
  EncodeError, encode_error, Reason, invalid_utf8, byte_order_mark, non_nfc,
}

-- The ranges that the bytes after a lead byte must lie in (`unicode/utf8`); `none` for a byte that
-- starts no character.
unfoldable pub continuation : ℕ → Option (List (ℕ × ℕ))
continuation b =
    if ltb b 0x80
    then some []
    else if ltb b 0xc2
    then none
    else if ltb b 0xe0
    then some ((0x80, 0xbf) ∷ [])
    else if b == 0xe0
    then some ((0xa0, 0xbf) ∷ (0x80, 0xbf) ∷ [])
    else if b == 0xed
    then some ((0x80, 0x9f) ∷ (0x80, 0xbf) ∷ [])
    else if ltb b 0xf0
    then some ((0x80, 0xbf) ∷ (0x80, 0xbf) ∷ [])
    else if b == 0xf0
    then some ((0x90, 0xbf) ∷ (0x80, 0xbf) ∷ (0x80, 0xbf) ∷ [])
    else if ltb b 0xf4
    then some ((0x80, 0xbf) ∷ (0x80, 0xbf) ∷ (0x80, 0xbf) ∷ [])
    else if b == 0xf4
    then some ((0x80, 0x8f) ∷ (0x80, 0xbf) ∷ (0x80, 0xbf) ∷ [])
    else none

-- `pending` is what the character begun still needs.
unfoldable pub utf8_loop : List (ℕ × ℕ) → List ℕ → Bool
unfolding continuation
utf8_loop [] [] = true
utf8_loop ((lo, hi) ∷ pending) [] = false
utf8_loop [] (b ∷ bs) = elim (continuation b) [ none ↦ false | some pending ↦ utf8_loop pending bs ]
utf8_loop ((lo, hi) ∷ pending) (b ∷ bs) = leb lo b && leb b hi && utf8_loop pending bs

-- `utf8.ValidString`.
unfoldable pub valid_string : List ℕ → Bool
unfolding utf8_loop
valid_string = utf8_loop []

-- `len(s) >= 3 && s[0] == 0xEF && s[1] == 0xBB && s[2] == 0xBF`.
unfoldable pub has_byte_order_mark : List ℕ → Bool
has_byte_order_mark (a ∷ b ∷ c ∷ s) = a == 0xef && b == 0xbb && c == 0xbf
has_byte_order_mark _ = false

module _ (is_nfc : List ℕ → Bool) where
  unfoldable pub validate_text : List ℕ → Result EncodeError (Unit {0})
  validate_text s =
      if not (valid_string s)
      then encode_error "text string is not valid UTF-8"
      else if has_byte_order_mark s
      then encode_error "text string carries a byte-order mark"
      else if not (is_nfc s)
      then encode_error "text string is not in Normalization Form C"
      else ok tt

-- `textReason` looks at the message of the error.
unfoldable pub text_reason : EncodeError → Reason
text_reason e =
    if str_eq e.msg "text string is not valid UTF-8"
    then invalid_utf8
    else if str_eq e.msg "text string carries a byte-order mark"
    then byte_order_mark
    else if str_eq e.msg "text string is not in Normalization Form C"
    then non_nfc
    else invalid_utf8
