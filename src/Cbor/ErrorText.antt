-- ===== src/Cbor/ErrorText.antt =====
-- cbor/errors.go: the texts of `Error()`.
pub mod Injective
use murmur_go.Common.{ℕ, suc, String, List, [], ◌++◌}
use murmur_go.Cbor.Errors.{DecodeError, EncodeError, reason_string}
use murmur_go.Schema.Path.{codes, digits}

-- What stands behind the offset: nothing, or the message.
abbrev pub message_text : String → List ℕ
message_text String.[] = []
message_text (String.◌∷◌ c s) = codes ": " ++ codes (String.◌∷◌ c s)

unfoldable pub decode_error_text : DecodeError → List ℕ
decode_error_text e =
    codes "cbor: "
    ++ (codes (reason_string e.reason)
        ++ (codes " at byte " ++ digits (suc e.pos) e.pos (message_text e.msg)))

unfoldable pub encode_error_text : EncodeError → List ℕ
encode_error_text e = codes "cbor: " ++ codes e.msg
