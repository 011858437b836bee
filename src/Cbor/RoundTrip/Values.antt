-- ===== src/Cbor/RoundTrip/Values.antt =====
-- Every value of cbor/encode.go, by induction: what the encoder appends for it, the decoder reads back.
use murmur_go.Common.{
  ℕ, ◌+◌, ◌≡◌, refl, sym, ◌∙◌, Bool, true, false, Option, none, some, List, [], ◌∷◌, ◌++◌,
  append_assoc, append-nil, arith, length, Ensures, returned, Ensures-bind, Ensures-weaken,
  Ensures-both,
}
use murmur_go.Cbor.Value.{
  Value, Values, Entries, int, bytes, text, bool, array, map, decimal, rational, nil, cons, end,
  entry, count,
}
use murmur_go.Cbor.Canonical.{check_decimal, check_rational}
use murmur_go.Cbor.Head.{head_bytes}
use murmur_go.Cbor.Text.{validate_text}
use murmur_go.Cbor.Encode.{max_depth, Buffer, head, value, array_items, encode_entries}
use murmur_go.Cbor.Wire.{wire, wire_items, size, size_items}
use murmur_go.Cbor.RoundTrip.Maps.{key_kind-Ensures}
use murmur_go.Cbor.RoundTrip.Strings
use murmur_go.Cbor.RoundTrip.Strings.{ReadsItems}
use murmur_go.Cbor.RoundTrip.Numbers.{
  guard_depth-Ensures, count-le-size_items, Appends, check-Appends, integer-Appends,
  int_pair-Appends,
}
use murmur_go.Cbor.RoundTrip.Fields.{
  Fields, Fields-end, Fields-entry, key_bytes-Ensures, write_map-Appends,
}

module _ (is_nfc : List ℕ → Bool) where
  mutual
    unfolding value wire size head

    pub value-Appends :
        (v : Value) (depth room : ℕ) (buf : Buffer)
        → depth + room ≡ max_depth + 1
        → Ensures (Appends is_nfc (wire v) (size v) buf room) (value is_nfc v depth buf)
    value-Appends (int n) depth room buf h =
        guard_depth-Ensures (Appends is_nfc (int n) 1 buf) depth room h
          λ r _. integer-Appends is_nfc n r buf
    value-Appends (bytes b) depth room buf h =
        guard_depth-Ensures (Appends is_nfc (bytes b) 1 buf) depth room h λ r _. returned (
          head_bytes 2 (length b) ++ b,
          append_assoc buf (head_bytes 2 (length b)) b,
          Strings.Reads-bytes is_nfc r b,
        )
    value-Appends (text s) depth room buf h =
        guard_depth-Ensures (Appends is_nfc (text s) 1 buf) depth room h λ r _.
          check-Appends (validate_text is_nfc s) λ valid. returned (
            head_bytes 3 (length s) ++ s,
            append_assoc buf (head_bytes 3 (length s)) s,
            Strings.Reads-text is_nfc r s valid,
          )
    value-Appends (bool true) depth room buf h =
        guard_depth-Ensures (Appends is_nfc (bool true) 1 buf) depth room h
          λ r _. returned (0xf5 ∷ [], refl, Strings.Reads-true is_nfc r)
    value-Appends (bool false) depth room buf h =
        guard_depth-Ensures (Appends is_nfc (bool false) 1 buf) depth room h
          λ r _. returned (0xf4 ∷ [], refl, Strings.Reads-false is_nfc r)
    value-Appends (array vs) depth room buf h =
        guard_depth-Ensures (Appends is_nfc (array (wire_items vs)) (1 + size_items vs) buf) depth
          room h
          λ r hr.
            Ensures-weaken
              (λ out (bs, e, reads). (
                head_bytes 4 (count vs) ++ bs,
                e ∙ append_assoc buf (head_bytes 4 (count vs)) bs,
                Strings.Reads-array is_nfc r bs (wire_items vs) (count vs) (size_items vs)
                    (count-le-size_items vs) reads,
              ))
              (items-Appends vs (depth + 1) r (head 4 (count vs) buf) (omega arith))
    value-Appends (map es) depth room buf h =
        guard_depth-Ensures (Appends is_nfc (wire (map es)) (size (map es)) buf) depth room h
          λ r hr.
            Ensures-bind (entries-Appends es (depth + 1) r none (omega arith))
              λ ps f. write_map-Appends is_nfc es r buf f
    value-Appends (decimal s m) depth room buf h =
        guard_depth-Ensures (Appends is_nfc (wire (decimal s m)) 3 buf) depth room h λ r hr.
          check-Appends (check_decimal (some s) (some m))
            (λ _. int_pair-Appends is_nfc s m depth r buf hr)
    value-Appends (rational n d) depth room buf h =
        guard_depth-Ensures (Appends is_nfc (wire (rational n d)) 3 buf) depth room h λ r hr.
          check-Appends (check_rational (some n) (some d))
            (λ _. int_pair-Appends is_nfc n d depth r buf hr)

    items-Appends :
        (vs : Values) (depth room : ℕ) (buf : Buffer)
        → depth + room ≡ max_depth + 1
        → Ensures
            (λ out.
              (bs : List ℕ) × (out ≡ buf ++ bs)
              × ReadsItems is_nfc room bs (wire_items vs) (count vs) (size_items vs))
            (array_items is_nfc vs depth buf)
    items-Appends nil depth room buf h =
        returned ([], sym (append-nil buf), Strings.ReadsItems-nil is_nfc room)
    items-Appends (cons v vs) depth room buf h =
        Ensures-bind (value-Appends v depth room buf h) λ out (b, e, reads).
          Ensures-weaken
            (λ out' (bs, e', reads'). (
              b ++ bs,
              e' ∙ rw (e, append_assoc),
              Strings.ReadsItems-cons is_nfc room b bs (wire v) (wire_items vs) (count vs) (size v)
                  (size_items vs) reads reads',
            ))
            (items-Appends vs depth room out h)

    entries-Appends :
        (es : Entries) (depth room : ℕ) (kind : Option Bool)
        → depth + room ≡ max_depth + 1
        → Ensures (Fields is_nfc es room kind) (encode_entries is_nfc es depth kind)
    entries-Appends end depth room kind h = returned (Fields-end is_nfc room kind)
    entries-Appends (entry k v es) depth room kind h =
        Ensures-bind (key_kind-Ensures k kind) λ t (is, agrees).
          Ensures-bind
            (Ensures-both (value-Appends k depth room [] h) (key_bytes-Ensures is_nfc t k depth is))
            λ kb ((kb', ek, rk), same).
              Ensures-bind (value-Appends v depth room [] h) λ vb (vb', ev, rv).
                Ensures-bind (entries-Appends es depth room (some t) h) λ ps f. returned (
                  Fields-entry is_nfc k v es room kind t kb vb ps is agrees same (rw ek rk)
                    (rw ev rv) f)
