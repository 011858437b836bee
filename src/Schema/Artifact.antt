-- ===== src/Schema/Artifact.antt =====
-- From the bytes of an artifact to its instance and back: cbor/decode.go with schema/interpret.go.
use murmur_go.Common.{ℕ, ◌≡◌, ◌≤◌, ◌∙◌, ap, Bool, List, length, All, ok}
use murmur_go.Cbor.Value.{Value}
use murmur_go.Cbor.Head.Form.{IsByte}
use murmur_go.Cbor.Encode.{encode}
use murmur_go.Cbor.Decode.{decode, max_alloc}
use murmur_go.Cbor.Canonicity.{encode-decode}
use murmur_go.Cbor.Unique.{encode-Distinct}
use murmur_go.Schema.Table.{FieldTable}
use murmur_go.Schema.Registry.{Registry}
use murmur_go.Schema.Instance.{Instance}
use murmur_go.Schema.Interpret.{interpret}
use murmur_go.Schema.Untyped.{untyped}
use murmur_go.Schema.Faithful.{untyped-interpret}

-- Of bytes, no longer than a slice can be, that Decode reads and Interpret then accepts under some
-- table, the instance determines every byte: Encode writes the instance, with its types taken off,
-- as exactly the bytes that were read. So no artifact has a second accepted byte form.
pub encode-untyped :
    (is_nfc : List ℕ → Bool) (input : List ℕ) (v : Value) (table : FieldTable) (reg : Registry)
    (inst : Instance)
    → All IsByte input
    → length input ≤ max_alloc
    → decode is_nfc input ≡ ok v
    → interpret table v reg ≡ ok inst
    → encode is_nfc (untyped inst) ≡ ok input
encode-untyped is_nfc input v table reg inst hb hs hd hi =
    let back = encode-decode is_nfc input v hb hs hd in
    let same = untyped-interpret table v reg inst (encode-Distinct is_nfc v input back) hi in
    ap (encode is_nfc) same ∙ back
