-- ===== src/Lib.antt =====
-- murmur-go, the conformance oracle of the Murmur protocol: its canonical CBOR
-- codec, its schema layer, its envelope, its content address and its conformance runner.
--
-- The program's parts. The package `cbor` turns bytes into structural values and back, and accepts
-- one byte form for each value. `schema` reads a value under a field table, `envelope` signs and
-- verifies claims that pass `cbor`, `contentid` hashes canonical bytes, and `conformance` runs the
-- shared vectors over all of these.
--
-- What models what.
-- - Cbor.Value: cbor/value.go. A slice of values or of map entries is a data type of its own. A big
--   integer is never nil. Byte strings and texts are lists of numbers; what needs bytes says so.
-- - Cbor.Errors: cbor/errors.go, and the strings of the reasons.
-- - Cbor.ErrorText: the texts of `Error()` in cbor/errors.go.
-- - Cbor.Canonical: cbor/canonical.go (`check_decimal`, `check_rational`), with nil as `none`.
--   Below it, Divisors and Numbers hold the proofs about the number that a pair stands for.
-- - Cbor.Text: `validateText` and `textReason`. `utf8.ValidString` is written out.
-- - Cbor.Order: `bytes.Compare`, the stable sort of map entries, and the loop that looks for duplicates.
-- - Cbor.Head, Cbor.Encode: cbor/encode.go. The encoder's buffer is passed from call to call.
-- - Cbor.Decode: cbor/decode.go. The decoder's state is what is left of its data (`data[pos:]`), the
--   position, and the count of items.
-- - Cbor.Canonicity, Cbor.Wire, Cbor.RoundTrip, Cbor.Accepted, Cbor.Panics, Cbor.Huge, Cbor.Bounds,
--   Cbor.Keys, Cbor.Unique, Cbor.Encodable and Cbor.Reorder hold the proofs about the two together.
--   `wire` is what the bytes of a value say without a schema.
-- - Schema.Errors, Schema.Path: the refusals of schema/interpret.go and the paths they carry.
-- - Schema.Table, Schema.Registry: schema/table.go. The registry's map is its list of pairs; it is
--   never nil.
-- - Schema.Floor: schema/floor.go, the three tables held from the start.
-- - Schema.Instance, Schema.Interpret: schema/interpret.go. The Go map of fields is an association list;
--   Schema.Same says which instances are the same Go value.
-- - Schema.FieldTable: schema/fieldtable.go. Of a Go value and error, `to_int` reads nil as `none`.
-- - Schema.Author: the artifact that states a field table, and the proofs about the reading of it.
-- - Schema.Shape, Schema.Dense, Schema.Typing, Schema.Sound, Schema.Untyped, Schema.Faithful,
--   Schema.Accessors, Schema.Same, Schema.Held, Schema.Adds, Schema.Versions, Schema.Settled, Schema.Refusal
--   and Schema.Artifact hold the proofs about the schema layer.
-- - Envelope: envelope/envelope.go, over the functions of crypto/ed25519 that it calls (`Ed25519`).
-- - ContentId: contentid/contentid.go, over the function `sum256`.
-- - Conformance.Json, Conformance.Walk: conformance/value.go, from decoded JSON on.
-- - Conformance.Hex, Conformance.Vector: conformance/conformance.go, its checks, with encoding/hex written
--   out. Conformance.Author and Conformance.Order hold the proofs about values, the modules below Vector
--   those about checks. Conformance.Files: `Files`, with `filepath.Ext` written out, and `Load`.
-- - Common holds what all of these share. A call of Go comes to a value, an error or a panic
--   (`Result`).
--
-- Bounds. `int` has 64 bits, and conversions, sums and comparisons of it wrap as Go's do. `make`
-- panics at a negative size and above 2^48 bytes. The encoder and the interpretation recur on their
-- value, and the decoder on the room that is left below MaxDepth, which is MaxDepth + 1 - depth. Only
-- the digits of a number in a text have fuel: the number and one, and no number has more digits.
--
-- Parameters. The tables of Normalization Form C (golang.org/x/text) are the function `is_nfc`, of
-- which nothing is assumed. Of Ed25519 the theorems that verify a signature made assume the size of public
-- keys and that it verifies what it signed, and the one on vectors that keys and signatures are bytes; of
-- SHA-256 nothing is assumed. `read_json` is the reader of encoding/json on a vector's value. Of the
-- files, `walk_dir` lists the calls that filepath.WalkDir makes, `read_file` is os.ReadFile, and
-- `unmarshal` is json.Unmarshal on a vector; nothing is assumed of them.
--
-- Not modelled: the messages of the schema layer's refusals, and the texts of `Error()` that they end; the
-- panics of Go at a nil big integer in a value, and at a nil registry.
pub mod Common
pub mod Cbor
pub mod Schema
pub mod Envelope
pub mod ContentId
pub mod Conformance
