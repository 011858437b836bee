-- ===== src/Cbor.antt =====
-- The package cbor: the owned canonical CBOR codec.
pub mod Value
pub mod Errors
pub mod ErrorText
pub mod Canonical
pub mod Text
pub mod Order
pub mod Head
pub mod Encode
pub mod Decode
pub mod Canonicity
pub mod Wire
pub mod RoundTrip
pub mod Panics
pub mod Keys
pub mod Bounds
pub mod Accepted
pub mod Huge
pub mod Unique
pub mod Encodable
pub mod Reorder
pub mod Examples
