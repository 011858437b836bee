-- ===== src/Conformance.antt =====
-- The conformance runner: the shared vectors against the codec, the content address, the envelope and
-- the schema layer.
pub mod Hex
pub mod Json
pub mod Walk
pub mod Author
pub mod Vector
pub mod Order
pub mod Files
mod Examples
