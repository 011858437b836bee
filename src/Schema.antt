-- ===== src/Schema.antt =====
-- The package schema: the interpretation layer above the codec.
pub mod Errors
pub mod Path
pub mod Table
pub mod Registry
pub mod Floor
pub mod Instance
pub mod Interpret
pub mod FieldTable
pub mod Shape
pub mod Dense
pub mod Typing
pub mod Sound
pub mod Untyped
pub mod Faithful
pub mod Same
pub mod Held
pub mod Accessors
pub mod Adds
pub mod Artifact
pub mod Author
pub mod Versions
pub mod Settled
pub mod Refusal
pub mod Examples
