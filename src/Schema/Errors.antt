-- ===== src/Schema/Errors.antt =====
-- The refusals of schema/interpret.go. A refusal keeps its reason and its path; its message, which no
-- code reads, is left out.
use murmur_go.Common.{ℕ, String, List, Result, err}

pub data Reason : Type 0 where
  unknown_field bad_field_key type_mismatch bad_magnitude non_canonical_decimal : Reason
  non_canonical_rational malformed_descriptor malformed_field_table malformed_entry : Reason
  unresolved_ref missing_field : Reason

unfoldable pub reason_string : Reason → String
reason_string unknown_field = "unknown-field-key"
reason_string bad_field_key = "bad-field-key"
reason_string type_mismatch = "type-mismatch"
reason_string bad_magnitude = "bad-magnitude"
reason_string non_canonical_decimal = "non-canonical-decimal"
reason_string non_canonical_rational = "non-canonical-rational"
reason_string malformed_descriptor = "malformed-type-descriptor"
reason_string malformed_field_table = "malformed-field-table"
reason_string malformed_entry = "malformed-entry"
reason_string unresolved_ref = "unresolved-ref"
reason_string missing_field = "missing-required-field"

pub record SchemaError : Type 0 where
  pub reason : Reason
  -- the bytes of `Path`
  pub path : List ℕ

-- `&Error{Reason: reason, Path: path}`.
abbrev pub refuse : {A : Type 0} → Reason → List ℕ → Result SchemaError A
refuse reason path = err (record { reason = reason; path = path })
