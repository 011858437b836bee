-- ===== src/ContentId.antt =====
-- contentid/contentid.go: the content address of canonical bytes. crypto/sha256 is a parameter.
pub mod Examples
use murmur_go.Common.{ℕ, ◌≡◌, ◌≤◌, sym, ap, ◌∙◌, Bool, List, length, All, ok}
use murmur_go.Cbor.Value.{Value}
use murmur_go.Cbor.Head.Form.{IsByte}
use murmur_go.Cbor.Decode.{decode, max_alloc}
use murmur_go.Schema.Table.{FieldTable}
use murmur_go.Schema.Registry.{Registry}
use murmur_go.Schema.Instance.{Instance}
use murmur_go.Schema.Interpret.{interpret}
use murmur_go.Schema.Artifact.{encode-untyped}

module _ (sum256 : List ℕ → List ℕ) where
  unfoldable pub sum : List ℕ → List ℕ
  sum canonical = sum256 canonical
