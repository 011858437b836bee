-- ===== src/Cbor/Wire.antt =====
-- What the bytes of a value say without a schema: a decimal or a rational is an array of two integers,
-- and the entries of a map stand in the order of their encoded keys.
use murmur_go.Common.{ℕ, ◌+◌, List, [], ◌∷◌, ◌++◌, length}
use murmur_go.Common.Int.{pos, negsuc}
use murmur_go.Cbor.Value.{
  Value, Values, Entries, int, bytes, text, bool, array, map, decimal, rational, nil, cons, end,
  entry,
}
use murmur_go.Cbor.Head.{head_bytes}
use murmur_go.Cbor.Order.{sort_by}

-- The data items in the encoding of a value, which MaxItems bounds.
unfoldable mutual
  pub size : Value → ℕ
  size (int n) = 1
  size (bytes b) = 1
  size (text s) = 1
  size (bool b) = 1
  size (array vs) = 1 + size_items vs
  size (map es) = 1 + size_entries es
  size (decimal s m) = 3
  size (rational n d) = 3

  pub size_items : Values → ℕ
  size_items nil = 0
  size_items (cons v vs) = size v + size_items vs

  pub size_entries : Entries → ℕ
  size_entries end = 0
  size_entries (entry k v es) = size k + size v + size_entries es

-- The encoding of a key, which is an integer or a text.
unfoldable pub key_bytes : Value → List ℕ
key_bytes (int (pos n)) = head_bytes 0 n
key_bytes (int (negsuc k)) = head_bytes 1 k
key_bytes (text s) = head_bytes 3 (length s) ++ s
key_bytes _ = []

pub record Field : Type 0 where
  pub bytes_of_key : List ℕ
  pub key : Value
  pub val : Value

unfoldable pub to_entries : List Field → Entries
to_entries [] = end
to_entries (f ∷ fs) = entry f.key f.val (to_entries fs)

unfoldable mutual
  pub wire : Value → Value
  wire (int n) = int n
  wire (bytes b) = bytes b
  wire (text s) = text s
  wire (bool b) = bool b
  wire (array vs) = array (wire_items vs)
  wire (map es) = map (to_entries (sort_by (λ f. f.bytes_of_key) (wire_fields es)))
  wire (decimal s m) = array (cons (int s) (cons (int m) nil))
  wire (rational n d) = array (cons (int n) (cons (int d) nil))

  pub wire_items : Values → Values
  wire_items nil = nil
  wire_items (cons v vs) = cons (wire v) (wire_items vs)

  pub wire_fields : Entries → List Field
  wire_fields end = []
  wire_fields (entry k v es) =
      record { bytes_of_key = key_bytes k; key = wire k; val = wire v } ∷ wire_fields es
