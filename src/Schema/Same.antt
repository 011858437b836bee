-- ===== src/Schema/Same.antt =====
-- Instances of schema/interpret.go that are the same as Go values: the fields of an instance are a Go map,
-- so their order in the model does not count, at any depth.
pub mod Self
pub mod Reordering
pub mod Setting
pub mod Kinds
pub mod Reading
pub mod Received
use murmur_go.Common.{ℕ, ◌≡◌, Option, none, some, List}
use murmur_go.Common.Int.{ℤ}
use murmur_go.Cbor.Value.{Value}
use murmur_go.Schema.Table.{FieldTable}
use murmur_go.Schema.Instance
use murmur_go.Schema.Instance.{Instance, Fields, Any, Anys, plain, nested, instance_of, get_field}

mutual
  -- The same table and version, and the same value, or none, under every key.
  pub data SameInstance : Instance → Instance → Type 0 where
    same_fields :
        {t : FieldTable} {v : ℤ} {fs gs : Fields}
        → ((key : ℤ) → SameFound (get_field key fs) (get_field key gs))
        → SameInstance (instance_of t v fs) (instance_of t v gs)

  pub data SameFound : Option Any → Option Any → Type 0 where
    both_absent : SameFound none none
    both_there : {a b : Any} → SameAny a b → SameFound (some a) (some b)

  pub data SameAny : Any → Any → Type 0 where
    same_plain : {v : Value} → SameAny (plain v) (plain v)
    same_nested : {i j : Instance} → SameInstance i j → SameAny (nested i) (nested j)
    same_array : {xs ys : Anys} → SameItems xs ys → SameAny (Instance.array xs) (Instance.array ys)

  pub data SameItems : Anys → Anys → Type 0 where
    no_items : SameItems Instance.nil Instance.nil
    one_item :
        {a b : Any} {xs ys : Anys}
        → SameAny a b
        → SameItems xs ys
        → SameItems (Instance.cons a xs) (Instance.cons b ys)
