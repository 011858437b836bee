-- ===== src/Schema/Accessors.antt =====
-- What the accessors of schema/interpret.go give of the fields of an instance.
use murmur_go.Common.{ℕ, ◌≡◌, refl, true, Bool, some, List, ok}
use murmur_go.Common.Int.{ℤ, ==ℤ→eq}
use murmur_go.Cbor.Value.{Value, int, bytes, text, bool, decimal, rational}
use murmur_go.Cbor.Canonical.{check_decimal, check_rational}
use murmur_go.Schema.Table.{
  Kind, kind_int, kind_bytes, kind_text, kind_bool, kind_decimal, kind_rational, kind_array,
  kind_ref, kind_of, TypeDescriptor, descriptor, Entry, FieldTable, entry_by_key,
}
use murmur_go.Schema.Registry.{Registry}
use murmur_go.Schema.Instance
use murmur_go.Schema.Instance.{
  Instance, Anys, Any, plain, nested, fields_of, instance_of, get_field, has, get_int, get_text,
  get_bool, get_bytes, get_decimal, get_rational, get_ref, get_array,
}
use murmur_go.Schema.Interpret.{interpret}
use murmur_go.Schema.Typing.{
  HasType, int_typed, bytes_typed, text_typed, bool_typed, decimal_typed, rational_typed,
  array_typed, ref_typed, items_typed, fields_typed,
}
use murmur_go.Schema.Sound.{Interpreted, interpreted, interpret-Interpreted}
use murmur_go.Schema.Author.FieldLaws.{get_field-HasType, present_found}

-- The accessor of the kind gives the value of the field, and a canonical one of a magnitude.
pub data Given (inst : Instance) (key : ℤ) (k : Kind) : Type 0 where
  int_given : {n : ℤ} → k ≡ kind_int → get_int inst key ≡ some n → Given inst key k
  bytes_given : {b : List ℕ} → k ≡ kind_bytes → get_bytes inst key ≡ some b → Given inst key k
  text_given : {s : List ℕ} → k ≡ kind_text → get_text inst key ≡ some s → Given inst key k
  bool_given : {b : Bool} → k ≡ kind_bool → get_bool inst key ≡ some b → Given inst key k
  decimal_given :
      {s m : ℤ}
      → k ≡ kind_decimal
      → get_decimal inst key ≡ some (s, m)
      → check_decimal (some s) (some m) ≡ ok tt
      → Given inst key k
  rational_given :
      {n d : ℤ}
      → k ≡ kind_rational
      → get_rational inst key ≡ some (n, d)
      → check_rational (some n) (some d) ≡ ok tt
      → Given inst key k
  array_given : {xs : Anys} → k ≡ kind_array → get_array inst key ≡ some xs → Given inst key k
  ref_given : {i : Instance} → k ≡ kind_ref → get_ref inst key ≡ some i → Given inst key k

module _ (inst : Instance) (key : ℤ) where
  get_int-field :
      {n : ℤ} → get_field key (fields_of inst) ≡ some (plain (int n)) → get_int inst key ≡ some n
  unfolding get_int
  get_int-field h = rw (get_int, h) refl

  get_bytes-field :
      {b : List ℕ}
      → get_field key (fields_of inst) ≡ some (plain (bytes b))
      → get_bytes inst key ≡ some b
  unfolding get_bytes
  get_bytes-field h = rw (get_bytes, h) refl

  pub get_text-field :
      {s : List ℕ}
      → get_field key (fields_of inst) ≡ some (plain (text s))
      → get_text inst key ≡ some s
  unfolding get_text
  get_text-field h = rw (get_text, h) refl

  get_bool-field :
      {b : Bool}
      → get_field key (fields_of inst) ≡ some (plain (bool b))
      → get_bool inst key ≡ some b
  unfolding get_bool
  get_bool-field h = rw (get_bool, h) refl

  get_decimal-field :
      {s m : ℤ}
      → get_field key (fields_of inst) ≡ some (plain (decimal s m))
      → get_decimal inst key ≡ some (s, m)
  unfolding get_decimal
  get_decimal-field h = rw (get_decimal, h) refl

  get_rational-field :
      {n d : ℤ}
      → get_field key (fields_of inst) ≡ some (plain (rational n d))
      → get_rational inst key ≡ some (n, d)
  unfolding get_rational
  get_rational-field h = rw (get_rational, h) refl

  get_array-field :
      {xs : Anys}
      → get_field key (fields_of inst) ≡ some (Instance.array xs)
      → get_array inst key ≡ some xs
  unfolding get_array
  get_array-field h = rw (get_array, h) refl

  get_ref-field :
      {i : Instance} → get_field key (fields_of inst) ≡ some (nested i) → get_ref inst key ≡ some i
  unfolding get_ref
  get_ref-field h = rw (get_ref, h) refl

  HasType-Given :
      {reg : Registry} {version : ℤ} (td : TypeDescriptor) {a : Any}
      → get_field key (fields_of inst) ≡ some a
      → HasType reg version td a
      → Given inst key (kind_of td)
  HasType-Given (descriptor k o r u) h (int_typed is) =
      int_given (==ℤ→eq k kind_int is) (get_int-field h)
  HasType-Given (descriptor k o r u) h (bytes_typed is) =
      bytes_given (==ℤ→eq k kind_bytes is) (get_bytes-field h)
  HasType-Given (descriptor k o r u) h (text_typed is) =
      text_given (==ℤ→eq k kind_text is) (get_text-field h)
  HasType-Given (descriptor k o r u) h (bool_typed is) =
      bool_given (==ℤ→eq k kind_bool is) (get_bool-field h)
  HasType-Given (descriptor k o r u) h (decimal_typed is canonical) =
      decimal_given (==ℤ→eq k kind_decimal is) (get_decimal-field h) canonical
  HasType-Given (descriptor k o r u) h (rational_typed is canonical) =
      rational_given (==ℤ→eq k kind_rational is) (get_rational-field h) canonical
  HasType-Given (descriptor k o r u) h (array_typed is (items_typed _)) =
      array_given (==ℤ→eq k kind_array is) (get_array-field h)
  HasType-Given (descriptor k o r u) h (ref_typed is _ (fields_typed _)) =
      ref_given (==ℤ→eq k kind_ref is) (get_ref-field h)

-- Of an instance that Interpret makes, the accessor of the kind that the table gives a key returns a value
-- whenever the instance has the key, and for a decimal or a rational a canonical one.
pub interpret-Given :
    (table : FieldTable) (v : Value) (reg : Registry) (inst : Instance) (key : ℤ) (e : Entry)
    → interpret table v reg ≡ ok inst
    → entry_by_key table key ≡ some e
    → has inst key ≡ true
    → Given inst key (kind_of e.type)
interpret-Given table v reg inst key e h known there =
    let (a, found) = present_found inst key there in
    HasType-Given inst key e.type found
      (typed inst (interpret-Interpreted table v reg inst h) found)
  where
    typed :
        {a : Any} (i : Instance)
        → Interpreted reg table i
        → get_field key (fields_of i) ≡ some a
        → HasType reg table.version e.type a
    typed (instance_of _ _ fs) (interpreted fields) found =
        get_field-HasType reg table.version key fs fields known found
