-- ===== src/Schema/Author/FieldLaws.antt =====
-- The fields of an instance that Interpret made under the floor's tables.
use murmur_go.Common.{
  true, false, Option-cases, Ensures, Ensures-if, Ensures-weaken, returned, refused, ℕ, ◌≡◌, refl,
  sym, ap, subst, inl, inr, Bool-cases, Option, none, some, List,
}
use murmur_go.Common.Int.{is_int64, ℤ, ◌==ℤ◌, ==ℤ→eq}
use murmur_go.Cbor.Value.{Value, int, text}
use murmur_go.Cbor.Keys.{Distinct, DistinctEntries, one_entry}
use murmur_go.Schema.Table.{TypeDescriptor, element, ArtifactType, Entry, FieldTable, entry_by_key}
use murmur_go.Schema.Registry.{Registry, lookup}
use murmur_go.Schema.Floor.{ref, array_of, scalar}
use murmur_go.Schema.Table.{kind_text}
use murmur_go.Schema.Instance
use murmur_go.Schema.Instance.{
  has, Instance, Fields, Any, Anys, no_fields, field, plain, nested, instance_of, fields_of,
  get_field, get_plain, get_int, get_text, get_ref, get_array,
}
use murmur_go.Schema.FieldTable.{to_int}
use murmur_go.Schema.Typing.{
  HasType, int_typed, bytes_typed, text_typed, bool_typed, decimal_typed, rational_typed,
  array_typed, ref_typed, IsArray, IsInstance, FieldsTyped, none_typed, field_typed,
}
use murmur_go.Schema.Untyped.{untyped_any, untyped_fields}
use murmur_go.Schema.Author.Order.{KeysAmong, no_keys, one_key, keys_of, entry_by_key-Among}

-- What an accessor found is the field.
plain_inside :
    {v : Value} (o : Option Any)
    → elim o [ some (plain v) ↦ some v | _ ↦ none ] ≡ some v
    → o ≡ some (plain v)
plain_inside (some (plain v)) h = ap (λ w. some (plain w)) (cc)
plain_inside _ h = absurd (cc)

int_inside :
    {n : ℤ} (o : Option Value)
    → elim o [ some (int n) ↦ some n | _ ↦ none ] ≡ some n
    → o ≡ some (int n)
int_inside (some (int n)) h = ap (λ m. some (int m)) (cc)
int_inside _ h = absurd (cc)

ref_inside :
    {i : Instance} (o : Option Any)
    → elim o [ some (nested i) ↦ some i | _ ↦ none ] ≡ some i
    → o ≡ some (nested i)
ref_inside (some (nested i)) h = ap (λ j. some (nested j)) (cc)
ref_inside _ h = absurd (cc)

pub get_int-found :
    (inst : Instance) (key : ℤ) {n : ℤ}
    → get_int inst key ≡ some n
    → get_field key (fields_of inst) ≡ some (plain (int n))
unfolding get_int
get_int-found inst key h =
    plain_inside (get_field key (fields_of inst)) (int_inside (get_plain inst key) h)

pub get_ref-found :
    (inst : Instance) (key : ℤ) {i : Instance}
    → get_ref inst key ≡ some i
    → get_field key (fields_of inst) ≡ some (nested i)
unfolding get_ref
get_ref-found inst key h = ref_inside (get_field key (fields_of inst)) h

array_inside :
    {xs : Anys} (o : Option Any)
    → elim o [ some (Instance.array xs) ↦ some xs | _ ↦ none ] ≡ some xs
    → o ≡ some (Instance.array xs)
array_inside (some (Instance.array xs)) h = ap (λ ys. some (Instance.array ys)) (cc)
array_inside _ h = absurd (cc)

pub get_array-found :
    (inst : Instance) (key : ℤ) {xs : Anys}
    → get_array inst key ≡ some xs
    → get_field key (fields_of inst) ≡ some (Instance.array xs)
unfolding get_array
get_array-found inst key h = array_inside (get_field key (fields_of inst)) h

to_int-given : (o : Option ℤ) → Ensures (λ n. o ≡ some n) (to_int o)
unfolding to_int
to_int-given none = refused
to_int-given (some n) = Ensures-if (is_int64 n) (λ _. returned refl) (λ _. refused)

pub to_int-found :
    (inst : Instance) (key : ℤ)
    → Ensures
        (λ n. get_field key (fields_of inst) ≡ some (plain (int n)))
        (to_int (get_int inst key))
to_int-found inst key =
    Ensures-weaken (λ n h. get_int-found inst key h) (to_int-given (get_int inst key))

pub present_found :
    (ei : Instance) (key : ℤ)
    → has ei key ≡ true
    → (a : Any) × (get_field key (fields_of ei) ≡ some a)
unfolding has
present_found ei key h = elim (Option-cases (get_field key (fields_of ei))) [
  | inl missing ↦ let never : false ≡ true = rw missing at h in absurd (cc)
  | inr there ↦ there
]

-- The keys of the map are not in it twice, nor those of its fields.
pub get_field-Distinct :
    (key : ℤ) (fs : Fields) {a : Any}
    → DistinctEntries (untyped_fields fs)
    → get_field key fs ≡ some a
    → Distinct (untyped_any a)
unfolding untyped_fields get_field
get_field-Distinct key no_fields d h = absurd (cc)
get_field-Distinct key (field k b fs) (one_entry _ db d) h = elim (Bool-cases (k ==ℤ key)) [
  | inl same ↦ let found : some b ≡ some _ = rw same at h in subst Distinct (ap untyped_any (cc)) db
  | inr differ ↦ get_field-Distinct key fs d (rw differ at h)
]

-- A text.
pub data IsText : Any → Type 0 where
  is_text : {s : List ℕ} → IsText (plain (text s))

module _ (reg : Registry) (version : ℤ) where
  pub get_field-HasType :
      {t : FieldTable} {e : Entry} {a : Any} (key : ℤ) (fs : Fields)
      → FieldsTyped reg version t fs
      → entry_by_key t key ≡ some e
      → get_field key fs ≡ some a
      → HasType reg version e.type a
  unfolding get_field
  get_field-HasType key no_fields h known found = absurd (cc)
  get_field-HasType {t} {e} {a} key (field k b fs) (field_typed {e = f} held typed hs) known found =
      elim (Bool-cases (k ==ℤ key)) [
        | inl same ↦
            let hit : some b ≡ some a = rw same at found in
            let at_key : entry_by_key t key ≡ some f =
              subst (λ x. entry_by_key t x ≡ some f) (==ℤ→eq k key same) held in
            let one : e ≡ f = cc in let it : b ≡ a = cc in rw (one, sym it) typed
        | inr differ ↦ get_field-HasType key fs hs known (rw differ at found)
      ]

  pub FieldsTyped-KeysAmong :
      {t : FieldTable} {fs : Fields}
      → FieldsTyped reg version t fs
      → KeysAmong (keys_of t.entries) fs
  FieldsTyped-KeysAmong none_typed = no_keys
  FieldsTyped-KeysAmong {t} (field_typed {k} known _ hs) =
      one_key (entry_by_key-Among t k known) (FieldsTyped-KeysAmong hs)

  pub HasType-IsText : {a : Any} → HasType reg version (scalar kind_text) a → IsText a
  HasType-IsText (int_typed h) = absurd (cc)
  HasType-IsText (bytes_typed h) = absurd (cc)
  HasType-IsText (text_typed h) = is_text
  HasType-IsText (bool_typed h) = absurd (cc)
  HasType-IsText (decimal_typed h _) = absurd (cc)
  HasType-IsText (rational_typed h _) = absurd (cc)
  HasType-IsText (array_typed h _) = absurd (cc)
  HasType-IsText (ref_typed h _ _) = absurd (cc)

  pub HasType-IsInstance :
      {code : ArtifactType} {t : FieldTable} {a : Any}
      → lookup reg code version ≡ some t
      → HasType reg version (ref code) a
      → IsInstance reg version t a
  HasType-IsInstance held (int_typed h) = absurd (cc)
  HasType-IsInstance held (bytes_typed h) = absurd (cc)
  HasType-IsInstance held (text_typed h) = absurd (cc)
  HasType-IsInstance held (bool_typed h) = absurd (cc)
  HasType-IsInstance held (decimal_typed h _) = absurd (cc)
  HasType-IsInstance held (rational_typed h _) = absurd (cc)
  HasType-IsInstance held (array_typed h _) = absurd (cc)
  HasType-IsInstance {t} {a} held (ref_typed {t = u} h here typed) =
      let one : u ≡ t = cc in subst (λ x. IsInstance reg version x a) one typed

  pub HasType-IsArray :
      {td : TypeDescriptor} {a : Any}
      → HasType reg version (array_of td) a
      → IsArray reg version (element td) a
  HasType-IsArray (int_typed h) = absurd (cc)
  HasType-IsArray (bytes_typed h) = absurd (cc)
  HasType-IsArray (text_typed h) = absurd (cc)
  HasType-IsArray (bool_typed h) = absurd (cc)
  HasType-IsArray (decimal_typed h _) = absurd (cc)
  HasType-IsArray (rational_typed h _) = absurd (cc)
  HasType-IsArray (array_typed h typed) = typed
  HasType-IsArray (ref_typed h _ _) = absurd (cc)
