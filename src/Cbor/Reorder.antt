-- ===== src/Cbor/Reorder.antt =====
-- What cbor/encode.go writes does not depend on the order in which the entries of a map come.
pub mod Kept
use murmur_go.Common.{
  ℕ, suc, ◌+◌, ◌≡◌, refl, sym, ap, Bool, true, false, Option, none, some, subst, List, [], ◌∷◌, ltb,
  ok, Ensures, Ensures-ok, Ensures-both, returned, refused, Ensures-if, Ensures-bind,
  Ensures-weaken, itself,
}
use murmur_go.Common.Int.{ℤ}
use murmur_go.Cbor.Value.{
  Value, Values, Entries, int, text, array, map, nil, cons, end, entry, count,
}
use murmur_go.Cbor.Order.{Encoded}
use murmur_go.Cbor.Order.Swap.{Shuffled, nothing, keep, swap, after, sort_pairs-Shuffled}
use murmur_go.Cbor.Encode.{
  Buffer, head, key_kind, max_depth, write_map, value, array_items, encode_entries, encode,
}
use murmur_go.Cbor.Keys.{write_map-NoRepeat}

-- The same value with the entries of its maps in another order, at any depth.
mutual
  pub data Reordered : Value → Value → Type 0 where
    same : {v : Value} → Reordered v v
    of_items : {vs ws : Values} → ReorderedItems vs ws → Reordered (array vs) (array ws)
    of_entries : {es fs : Entries} → ReorderedEntries es fs → Reordered (map es) (map fs)

  pub data ReorderedItems : Values → Values → Type 0 where
    no_items : ReorderedItems nil nil
    one_item :
        {v w : Value} {vs ws : Values}
        → Reordered v w
        → ReorderedItems vs ws
        → ReorderedItems (cons v vs) (cons w ws)

  pub data ReorderedEntries : Entries → Entries → Type 0 where
    no_entries : ReorderedEntries end end
    one_entry :
        {k v w : Value} {es fs : Entries}
        → Reordered v w
        → ReorderedEntries es fs
        → ReorderedEntries (entry k v es) (entry k w fs)
    exchanged :
        {j k v w : Value} {es : Entries}
        → ReorderedEntries (entry j v (entry k w es)) (entry k w (entry j v es))
    then_too :
        {es fs gs : Entries}
        → ReorderedEntries es fs
        → ReorderedEntries fs gs
        → ReorderedEntries es gs

-- A key, and whether it is a text.
data KeyType : Value → Bool → Type 0 where
  int_key : {n : ℤ} → KeyType (int n) false
  text_key : {s : List ℕ} → KeyType (text s) true

-- The keys before, if any, were of the type.
data Before (t : Bool) : Option Bool → Type 0 where
  first : Before t none
  alike : Before t (some t)

key_kind-Ensures :
    (k : Value) (kind : Option Bool) → Ensures (λ t. KeyType k t × Before t kind) (key_kind k kind)
unfolding key_kind
key_kind-Ensures (int n) none = returned (int_key, first)
key_kind-Ensures (int n) (some true) = refused
key_kind-Ensures (int n) (some false) = returned (int_key, alike)
key_kind-Ensures (text s) none = returned (text_key, first)
key_kind-Ensures (text s) (some true) = returned (text_key, alike)
key_kind-Ensures (text s) (some false) = refused
key_kind-Ensures _ _ = refused

key_kind_back :
    {k : Value} {kind : Option Bool} {t : Bool}
    → KeyType k t
    → Before t kind
    → key_kind k kind ≡ ok t
unfolding key_kind
key_kind_back int_key first = refl
key_kind_back int_key alike = refl
key_kind_back text_key first = refl
key_kind_back text_key alike = refl

count-ReorderedItems : {vs ws : Values} → ReorderedItems vs ws → count vs ≡ count ws
count-ReorderedItems no_items = refl
count-ReorderedItems (one_item r rs) = ap suc (count-ReorderedItems rs)

write_map-Shuffled :
    {ps qs : List Encoded} (buf : Buffer)
    → Shuffled ps qs
    → Ensures (λ out. write_map qs buf ≡ ok out) (write_map ps buf)
unfolding write_map
write_map-Shuffled {ps} {qs} buf s =
    Ensures-weaken (λ out (n, h). rw (sym (sort_pairs-Shuffled s n)) h)
      (Ensures-both (write_map-NoRepeat ps buf) (itself (write_map ps buf)))

module _ (is_nfc : List ℕ → Bool) where
  -- How an entry in front of others came to be encoded.
  data Front (k v : Value) (es : Entries) (depth : ℕ) (kind : Option Bool) (out : List Encoded)
      : Type 0 where
    front :
        {t : Bool} {kb vb : List ℕ} {ps : List Encoded}
        → KeyType k t
        → Before t kind
        → value is_nfc k depth [] ≡ ok kb
        → value is_nfc v depth [] ≡ ok vb
        → encode_entries is_nfc es depth (some t) ≡ ok ps
        → out ≡ record { key = kb; val = vb } ∷ ps
        → Front k v es depth kind out

  Front-Ensures :
      (k v : Value) (es : Entries) (depth : ℕ) (kind : Option Bool)
      → Ensures (Front k v es depth kind) (encode_entries is_nfc (entry k v es) depth kind)
  unfolding encode_entries
  Front-Ensures k v es depth kind = Ensures-bind (key_kind-Ensures k kind) λ t (tk, bk).
      Ensures-bind (itself (value is_nfc k depth [])) λ kb hk.
        Ensures-bind (itself (value is_nfc v depth [])) λ vb hv.
          Ensures-bind (itself (encode_entries is_nfc es depth (some t)))
            λ ps hs. returned (front tk bk hk hv hs refl)

  encode_entries-Front :
      {k v : Value} {es : Entries} {depth : ℕ} {kind : Option Bool} {out : List Encoded}
      → Front k v es depth kind out
      → encode_entries is_nfc (entry k v es) depth kind ≡ ok out
  unfolding encode_entries
  encode_entries-Front (front tk bk hk hv hs e) = rw (key_kind_back tk bk, hk, hv, hs, e) refl

  -- What the entries come to in the other order.
  abbrev Reencoded : Entries → ℕ → Option Bool → List Encoded → Type 0
  Reencoded fs depth kind ps =
      (qs : List Encoded) × (encode_entries is_nfc fs depth kind ≡ ok qs) × Shuffled ps qs

  same_type : {t u : Bool} → Before u (some t) → u ≡ t
  same_type alike = refl

  exchange-Front :
      (v : Value) {j k w : Value} {es : Entries} {depth : ℕ} {kind : Option Bool} {t : Bool}
      {jb vb : List ℕ} {ps out : List Encoded}
      → KeyType j t
      → Before t kind
      → value is_nfc j depth [] ≡ ok jb
      → value is_nfc v depth [] ≡ ok vb
      → out ≡ record { key = jb; val = vb } ∷ ps
      → Front k w es depth (some t) ps
      → Reencoded (entry k w (entry j v es)) depth kind out
  exchange-Front v {k} {es} {depth} {t} {jb} {vb} tj bj hj hv e
        (front {t = u} {kb} {vb = wb} {ps = qs} tk bk hk hw hs e') =
      let alike_types : u ≡ t = same_type bk in
      let tk' : KeyType k t = subst (KeyType k) alike_types tk in
      let hs' : encode_entries is_nfc es depth (some t) ≡ ok qs =
        subst (λ x. encode_entries is_nfc es depth (some x) ≡ ok qs) alike_types hs in
      (
        record { key = kb; val = wb } ∷ record { key = jb; val = vb } ∷ qs,
        encode_entries-Front
            (front tk' bj hk hw (encode_entries-Front (front tj alike hj hv hs' refl)) refl),
        rw (e, e') swap,
      )

  mutual
    unfolding value

    value-Reordered :
        {v w : Value}
        → Reordered v w
        → (depth : ℕ) (buf : Buffer)
        → Ensures (λ out. value is_nfc w depth buf ≡ ok out) (value is_nfc v depth buf)
    value-Reordered (same {v}) depth buf = itself (value is_nfc v depth buf)
    value-Reordered (of_items {vs} {ws} rs) depth buf =
        Ensures-if (ltb max_depth depth) (λ _. refused)
          λ shallow.
            rw (shallow, sym (count-ReorderedItems rs))
              (items-Reordered rs (depth + 1) (head 4 (count vs) buf))
    value-Reordered (of_entries {es} {fs} rs) depth buf =
        Ensures-if (ltb max_depth depth) (λ _. refused)
          λ shallow.
            Ensures-bind (entries-Reordered rs (depth + 1) none)
              λ ps (qs, hq, s). rw (shallow, hq) (write_map-Shuffled buf s)

    items-Reordered :
        {vs ws : Values}
        → ReorderedItems vs ws
        → (depth : ℕ) (buf : Buffer)
        → Ensures
            (λ out. array_items is_nfc ws depth buf ≡ ok out)
            (array_items is_nfc vs depth buf)
    items-Reordered no_items depth buf = returned refl
    items-Reordered (one_item r rs) depth buf =
        Ensures-bind (value-Reordered r depth buf) λ next h. rw h (items-Reordered rs depth next)

    entries-Reordered :
        {es fs : Entries}
        → ReorderedEntries es fs
        → (depth : ℕ) (kind : Option Bool)
        → Ensures (Reencoded fs depth kind) (encode_entries is_nfc es depth kind)
    entries-Reordered no_entries depth kind = returned ([], refl, nothing)
    entries-Reordered (one_entry {k} r rs) depth kind =
        Ensures-bind (key_kind-Ensures k kind) λ t (tk, bk).
          Ensures-bind (itself (value is_nfc k depth [])) λ kb hk.
            Ensures-bind (value-Reordered r depth []) λ vb hv.
              Ensures-bind (entries-Reordered rs depth (some t)) λ ps (qs, hq, s).
                returned (_, encode_entries-Front (front tk bk hk hv hq refl), keep s)
    entries-Reordered (exchanged {j} {k} {v} {w} {es}) depth kind =
        Ensures-weaken (λ out f. exchange out f) (Front-Ensures j v (entry k w es) depth kind)
      where
        exchange :
            (out : List Encoded)
            → Front j v (entry k w es) depth kind out
            → Reencoded (entry k w (entry j v es)) depth kind out
        exchange out (front {t} tj bj hj hv hs e) =
            exchange-Front v tj bj hj hv e (Ensures-ok (Front-Ensures k w es depth (some t)) hs)
    entries-Reordered (then_too {fs} rs ss) depth kind =
        Ensures-weaken
          (λ ps (qs, hq, s).
            let (zs, hz, s') = Ensures-ok (entries-Reordered ss depth kind) hq in
            (zs, hz, after s s'))
          (entries-Reordered rs depth kind)

-- Of two values that differ in the order in which the entries of their maps come, at any depth, Encode
-- writes the second as it writes the first.
pub encode-Reordered :
    (is_nfc : List ℕ → Bool) (v w : Value) (bs : List ℕ)
    → Reordered v w
    → encode is_nfc v ≡ ok bs
    → encode is_nfc w ≡ ok bs
unfolding encode
encode-Reordered is_nfc v w bs r h = Ensures-ok (value-Reordered is_nfc r 0 []) h
