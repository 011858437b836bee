-- ===== src/Cbor/RoundTrip/Fields.antt =====
-- The entries of a map: what `mapValue` of cbor/encode.go writes for them, the decoder reads back.
use murmur_go.Common.{
  ℕ, suc, ◌+◌, ◌^◌, ◌≤◌, ◌≡◌, refl, sym, ap, ◌∙◌, Bool, true, false, Option, none, some, List, [],
  ◌∷◌, ◌++◌, append_assoc, arith, length, All, Ensures, returned, refused, Ensures-if, leb, ltb,
  subst,
}
use murmur_go.Common.Int.{pos, negsuc}
use murmur_go.Cbor.Value.{Value, Entries, int, text, map, end, entry}
use murmur_go.Cbor.Head.{head_bytes}
use murmur_go.Cbor.Text.{validate_text}
use murmur_go.Cbor.Order.{Encoded, sort_pairs, sort_by, has_duplicate}
use murmur_go.Cbor.Encode.{max_depth, Buffer, head, integer, write_map, value}
use murmur_go.Cbor.Encode.Buffer.{flat, append_pairs-flat}
use murmur_go.Cbor.Wire.{to_entries, wire, wire_fields, size, size_entries, key_bytes}
use murmur_go.Cbor.RoundTrip.Maps.{Reads, Written, IsRead, weight, field_of, pair_of, KeyIs, Agrees}
use murmur_go.Cbor.RoundTrip.Sorting.{
  total, sort_by-map, sort_by-All, sort_by-total, sort_by-length, sort_pairs-ascends,
}
use murmur_go.Cbor.RoundTrip.Strings
use murmur_go.Cbor.RoundTrip.Strings.{ReadsItems}
use mathlib.Core.List
use murmur_go.Cbor.RoundTrip.Numbers.{size-pos, Appends, check-Appends}

kind_or : Option Bool → Bool
kind_or none = false
kind_or (some t) = t

Agrees-kind_or : (kind : Option Bool) → Agrees kind (kind_or kind)
unfolding kind_or
Agrees-kind_or none = tt
Agrees-kind_or (some t) = refl

length-map : {A B : Type 0} (f : A → B) (xs : List A) → length (List.map f xs) ≡ length xs
length-map f [] = refl
length-map f (x ∷ xs) = ap suc (length-map f xs)

module _ (is_nfc : List ℕ → Bool) where
  -- What the loop over the entries of a map gives: each entry, as written and as read.
  pub record Fields (es : Entries) (room : ℕ) (kind : Option Bool) (ps : List Encoded)
      : Type 0 where
    pub written : List Written
    pub keys_are_text : Bool
    pub pairs : List.map pair_of written ≡ ps
    pub fields : List.map field_of written ≡ wire_fields es
    pub weighs : total weight written ≡ size_entries es
    pub small : length written ≤ total weight written
    pub reads : All (IsRead is_nfc room keys_are_text) written
    pub agrees : Agrees kind keys_are_text

  -- The bytes of a key do not depend on the depth.
  pub key_bytes-Ensures :
      (t : Bool) (k : Value) (depth : ℕ)
      → KeyIs t k
      → Ensures (λ kb. kb ≡ key_bytes k) (value is_nfc k depth [])
  unfolding value key_bytes integer head
  key_bytes-Ensures false (int (pos n)) depth h =
      Ensures-if (ltb max_depth depth) (λ _. refused)
        λ _. Ensures-if (leb (2 ^ 64) n) (λ _. refused) (λ _. returned refl)
  key_bytes-Ensures false (int (negsuc n)) depth h =
      Ensures-if (ltb max_depth depth) (λ _. refused)
        λ _. Ensures-if (leb (2 ^ 64) n) (λ _. refused) (λ _. returned refl)
  key_bytes-Ensures true (text s) depth h =
      Ensures-if (ltb max_depth depth) (λ _. refused)
        λ _. check-Appends (validate_text is_nfc s) (λ _. returned refl)
  key_bytes-Ensures _ _ depth h = absurd h

  wire-KeyIs : (t : Bool) (k : Value) → KeyIs t k → KeyIs t (wire k)
  unfolding wire
  wire-KeyIs false (int n) h = tt
  wire-KeyIs true (text s) h = tt
  wire-KeyIs _ _ h = absurd h

  -- The entries, once they are encoded.
  write_map-written :
      (t : Bool) (ws : List Written) (room : ℕ) (buf : Buffer)
      → All (IsRead is_nfc room t) ws
      → length ws ≤ total weight ws
      → Ensures
          (Appends is_nfc
            (map (to_entries (sort_by (λ f. f.bytes_of_key) (List.map field_of ws))))
            (1 + total weight ws)
            buf
            (suc room))
          (write_map (List.map pair_of ws) buf)
  unfolding write_map head sort_pairs
  write_map-written t ws room buf reads small =
      let sorted : List Written = sort_by (λ w. w.pair.key) ws in
      let pairs : sort_pairs (List.map pair_of ws) ≡ List.map pair_of sorted =
        sort_by-map (λ p. p.key) pair_of ws in
      let fields : sort_by (λ f. f.bytes_of_key) (List.map field_of ws) ≡ List.map field_of sorted =
        sort_by-map (λ f. f.bytes_of_key) field_of ws in
      let weighs : total weight sorted ≡ total weight ws =
        sort_by-total (λ w. w.pair.key) weight ws in
      let counts : length (List.map pair_of sorted) ≡ length sorted = length-map pair_of sorted in
      rw (fields, sym weighs)
        (Ensures-if (has_duplicate (sort_pairs (List.map pair_of ws))) (λ _. refused)
          λ e. returned (
            head_bytes 5 (length sorted) ++ flat (List.map pair_of sorted),
            append_pairs-flat (sort_pairs (List.map pair_of ws)) _
                ∙ rw (pairs, counts) (append_assoc buf (head_bytes 5 (length sorted)) _),
            Strings.Reads-map is_nfc room t sorted
                (sort_by-All (λ w. w.pair.key) (IsRead is_nfc room t) ws reads)
                (omega (arith, weighs, sort_by-length (λ w. w.pair.key) ws))
                (rw pairs at (sort_pairs-ascends (List.map pair_of ws) e)),
          ))

  pub write_map-Appends :
      (es : Entries) (room : ℕ) (buf : Buffer) {ps : List Encoded}
      → Fields es room none ps
      → Ensures (Appends is_nfc (wire (map es)) (size (map es)) buf (suc room)) (write_map ps buf)
  unfolding wire size
  write_map-Appends es room buf f =
      rw (sym f.pairs, sym f.fields, sym f.weighs)
        (write_map-written f.keys_are_text f.written room buf f.reads f.small)

  pub Fields-end : (room : ℕ) (kind : Option Bool) → Fields end room kind []
  unfolding wire size
  Fields-end room kind = record {
    written = [];
    keys_are_text = kind_or kind;
    pairs = refl;
    fields = refl;
    weighs = refl;
    small = omega arith;
    reads = tt;
    agrees = Agrees-kind_or kind;
  }

  pub Fields-entry :
      (k v : Value) (es : Entries) (room : ℕ) (kind : Option Bool) (t : Bool) (kb vb : List ℕ)
      (ps : List Encoded)
      → KeyIs t k
      → Agrees kind t
      → kb ≡ key_bytes k
      → Reads is_nfc room kb (wire k) (size k)
      → Reads is_nfc room vb (wire v) (size v)
      → Fields es room (some t) ps
      → Fields (entry k v es) room kind (record { key = kb; val = vb } ∷ ps)
  unfolding wire size
  Fields-entry k v es room kind t kb vb ps is agrees same rk rv f = record {
    written =
        record {
          pair = record { key = kb; val = vb };
          key = wire k;
          val = wire v;
          key_size = size k;
          val_size = size v;
        }
        ∷ f.written;
    keys_are_text = t;
    pairs = ap (λ qs. record { key = kb; val = vb } ∷ qs) f.pairs;
    fields = rw (same, f.fields);
    weighs = omega (arith, f.weighs);
    small = omega (arith, f.small, size-pos k);
    reads = (
      record { key_is = wire-KeyIs t k is; reads_key = rk; reads_val = rv },
      subst (λ s. All (IsRead is_nfc room s) f.written) (sym f.agrees) f.reads,
    );
    agrees = agrees;
  }
