-- ===== src/Conformance/Order.antt =====
-- A vector's value does not depend on the order in which a loop of conformance/value.go meets the
-- members of an object.
use murmur_go.Common.{
  ℕ, ◌≡◌, refl, Bool, false, List, ok, err, panics, ◌∙◌, Result, ◌>>=◌, Ensures, Ensures-ok,
  returned, refused, Ensures-if, Ensures-bind, Ensures-weaken, itself,
}
use murmur_go.Cbor.Value
use murmur_go.Cbor.Value.{Value, Values, Entries, text, array, map, end, entry}
use murmur_go.Cbor.Encode.{encode}
use murmur_go.Cbor.Reorder.{
  Reordered, ReorderedItems, ReorderedEntries, of_items, of_entries, one_entry, then_too,
  encode-Reordered,
}
use murmur_go.Cbor.Reorder
use murmur_go.Schema.Path.{codes}
use murmur_go.Conformance.Author.{only_member_map}
use murmur_go.Conformance.Json.{Json, Jsons, Members, list, object, nil, cons, none_left, member}
use murmur_go.Conformance.Walk.{
  ValueError, walk, walk_items, walk_object, walk_members, walk_map_pairs, walk_pairs, plain_entry,
  only_member, is_tag,
}

-- At least two members.
abbrev pub Many : Members → Type 0
Many (member j v (member k w ms)) = Unit {0}
Many _ = ⊥

-- The same JSON with the members of its objects met in another order, at any depth outside the keys
-- of a map.
mutual
  pub data SameJson : Json → Json → Type 0 where
    same : {j : Json} → SameJson j j
    in_list : {js ks : Jsons} → SameItems js ks → SameJson (list js) (list ks)
    alone :
        {k : List ℕ} {v w : Json}
        → is_tag k ≡ false
        → SameJson v w
        → SameJson (object (member k v none_left)) (object (member k w none_left))
    in_map :
        {ps qs : Jsons}
        → SamePairs ps qs
        → SameJson
            (object (member (codes "$map") (list ps) none_left))
            (object (member (codes "$map") (list qs) none_left))
    members :
        {ms ns : Members} → Many ms → Many ns → SameMembers ms ns → SameJson (object ms) (object ns)

  pub data SameItems : Jsons → Jsons → Type 0 where
    no_items : SameItems nil nil
    one_item :
        {j k : Json} {js ks : Jsons}
        → SameJson j k
        → SameItems js ks
        → SameItems (cons j js) (cons k ks)

  pub data SamePairs : Jsons → Jsons → Type 0 where
    no_pairs : SamePairs nil nil
    one_pair :
        {k v w : Json} {ps qs : Jsons}
        → SameJson v w
        → SamePairs ps qs
        → SamePairs (cons (list (cons k (cons v nil))) ps) (cons (list (cons k (cons w nil))) qs)

  pub data SameMembers : Members → Members → Type 0 where
    no_members : SameMembers none_left none_left
    one_member :
        {k : List ℕ} {v w : Json} {ms ns : Members}
        → SameJson v w
        → SameMembers ms ns
        → SameMembers (member k v ms) (member k w ns)
    exchanged :
        {j k : List ℕ} {v w : Json} {ms : Members}
        → SameMembers (member j v (member k w ms)) (member k w (member j v ms))
    and_then : {ls ms ns : Members} → SameMembers ls ms → SameMembers ms ns → SameMembers ls ns

walk_object-Many :
    (ms : Members) → Many ms → walk_object ms ≡ (walk_members ms >>= λ es. ok (map es))
unfolding walk_object walk_members
walk_object-Many none_left h = elim h [ ]
walk_object-Many (member k v none_left) h = elim h [ ]
walk_object-Many (member k v (member k' v' ms)) h = refl

-- A member at the front, and how it was read.
data Read (k : List ℕ) (v : Json) (ms : Members) (out : Entries) : Type 0 where
  read :
      {val : Value} {es : Entries}
      → is_tag k ≡ false
      → walk v ≡ ok val
      → walk_members ms ≡ ok es
      → out ≡ entry (text k) val es
      → Read k v ms out

Read-Ensures :
    (k : List ℕ) (v : Json) (ms : Members) → Ensures (Read k v ms) (walk_members (member k v ms))
unfolding walk_members plain_entry
Read-Ensures k v ms =
    Ensures-if (is_tag k) (λ _. refused)
      λ plain.
        Ensures-bind (itself (walk v)) λ val hv.
          Ensures-bind (itself (walk_members ms)) λ es he. returned (read plain hv he refl)

walk_members-Read :
    {k : List ℕ} {v : Json} {ms : Members} {out : Entries}
    → Read k v ms out
    → walk_members (member k v ms) ≡ ok out
unfolding walk_members plain_entry
walk_members-Read (read plain hv he e) = rw (plain, hv, he, e)

-- What the other order comes to.
abbrev Reread : Json → Value → Type 0
Reread k v = (w : Value) × (walk k ≡ ok w) × Reordered v w

abbrev RereadItems : Jsons → Values → Type 0
RereadItems ks vs = (ws : Values) × (walk_items ks ≡ ok ws) × ReorderedItems vs ws

abbrev RereadPairs : Jsons → Entries → Type 0
RereadPairs qs es = (fs : Entries) × (walk_pairs qs ≡ ok fs) × ReorderedEntries es fs

abbrev RereadMembers : Members → Entries → Type 0
RereadMembers ns es = (fs : Entries) × (walk_members ns ≡ ok fs) × ReorderedEntries es fs

exchange-Read :
    (v : Json) {j k : List ℕ} {w : Json} {ms : Members} {val : Value} {es out : Entries}
    → is_tag j ≡ false
    → walk v ≡ ok val
    → out ≡ entry (text j) val es
    → Read k w ms es
    → RereadMembers (member k w (member j v ms)) out
exchange-Read v {j} {k} {val} plain hv e (read {val = wal} {es} plain' hw hs e') = (
  entry (text k) wal (entry (text j) val es),
  walk_members-Read (read plain' hw (walk_members-Read (read plain hv hs refl)) refl),
  rw (e, e') Reorder.exchanged,
)

only_plain :
    (k : List ℕ) (v : Json) (walked pairs : Result ValueError Value)
    → is_tag k ≡ false
    → only_member k v walked pairs ≡ (walked >>= λ val. ok (map (entry (text k) val end)))
unfolding only_member plain_entry
only_plain k v (ok val) pairs plain = rw plain
only_plain k v (err e) pairs plain = rw plain
only_plain k v panics pairs plain = rw plain

mutual
  unfolding walk walk_items walk_object walk_map_pairs walk_pairs plain_entry

  rereads : {j k : Json} → SameJson j k → Ensures (Reread k) (walk j)
  rereads (same {j}) = Ensures-weaken (λ v h. (v, h, Reordered.same)) (itself (walk j))
  rereads (in_list s) =
      Ensures-bind (rereads_items s) λ vs (ws, h, r). returned (array ws, rw h, of_items r)
  rereads (alone {k} {v} {w} plain s) = rw (only_plain k v (walk v) (walk_map_pairs v) plain) (
      Ensures-bind (rereads s) λ a (b, h, r). returned (
        map (entry (text k) b end),
        only_plain k w (walk w) (walk_map_pairs w) plain ∙ rw h,
        of_entries (one_entry r Reorder.no_entries),
      ))
  rereads (in_map {ps} {qs} s) =
      rw (only_member_map (list ps) (walk (list ps)) (walk_map_pairs (list ps))) (
        Ensures-bind (rereads_pairs s)
          λ es (fs, h, r). returned (map fs, only_member_map (list qs) _ _ ∙ rw h, of_entries r))
  rereads (members {ms} {ns} a b s) = rw (walk_object-Many ms a) (
      Ensures-bind (rereads_members s)
        λ es (fs, h, r). returned (map fs, walk_object-Many ns b ∙ rw h, of_entries r))

  rereads_items : {js ks : Jsons} → SameItems js ks → Ensures (RereadItems ks) (walk_items js)
  rereads_items no_items = returned (Value.nil, refl, Reorder.no_items)
  rereads_items (one_item s ss) = Ensures-bind (rereads s) λ v (w, h, r).
      Ensures-bind (rereads_items ss)
        λ vs (ws, hs, rs). returned (Value.cons w ws, rw (h, hs), Reorder.one_item r rs)

  rereads_pairs : {ps qs : Jsons} → SamePairs ps qs → Ensures (RereadPairs qs) (walk_pairs ps)
  rereads_pairs no_pairs = returned (end, refl, Reorder.no_entries)
  rereads_pairs (one_pair {k} s ss) = Ensures-bind (itself (walk k)) λ key hk.
      Ensures-bind (rereads s) λ v (w, h, r).
        Ensures-bind (rereads_pairs ss)
          λ es (fs, hs, rs). returned (entry key w fs, rw (hk, h, hs), one_entry r rs)

  rereads_members :
      {ms ns : Members} → SameMembers ms ns → Ensures (RereadMembers ns) (walk_members ms)
  rereads_members no_members = returned (end, refl, Reorder.no_entries)
  rereads_members (one_member {k} s ss) =
      Ensures-if (is_tag k) (λ _. refused)
        λ plain. Ensures-bind (rereads s) λ v (w, h, r).
          Ensures-bind (rereads_members ss)
            λ es (fs, hs, rs). returned (entry (text k) w fs, rw (plain, h, hs), one_entry r rs)
  rereads_members (exchanged {j} {k} {v} {w} {ms}) =
      Ensures-if (is_tag j) (λ _. refused)
        λ plain. Ensures-bind (itself (walk v)) λ val hv.
          Ensures-bind (Read-Ensures k w ms)
            λ es found. returned (exchange-Read v plain hv refl found)
  rereads_members (and_then s ss) =
      Ensures-weaken
        (λ es (fs, h, r).
          let (gs, h', r') = Ensures-ok (rereads_members ss) h in (gs, h', then_too r r'))
        (rereads_members s)

-- Of JSON whose value Encode writes, the same JSON with the members of its objects in another order, at
-- any depth outside the keys of a map, is read as a value that Encode writes as the same bytes.
pub encode-SameJson :
    (is_nfc : List ℕ → Bool) (j k : Json) (v : Value) (bs : List ℕ)
    → SameJson j k
    → walk j ≡ ok v
    → encode is_nfc v ≡ ok bs
    → (w : Value) × (walk k ≡ ok w) × (encode is_nfc w ≡ ok bs)
encode-SameJson is_nfc j k v bs s read_it written =
    let (w, h, r) = Ensures-ok (rereads s) read_it in
    (w, h, encode-Reordered is_nfc v w bs r written)
