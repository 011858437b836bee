-- ===== src/Conformance/Files/Listed.antt =====
-- Which files of a tree conformance/conformance.go lists.
use murmur_go.Common.{
  ℕ, Bool, true, false, ◌==◌, Option-cases, ◌≡◌, ◌↔◌, inl, inr, refl, sym, ap, ◌∙◌, if◌then◌else◌,
  Option, none, some, List, [], ◌∷◌, ◌++◌, append_assoc, append-nil, Bool-cases,
}
use murmur_go.Cbor.Order.{same_bytes}
use murmur_go.Cbor.Order.Laws.{same_bytes-eq, same_bytes_self}
use murmur_go.Schema.Path.{codes}
use murmur_go.Conformance.Files.{is_fixture, ext_loop, ext, Visit, visit_all, files}

abbrev pub Ends : List ℕ → List ℕ → Type 0
Ends ending path = (stem : List ℕ) × (path ≡ stem ++ ending)

if_Ends :
    (b : Bool) {x y whole : List ℕ} → Ends x whole → Ends y whole → Ends (if b then x else y) whole
if_Ends true hx hy = hx
if_Ends false hx hy = hy

-- The text found is an ending of the whole path.
ext_loop-Ends :
    (path found whole : List ℕ)
    → Ends path whole
    → Ends found whole
    → Ends (ext_loop path found) whole
unfolding ext_loop
ext_loop-Ends [] found whole p f = f
ext_loop-Ends (c ∷ path) found whole (stem, p) f =
    ext_loop-Ends path _ whole (stem ++ c ∷ [], p ∙ sym (append_assoc stem (c ∷ []) path))
      (if_Ends (c == b'/') (whole, sym (append-nil whole)) (if_Ends (c == b'.') (stem, p) f))

-- In front of ".json" the loop finds it.
ext_loop-json : (stem found : List ℕ) → ext_loop (stem ++ codes ".json") found ≡ codes ".json"
unfolding ext_loop
ext_loop-json [] found = refl
ext_loop-json (c ∷ stem) found = ext_loop-json stem _

ext_iff :
    (path : List ℕ) → (same_bytes (ext path) (codes ".json") ≡ true) ↔ Ends (codes ".json") path
unfolding ext
ext_iff path = (there, back)
  where
    there : same_bytes (ext path) (codes ".json") ≡ true → Ends (codes ".json") path
    there h =
        let (stem, e) = ext_loop-Ends path [] path ([], refl) (path, sym (append-nil path)) in
        (stem, e ∙ ap (λ t. stem ++ t) (same_bytes-eq (ext path) (codes ".json") h))

    back : Ends (codes ".json") path → same_bytes (ext path) (codes ".json") ≡ true
    back (stem, e) =
        ap (λ t. same_bytes (ext t) (codes ".json")) e
        ∙ rw (ext_loop-json stem []) (same_bytes_self (codes ".json"))

module _ {E : Type 0} where
  -- A file that is no directory and ends in ".json".
  abbrev pub IsFixture : Visit E → Type 0
  IsFixture v = (v.is_dir ≡ false) × Ends (codes ".json") v.path

  -- What the visits come to: the fixtures up to the first error, in order, and that error.
  pub data Listed : List (Visit E) → List (List ℕ) → Option E → Type 0 where
    finished : Listed [] [] none
    stopped :
        {v : Visit E} {vs : List (Visit E)} {e : E}
        → v.failure ≡ some e
        → Listed (v ∷ vs) [] (some e)
    taken :
        {v : Visit E} {vs : List (Visit E)} {out : List (List ℕ)} {e : Option E}
        → v.failure ≡ none
        → IsFixture v
        → Listed vs out e
        → Listed (v ∷ vs) (v.path ∷ out) e
    passed :
        {v : Visit E} {vs : List (Visit E)} {out : List (List ℕ)} {e : Option E}
        → v.failure ≡ none
        → ¬ IsFixture v
        → Listed vs out e
        → Listed (v ∷ vs) out e

  is_fixture_iff : (v : Visit E) → (is_fixture v ≡ true) ↔ IsFixture v
  is_fixture_iff v = elim (Bool-cases v.is_dir) [
    | inl dir ↦ (rw dir (λ h. cc), λ f. absurd_dir dir f.0)
    | inr file ↦
        (λ h. (file, (ext_iff v.path).0 (rw file at h)), λ f. rw file ((ext_iff v.path).1 f.1))
  ]
    where
      absurd_dir : v.is_dir ≡ true → v.is_dir ≡ false → is_fixture v ≡ true
      absurd_dir h k = cc

  -- What the loop adds to the files so far.
  visit_all-Listed :
      (vs : List (Visit E)) (before : List (List ℕ))
      → (out : List (List ℕ)) × (e : Option E) × (visit_all vs before ≡ (before ++ out, e))
        × Listed vs out e
  unfolding visit_all
  visit_all-Listed [] before = ([], none, ap (λ t. (t, none)) (sym (append-nil before)), finished)
  visit_all-Listed (v ∷ vs) before = elim (Option-cases v.failure) [
    | inr (e, failed) ↦ ([], some e, rw (failed, append-nil), stopped failed)
    | inl fine ↦ elim (Bool-cases (is_fixture v)) [
      | inl fixture ↦
          let (out, e, h, listed) = visit_all-Listed vs (before ++ v.path ∷ []) in
          (
            v.path ∷ out,
            e,
            rw (fine, fixture) (h ∙ ap (λ t. (t, e)) (append_assoc before (v.path ∷ []) out)),
            taken fine ((is_fixture_iff v).0 fixture) listed,
          )
      | inr other ↦
          let (out, e, h, listed) = visit_all-Listed vs before in
          (
            out,
            e,
            rw (fine, other) h,
            passed fine (λ f. let hit = (is_fixture_iff v).1 f in cc) listed,
          )
    ]
  ]

  -- Files lists, of the visits that WalkDir makes in a directory, the paths that end in ".json" of what
  -- is no directory, in their order, up to the first visit that has an error, and returns that error if
  -- there is one.
  pub files-Listed :
      (walk_dir : List ℕ → List (Visit E)) (dir : List ℕ)
      → Listed (walk_dir dir) (files walk_dir dir).0 (files walk_dir dir).1
  unfolding files
  files-Listed walk_dir dir =
      let (out, e, h, listed) = visit_all-Listed (walk_dir dir) [] in rw h listed
