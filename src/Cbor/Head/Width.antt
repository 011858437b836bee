-- ===== src/Cbor/Head/Width.antt =====
-- The length of the head that cbor/encode.go appends, and its first byte.
use murmur_go.Common.{
  ℕ, Bool, true, false, ◌*◌, ◌%◌, ◌≤◌, ◌<◌, ◌^◌, ◌≡◌, refl, ap, sym, ◌∙◌, List, [], ◌∷◌, ◌++◌,
  arith, length, drop, drop-length-append, ltb, ltb→lt, if◌then◌else◌, bit_or,
}
use murmur_go.Cbor.Head.{head_bytes}
use murmur_go.Cbor.Head.Form.{first_byte_sum}

-- The bytes of the argument behind a first byte, by its low five bits.
abbrev width_of : ℕ → ℕ
width_of info =
    if ltb info 24
    then 0
    else if ltb info 25
    then 1
    else if ltb info 26
    then 2
    else if ltb info 27
    then 4
    else 8

data Headed (bs : List ℕ) : Type 0 where
  headed :
      (first : ℕ) (rest : List ℕ)
      → bs ≡ first ∷ rest
      → length rest ≡ width_of (first % 32)
      → Headed bs

if_Headed :
    (b : Bool) {x y : List ℕ}
    → (b ≡ true → Headed x)
    → (b ≡ false → Headed y)
    → Headed (if b then x else y)
if_Headed true hx hy = hx refl
if_Headed false hx hy = hy refl

first_below :
    (major info : ℕ) → major < 8 → info < 32 → bit_or (major * 2 ^ 5 % 256) info % 32 ≡ info
first_below major info hm hi = rw (first_byte_sum major info hm hi) (omega arith)

of_form :
    (major info : ℕ) (rest : List ℕ)
    → major < 8
    → info < 32
    → length rest ≡ width_of info
    → Headed (bit_or (major * 2 ^ 5 % 256) info ∷ rest)
of_form major info rest hm hi sizes =
    headed _ rest refl (sizes ∙ sym (ap width_of (first_below major info hm hi)))

head_bytes-Headed : (major arg : ℕ) → major < 8 → Headed (head_bytes major arg)
unfolding head_bytes
head_bytes-Headed major arg hm =
    if_Headed (ltb arg 24)
      (λ least.
        let few = ltb→lt arg 24 least in
        let low : arg % 256 ≡ arg = omega arith in
        of_form major (arg % 256) [] hm (omega arith) (rw (low, least)))
      λ _.
        if_Headed (ltb arg (2 ^ 8)) (λ _. of_form major 24 _ hm (omega arith) refl)
          λ _.
            if_Headed (ltb arg (2 ^ 16)) (λ _. of_form major 25 _ hm (omega arith) refl)
              λ _.
                if_Headed (ltb arg (2 ^ 32)) (λ _. of_form major 26 _ hm (omega arith) refl)
                  λ _. of_form major 27 _ hm (omega arith) refl

width_of-le : (info : ℕ) → width_of info ≤ 8
width_of-le info = ground arith

pub length-head_bytes : (major arg : ℕ) → major < 8 → length (head_bytes major arg) ≤ 9
length-head_bytes major arg hm = elim (head_bytes-Headed major arg hm) [
  | headed first rest e sizes ↦ rw e (omega (arith, sizes, width_of-le (first % 32)))
]

after_equal : (cs bs xs ys : List ℕ) → length cs ≡ length bs → cs ++ xs ≡ bs ++ ys → xs ≡ ys
after_equal cs bs xs ys sizes h =
    sym (drop-length-append cs xs)
    ∙ ap (drop (length cs)) h
    ∙ ap (λ (n : ℕ). drop n (bs ++ ys)) sizes
    ∙ drop-length-append bs ys

-- What follows a head of the same kind is the same if the whole is.
pub behind_head :
    (major a b : ℕ) (xs ys : List ℕ)
    → major < 8
    → head_bytes major a ++ xs ≡ head_bytes major b ++ ys
    → xs ≡ ys
behind_head major a b xs ys hm h =
    behind (head_bytes-Headed major a hm) (head_bytes-Headed major b hm) h
  where
    behind : {hs ks : List ℕ} → Headed hs → Headed ks → hs ++ xs ≡ ks ++ ys → xs ≡ ys
    behind (headed f rest e sizes) (headed g more e' sizes') same =
        let whole : f ∷ (rest ++ xs) ≡ g ∷ (more ++ ys) =
          sym (ap (λ t. t ++ xs) e) ∙ same ∙ ap (λ t. t ++ ys) e' in
        let first : f ≡ g = cc in
        after_equal rest more xs ys (sizes ∙ ap (λ (t : ℕ). width_of (t % 32)) first ∙ sym sizes')
          (cc)
