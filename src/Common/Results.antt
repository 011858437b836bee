-- ===== src/Common/Results.antt =====
-- What a call of a Go function comes to: a value, an error, or a panic; and postconditions on it.
use mathlib.Core.Path.{◌≡◌, refl, subst}
use mathlib.Core.Bool.{Bool, true, false}
use murmur_go.Common.Tests.{if◌then◌else◌}

pub data Result (E : Type 0) (A : Type 0) : Type 0 where
  ok : A → Result E A
  err : E → Result E A
  panics : Result E A

module _ {E A B : Type 0} where
  infixl 5 ◌>>=◌
  abbrev pub ◌>>=◌ : Result E A → (A → Result E B) → Result E B
  ok a >>= f = f a
  err e >>= f = err e
  panics >>= f = panics

  infixl 5 ◌>>◌
  abbrev pub ◌>>◌ : Result E A → Result E B → Result E B
  m >> k = m >>= λ _. k

-- The same call with its error seen by a caller that has errors of its own.
abbrev pub map_err : {E F A : Type 0} → (E → F) → Result E A → Result F A
map_err f (ok a) = ok a
map_err f (err e) = err (f e)
map_err f panics = panics

-- `P` holds of the value, if the call returns one.
pub data Ensures {E A : Type 0} (P : A → Type 0) : Result E A → Type 0 where
  returned : {a : A} → P a → Ensures P (ok a)
  refused : {e : E} → Ensures P (err e)
  crashed : Ensures P panics

module _ {E A : Type 0} {P : A → Type 0} where
  pub Ensures-ok : {r : Result E A} {a : A} → Ensures P r → r ≡ ok a → P a
  Ensures-ok (returned h) e = subst P (cc) h
  Ensures-ok refused e = cc
  Ensures-ok crashed e = cc

  pub Ensures-if :
      (b : Bool) {x y : Result E A}
      → (b ≡ true → Ensures P x)
      → (b ≡ false → Ensures P y)
      → Ensures P (if b then x else y)
  Ensures-if true hx hy = hx refl
  Ensures-if false hx hy = hy refl

  pub Ensures-bind :
      {B : Type 0} {Q : B → Type 0} {r : Result E A} {f : A → Result E B}
      → Ensures P r
      → ((a : A) → P a → Ensures Q (f a))
      → Ensures Q (r >>= f)
  Ensures-bind (returned {a} h) k = k a h
  Ensures-bind refused k = refused
  Ensures-bind crashed k = crashed

  pub Ensures-weaken :
      {Q : A → Type 0} {r : Result E A} → ((a : A) → P a → Q a) → Ensures P r → Ensures Q r
  Ensures-weaken k (returned {a} h) = returned (k a h)
  Ensures-weaken k refused = refused
  Ensures-weaken k crashed = crashed

-- A call whose error is passed on in another form succeeds as the call did.
pub map_err-Ensures :
    {E F A : Type 0} (f : E → F) (r : Result E A) → Ensures (λ a. r ≡ ok a) (map_err f r)
map_err-Ensures f (ok a) = returned refl
map_err-Ensures f (err e) = refused
map_err-Ensures f panics = crashed

-- Two postconditions of one call.
pub Ensures-both :
    {E A : Type 0} {P Q : A → Type 0} {r : Result E A}
    → Ensures P r
    → Ensures Q r
    → Ensures (λ a. P a × Q a) r
Ensures-both {Q} (returned {a} p) q = returned (p, Ensures-ok q refl)
Ensures-both refused q = refused
Ensures-both crashed q = crashed

-- What holds of any call.
pub anything : {E A : Type 0} (r : Result E A) → Ensures (λ _. Unit {0}) r
anything (ok a) = returned tt
anything (err e) = refused
anything panics = crashed

-- A call's own equation.
pub itself : {E A : Type 0} (r : Result E A) → Ensures (λ a. r ≡ ok a) r
itself (ok a) = returned refl
itself (err e) = refused
itself panics = crashed

-- `Q` holds, if the call panics.
pub data Crashes {E A : Type 0} (Q : Type 0) : Result E A → Type 0 where
  answered : {a : A} → Crashes Q (ok a)
  declined : {e : E} → Crashes Q (err e)
  because : Q → Crashes Q panics

pub Crashes-panics : {E A Q : Type 0} {r : Result E A} → Crashes Q r → r ≡ panics → Q
Crashes-panics answered h = cc
Crashes-panics declined h = cc
Crashes-panics (because q) h = q

module _ {E A Q : Type 0} where
  pub Crashes-if :
      (b : Bool) {x y : Result E A}
      → (b ≡ true → Crashes Q x)
      → (b ≡ false → Crashes Q y)
      → Crashes Q (if b then x else y)
  Crashes-if true hx hy = hx refl
  Crashes-if false hx hy = hy refl

  pub Crashes-weaken : {P : Type 0} {r : Result E A} → (Q → P) → Crashes Q r → Crashes P r
  Crashes-weaken f answered = answered
  Crashes-weaken f declined = declined
  Crashes-weaken f (because q) = because (f q)

  -- What holds of the value that the first call returns is known of the second.
  pub Crashes-bind :
      {B : Type 0} {P : A → Type 0} {r : Result E A} {f : A → Result E B}
      → Crashes Q r
      → Ensures P r
      → ((a : A) → P a → Crashes Q (f a))
      → Crashes Q (r >>= f)
  Crashes-bind answered (returned {a} p) h = h a p
  Crashes-bind declined p h = declined
  Crashes-bind (because q) p h = because q

pub map_err-Crashes :
    {E F A Q : Type 0} (f : E → F) {r : Result E A} → Crashes Q r → Crashes Q (map_err f r)
map_err-Crashes f answered = answered
map_err-Crashes f declined = declined
map_err-Crashes f (because q) = because q

-- `Q` holds of the error, if the call comes to one.
pub data Faults {E A : Type 0} (Q : E → Type 0) : Result E A → Type 0 where
  passed : {a : A} → Faults Q (ok a)
  at_fault : {e : E} → Q e → Faults Q (err e)
  fell : Faults Q panics

pub Faults-err :
    {E A : Type 0} {Q : E → Type 0} {r : Result E A} {e : E} → Faults Q r → r ≡ err e → Q e
Faults-err passed h = cc
Faults-err {Q} (at_fault q) h = subst Q (cc) q
Faults-err fell h = cc

-- A call's own error.
pub own_error : {E A : Type 0} (r : Result E A) → Faults (λ e. r ≡ err e) r
own_error (ok a) = passed
own_error (err e) = at_fault refl
own_error panics = fell

module _ {E A : Type 0} {Q : E → Type 0} where
  pub Faults-if :
      (b : Bool) {x y : Result E A}
      → (b ≡ true → Faults Q x)
      → (b ≡ false → Faults Q y)
      → Faults Q (if b then x else y)
  Faults-if true hx hy = hx refl
  Faults-if false hx hy = hy refl

  pub Faults-weaken :
      {P : E → Type 0} {r : Result E A} → ((e : E) → P e → Q e) → Faults P r → Faults Q r
  Faults-weaken f passed = passed
  Faults-weaken f (at_fault p) = at_fault (f _ p)
  Faults-weaken f fell = fell

  -- What holds of the value that the first call returns is known of the second.
  pub Faults-bind :
      {B : Type 0} {P : A → Type 0} {r : Result E A} {f : A → Result E B}
      → Faults Q r
      → Ensures P r
      → ((a : A) → P a → Faults Q (f a))
      → Faults Q (r >>= f)
  Faults-bind passed (returned {a} p) h = h a p
  Faults-bind (at_fault q) p h = at_fault q
  Faults-bind fell p h = fell

pub map_err-Faults :
    {E F A : Type 0} {Q : F → Type 0} (f : E → F) {r : Result E A}
    → Faults (λ e. Q (f e)) r
    → Faults Q (map_err f r)
map_err-Faults f passed = passed
map_err-Faults f (at_fault q) = at_fault q
map_err-Faults f fell = fell
