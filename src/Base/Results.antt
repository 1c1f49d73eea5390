-- ===== src/Base/Results.antt =====
-- Python exceptions as values: the module's own exception with its reason, and the two built-in
-- exceptions that the modelled code can meet.
use native.Mathlib.Omega.{arith}
use mathlib.Core.Path.{◌≡◌, refl}
use mathlib.Core.Bool.{Bool, true, false}
use mathlib.Core.Option.{Option, none, some}

pub data Raised (R : Type 0) : Type 0 where
  raised : R → Raised R
  type_error : Raised R
  value_error : Raised R

pub data Result (R : Type 0) (A : Type 0) : Type 0 where
  ok : A → Result R A
  err : Raised R → Result R A

infixl 5 ◌>>=◌ ◌>>◌
abbrev pub ◌>>=◌ : {R A B : Type 0} → Result R A → (A → Result R B) → Result R B
ok a >>= f = f a
err e >>= f = err e

abbrev pub ◌>>◌ : {R A B : Type 0} → Result R A → Result R B → Result R B
m >> k = m >>= λ _. k

-- `if test: raise …(reason)`
unfoldable pub raise_if : {R : Type 0} → Bool → R → Result R (Unit {0})
raise_if true r = err (raised r)
raise_if false r = ok tt

-- A chain that ended well: its first step did, with the value that the rest took.
pub >>=-eq-ok :
    {R A B : Type 0} (first : Result R A) (next : A → Result R B) {out : B}
    → (first >>= next) ≡ ok out
    → (x : A) × (first ≡ ok x) × (next x ≡ ok out)
>>=-eq-ok (ok x) next ended = (x, refl, ended)
>>=-eq-ok (err raised_first) next ended = cc

pub raise_if-eq-ok :
    {R : Type 0} (b : Bool) (r : R) {u : Unit {0}} → raise_if b r ≡ ok u → b ≡ false
unfolding raise_if
raise_if-eq-ok true r h = cc
raise_if-eq-ok false r h = refl

-- the value of an `Option`, or the exception
unfoldable pub expect : {R A : Type 0} → Option A → R → Result R A
expect none r = err (raised r)
expect (some a) r = ok a

-- Inversions of the steps of a `do` block that ended well.
pub expect-eq-ok :
    {R A B : Type 0} (o : Option A) (r : R) (f : A → Result R B) {b : B}
    → (expect o r >>= f) ≡ ok b
    → (a : A) × (o ≡ some a) × (f a ≡ ok b)
unfolding expect
expect-eq-ok none r f h = cc
expect-eq-ok (some a) r f h = (a, refl, h)

pub guard-eq-ok :
    {R B : Type 0} (test : Bool) (r : R) (m : Result R B) {b : B}
    → (raise_if test r >> m) ≡ ok b
    → (test ≡ false) × (m ≡ ok b)
unfolding raise_if
guard-eq-ok true r m h = cc
guard-eq-ok false r m h = (refl, h)

pub ok-injective : {R A : Type 0} {a b : A} → ◌≡◌ {A = Result R A} (ok a) (ok b) → a ≡ b
ok-injective h = ground arith
