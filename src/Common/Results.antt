-- ===== src/Common/Results.antt =====
-- Python's exceptions as values: a call returns or raises, and the error type is the caller's.
use mathlib.Core.Path.{◌≡◌, refl, ap}
use mathlib.Core.Logic.{◌⊎◌, inl, inr}
use mathlib.Core.Bool.{Bool, true, false}
use mathlib.Core.Option.{Option, none, some}

pub data Result (E A : Type 0) : Type 0 where
  ok : A → Result E A
  raise : E → Result E A

infixl 5 ◌>>=◌ ◌>>◌
-- a call, and what follows it when it returns
abbrev pub ◌>>=◌ : {E A B : Type 0} → Result E A → (A → Result E B) → Result E B
raise problem >>= next = raise problem
ok value >>= next = next value

-- a check, and what follows it when it passes
abbrev pub ◌>>◌ : {E B : Type 0} → Result E (Unit {0}) → Result E B → Result E B
raise problem >> next = raise problem
ok _ >> next = next

module _ {E : Type 0} where
  -- `if c: raise e`
  abbrev pub raise_if : Bool → E → Result E (Unit {0})
  raise_if true e = raise e
  raise_if false e = ok tt

  -- `if not c: raise e`
  abbrev pub require : Bool → E → Result E (Unit {0})
  require true e = ok tt
  require false e = raise e

  abbrev pub some_or : {A : Type 0} → Option A → E → Result E A
  some_or none e = raise e
  some_or (some a) e = ok a

abbrev pub is_ok : {E A : Type 0} → Result E A → Bool
is_ok (ok _) = true
is_ok (raise _) = false

-- `except Error as exc: raise Other(...) from exc`
abbrev pub map_error : {E F A : Type 0} → (E → F) → Result E A → Result F A
map_error f (ok a) = ok a
map_error f (raise e) = raise (f e)

-- A chain that returns has passed its first call.
pub >>=-eq-ok :
    {E A B : Type 0} (call : Result E A) (next : A → Result E B) {out : B}
    → (call >>= next) ≡ ok out
    → (value : A) × (call ≡ ok value) × (next value ≡ ok out)
>>=-eq-ok (raise problem) next returned = cc
>>=-eq-ok (ok value) next returned = (value, refl, returned)

pub >>-eq-ok :
    {E B : Type 0} (check : Result E (Unit {0})) (next : Result E B) {out : B}
    → (check >> next) ≡ ok out
    → (check ≡ ok tt) × (next ≡ ok out)
>>-eq-ok (raise problem) next returned = cc
>>-eq-ok (ok tt) next returned = (refl, returned)

-- what a check that passes has tested
pub require-true : {E : Type 0} (b : Bool) (e : E) → require b e ≡ ok tt → b ≡ true
require-true true e h = refl
require-true false e h = cc

pub raise_if-false : {E : Type 0} (b : Bool) (e : E) → raise_if b e ≡ ok tt → b ≡ false
raise_if-false true e h = cc
raise_if-false false e h = refl

pub some_or-some : {E A : Type 0} (o : Option A) (e : E) (a : A) → some_or o e ≡ ok a → o ≡ some a
some_or-some none e a h = cc
some_or-some (some b) e a h = let same : b ≡ a = cc in ap some same

pub Result-cases :
    {E A : Type 0} (r : Result E A) → ((e : E) × (r ≡ raise e)) ⊎ ((a : A) × (r ≡ ok a))
Result-cases (ok a) = inr (a, refl)
Result-cases (raise e) = inl (e, refl)
