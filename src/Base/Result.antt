-- ===== src/Base/Result.antt =====
-- A computation that may raise: its value, or the error.
use bisfin.Base.{◌≡◌, refl, Bool, true, false, ◌⊎◌, inl, inr, arith}

pub data Result (E A : Type 0) : Type 0 where
  ok : A → Result E A
  err : E → Result E A

infixl 5 ◌>>=◌ ◌>>◌
abbrev pub ◌>>=◌ : {E A B : Type 0} → Result E A → (A → Result E B) → Result E B
ok a >>= f = f a
err e >>= f = err e

abbrev pub ◌>>◌ : {E B : Type 0} → Result E Unit → Result E B → Result E B
m >> k = m >>= λ _. k

-- `if c: raise e`.
abbrev pub raise_if : {E : Type 0} → Bool → E → Result E Unit
raise_if true e = err e
raise_if false e = ok tt

pub Result-cases :
    {E A : Type 0} (r : Result E A) → ((a : A) × (r ≡ ok a)) ⊎ ((e : E) × (r ≡ err e))
Result-cases (ok a) = inl (a, refl)
Result-cases (err e) = inr (e, refl)

-- A chain that succeeded: its first step gave a value, and the rest succeeded with it.
module _ {E A B : Type 0} (step : Result E A) (rest : A → Result E B) where
  pub >>=-inv : {b : B} → (step >>= rest) ≡ ok b → (a : A) × (step ≡ ok a) × (rest a ≡ ok b)
  >>=-inv h = elim (Result-cases step) [
    | inr (e, raised) ↦ absurd (ground arith)
    | inl (a, given) ↦ (a, given, ground arith)
  ]

pub ok_injective : {E A : Type 0} {a b : A} → ◌≡◌ {A = Result E A} (ok a) (ok b) → a ≡ b
ok_injective h = cc

-- A chain that passed a guard: the test failed, and the rest succeeded.
pub raise_if-inv :
    {E A : Type 0} (b : Bool) (e : E) (rest : Result E A) {a : A}
    → (raise_if b e >> rest) ≡ ok a
    → (b ≡ false) × (rest ≡ ok a)
raise_if-inv true e rest h = absurd (ground arith)
raise_if-inv false e rest h = (refl, h)

-- A step under another kind of error.
abbrev pub map_err : {E F A : Type 0} → (E → F) → Result E A → Result F A
map_err f (ok a) = ok a
map_err f (err e) = err (f e)

pub map_err-inv :
    {E F A : Type 0} (f : E → F) (r : Result E A) {a : A} → map_err f r ≡ ok a → r ≡ ok a
map_err-inv f (ok b) h = cc
map_err-inv f (err e) h = absurd (cc)

-- The work of a transaction, whose commit may be failed.
abbrev pub commit : {E A : Type 0} → Bool → E → Result E A → Result E A
commit true e work = work >>= λ _. err e
commit false e work = work

pub commit-inv :
    {E A : Type 0} (fault : Bool) (e : E) (work : Result E A) {a : A}
    → commit fault e work ≡ ok a
    → work ≡ ok a
commit-inv true e (ok b) h = absurd (ground arith)
commit-inv true e (err f) h = absurd (ground arith)
commit-inv false e work h = h
