-- ===== src/Base/Optional.antt =====
-- Chains of optional values.
use bisfin.Base.{arith, ◌≡◌, Option, none, some, refl}

infixl 5 ◌>>=◌
abbrev pub ◌>>=◌ : {A B : Type 0} → Option A → (A → Option B) → Option B
none >>= f = none
some a >>= f = f a

-- A chain that gave a value: its first step did, and so did the rest.
pub >>=-some-inv :
    {A B : Type 0} (step : Option A) (rest : A → Option B) {b : B}
    → (step >>= rest) ≡ some b
    → (a : A) × (step ≡ some a) × (rest a ≡ some b)
>>=-some-inv (some a) rest h = (a, refl, h)
>>=-some-inv none rest h = absurd (ground arith)
