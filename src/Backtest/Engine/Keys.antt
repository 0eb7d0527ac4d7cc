-- ===== src/Backtest/Engine/Keys.antt =====
-- The semantic keys of backtest/engine.py and their order. SHA-256 of a canonical document and
-- `str(Decimal)` are the parameters of `Rendering`; the numbers are rendered here.
use bisfin.Base.{
  ℕ, zero, suc, ◌+◌, ◌/◌, ◌%◌, Bool, true, false, List, [], ◌∷◌, ◌++◌, ltb, ◌==◌, if◌then◌else◌,
}
use bisfin.Decimal.{Decimal}
use bisfin.Backtest.Contracts.{DecisionBar, SmaParameters}
use bisfin.Backtest.Accounting.{PositionState}
use bisfin.Backtest.Engine.Records.{Text}

pub record Rendering : Type 0 where
  pub run_identity : Text
  pub str_decimal : Decimal → Text
  pub state_hash : ℕ → Decimal → PositionState → SmaParameters → Text
  pub input_hash : List DecisionBar → Text

-- The digits of `n` before `acc`, on fuel: `n` rounds are enough for `n`.
digits_before : ℕ → ℕ → Text → Text
digits_before zero n acc = (48 + n % 10) ∷ acc
digits_before (suc fuel) n acc = elim (ltb n 10) [
  | true ↦ (48 + n) ∷ acc
  | false ↦ digits_before fuel (n / 10) ((48 + n % 10) ∷ acc)
]

-- `str(n)`.
unfoldable pub str_ℕ : ℕ → Text
unfolding digits_before
str_ℕ n = digits_before n n []

abbrev bar_sign : ℕ
bar_sign = b'|'

-- `"|".join((identity, str(sequence), str(instrument_id), str(target_quantity)))`.
unfoldable pub semantic_key_of : Rendering → ℕ → ℕ → Decimal → Text
unfolding str_ℕ
semantic_key_of r sequence instrument_id target =
    r.run_identity
    ++ (bar_sign ∷ str_ℕ sequence)
    ++ (bar_sign ∷ str_ℕ instrument_id)
    ++ (bar_sign ∷ r.str_decimal target)

-- `x <= y` on texts: code point by code point.
unfoldable pub leb_text : Text → Text → Bool
leb_text [] ys = true
leb_text (x ∷ xs) [] = false
leb_text (x ∷ xs) (y ∷ ys) =
    let rest = leb_text xs ys in if ltb x y then true else if x == y then rest else false
