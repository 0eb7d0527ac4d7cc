-- ===== src/Repositories/Bars/AppendOnly.antt =====
-- What `append_revision_if_changed` does to the revisions of a bar.
use mathlib.Core.List.{append-nil}
use bisfin.Repositories.Bars.{BarRevision}
use bisfin.Repositories.Bars.Revisions.{latest, is_bar, next_no}
use bisfin.Base.{
  ℕ, List, Option, [], ◌∷◌, suc, ◌<◌, ◌++◌, ◌≡◌, zero, if◌then◌else◌, some, none, arith, length,
  ltb, ◌+◌, ◌-◌, refl, Bool-cases, ◌∙◌, ap, inr, inl, true, length-append, subst, sym,
}

-- The numbers of the revisions of a bar, in the order of the table.
unfoldable pub numbers : ℕ → ℕ → List BarRevision → List ℕ
numbers series opened [] = []
numbers series opened (r ∷ rs) =
    if is_bar series opened r
    then r.revision_no ∷ numbers series opened rs
    else numbers series opened rs

-- `n` numbers from `k` on.
abbrev range_from : ℕ → ℕ → List ℕ
range_from k zero = []
range_from k (suc n) = k ∷ range_from (suc k) n

-- The revisions of each bar are numbered from one, without a gap.
abbrev pub AreNumbered : List BarRevision → Type 0
AreNumbered rs =
    (series opened : ℕ)
    → numbers series opened rs ≡ range_from 1 (length (numbers series opened rs))

-- The greatest of the numbers, 0 for none.
abbrev greatest : List ℕ → ℕ
greatest [] = 0
greatest (n ∷ ns) = if ltb (greatest ns) n then n else greatest ns

abbrev pub number_of : Option BarRevision → ℕ
number_of none = 0
number_of (some r) = r.revision_no

greatest-range_from : (k n : ℕ) → 0 < k → 0 < n → greatest (range_from k n) ≡ k + n - 1
greatest-range_from k zero p q = absurd (omega arith)
greatest-range_from k (suc zero) p q = ground arith
greatest-range_from k (suc (suc n)) p q = ground (arith, greatest-range_from (suc k) (suc n))

number_of-latest :
    (series opened : ℕ) (rs : List BarRevision)
    → number_of (latest series opened rs) ≡ greatest (numbers series opened rs)
unfolding latest numbers
number_of-latest series opened [] = refl
number_of-latest series opened (r ∷ rs) = ground (arith, number_of-latest series opened rs)

numbers-append :
    (series opened : ℕ) (rs : List BarRevision) (r : BarRevision)
    → numbers series opened (rs ++ r ∷ [])
      ≡ numbers series opened rs ++ (if is_bar series opened r then r.revision_no ∷ [] else [])
unfolding numbers
numbers-append series opened [] r = ground arith
numbers-append series opened (q ∷ rs) r = ground (arith, numbers-append series opened rs r)

range_from-suc : (k n : ℕ) → range_from k (suc n) ≡ range_from k n ++ (k + n) ∷ []
range_from-suc k zero = ground arith
range_from-suc k (suc n) = ground (arith, range_from-suc (suc k) n)

-- In a numbered table the greatest number of a bar counts its revisions.
number_of-latest_count :
    (series opened : ℕ) (rs : List BarRevision)
    → AreNumbered rs
    → number_of (latest series opened rs) ≡ length (numbers series opened rs)
number_of-latest_count series opened rs h =
    number_of-latest series opened rs
    ∙ ap greatest (h series opened)
    ∙ counted (length (numbers series opened rs))
  where
    counted : (n : ℕ) → greatest (range_from 1 n) ≡ n
    counted zero = refl
    counted (suc n) = ground (arith, greatest-range_from 1 (suc n))

pub next_no-latest :
    (series opened : ℕ) (rs : List BarRevision)
    → AreNumbered rs
    → next_no (latest series opened rs) ≡ suc (length (numbers series opened rs))
next_no-latest series opened rs h =
    added (latest series opened rs) (number_of-latest_count series opened rs h)
  where
    added :
        (o : Option BarRevision)
        → number_of o ≡ length (numbers series opened rs)
        → next_no o ≡ suc (length (numbers series opened rs))
    added none e = ground arith
    added (some r) e = ground arith

range_from-extend :
    (l : List ℕ) (n : ℕ)
    → l ≡ range_from 1 (length l)
    → n ≡ suc (length l)
    → l ++ n ∷ [] ≡ range_from 1 (length (l ++ n ∷ []))
range_from-extend l n h e =
    ap (λ (x : List ℕ). x ++ n ∷ []) h
    ∙ ap (λ (k : ℕ). range_from 1 (length l) ++ k ∷ []) numbered
    ∙ sym (range_from-suc 1 (length l))
    ∙ ap (range_from 1) grown
  where
    numbered : n ≡ 1 + length l
    numbered = omega (arith, e)

    grown : suc (length l) ≡ length (l ++ n ∷ [])
    grown = omega (arith, length-append l (n ∷ []))

-- The record of one more revision of a bar, behind the others.
pub append-AreNumbered :
    (rs : List BarRevision) (r : BarRevision)
    → AreNumbered rs
    → r.revision_no ≡ suc (length (numbers r.values.bar_series_id r.values.bar_open_ts rs))
    → AreNumbered (rs ++ r ∷ [])
append-AreNumbered rs r h e series opened = elim (Bool-cases (is_bar series opened r)) [
  | inr other ↦ rw (numbers-append series opened rs r, other, append-nil) (h series opened)
  | inl same ↦
      rw (numbers-append series opened rs r, same)
        (range_from-extend (numbers series opened rs) r.revision_no (h series opened) (
          subst (λ (k : ℕ × ℕ). r.revision_no ≡ suc (length (numbers k.0 k.1 rs))) (same_bar same)
            e))
]
  where
    same_bar :
        is_bar series opened r ≡ true
        → ◌≡◌ {A = ℕ × ℕ} (r.values.bar_series_id, r.values.bar_open_ts) (series, opened)
    same_bar q = ground arith
