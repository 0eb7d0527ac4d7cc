-- ===== src/Calendar/Manifest/Dates.antt =====
-- Lists of dates, and the range that `validate_calendar_manifest` expects.
use bisfin.Base.{
  ℕ, List, ◌∷◌, ◌≡◌, In, All, arith, suc, true, ◌≤◌, ◌<◌, ◌+◌, [], inl, sym, zero, inr, All-In,
  refl,
}
use bisfin.Calendar.Manifest.{mem_date, dates_from, all_in}

-- The dates are strictly increasing.
abbrev pub AreAscending : List ℕ → Type 0
AreAscending [] = Unit
AreAscending (d ∷ ds) = All (λ e. d < e) ds × AreAscending ds

mem_date-In : (d : ℕ) (ds : List ℕ) → mem_date d ds ≡ true → In d ds
unfolding mem_date
mem_date-In d [] h = absurd (ground arith)
mem_date-In d (e ∷ ds) h = ground (arith, mem_date-In d ds)

pub In-mem_date : (d : ℕ) (ds : List ℕ) → In d ds → mem_date d ds ≡ true
unfolding mem_date
In-mem_date d [] i = elim i [ ]
In-mem_date d (e ∷ ds) i = ground (arith, In-mem_date d ds)

pub all_in_sound : (xs ys : List ℕ) (d : ℕ) → all_in xs ys ≡ true → In d xs → In d ys
all_in_sound [] ys d h i = elim i [ ]
all_in_sound (x ∷ xs) ys d h i = ground (arith, mem_date-In x ys, all_in_sound xs ys d)

In-dates_from : (d e n : ℕ) → In e (dates_from d n) → d ≤ e
unfolding dates_from
In-dates_from d e zero i = elim i [ ]
In-dates_from d e (suc n) i = ground (arith, In-dates_from (d + 1) e n)

-- A strictly increasing list with the dates of a range is that range.
pub ascending_dates :
    (ds : List ℕ) (d n : ℕ)
    → AreAscending ds
    → ((e : ℕ) → In e ds → In e (dates_from d n))
    → ((e : ℕ) → In e (dates_from d n) → In e ds)
    → ds ≡ dates_from d n
unfolding dates_from
ascending_dates [] d zero a sound complete = refl
ascending_dates [] d (suc n) a sound complete = elim (complete d (inl refl)) [ ]
ascending_dates (x ∷ ds) d zero a sound complete = elim (sound x (inl refl)) [ ]
ascending_dates (x ∷ ds) d (suc n) a sound complete =
    let same = first (complete d (inl refl)) (sound x (inl refl)) in
    ap2 x d ds (dates_from (d + 1) n) same (
      ascending_dates ds (d + 1) n a.1 (λ e i. later e same i (sound e (inr i)))
        (λ e i. found e same i (complete e (inr i))))
  where
    first : In d (x ∷ ds) → In x (dates_from d (suc n)) → x ≡ d
    first (inl p) q = sym p
    first (inr p) (inl q) = q
    first (inr p) (inr q) =
        let lt = All-In (λ e. x < e) d ds a.0 p in
        let ge = In-dates_from (d + 1) x n q in absurd (omega arith)

    later : (e : ℕ) → x ≡ d → In e ds → In e (dates_from d (suc n)) → In e (dates_from (d + 1) n)
    later e s i (inl q) = let lt = All-In (λ z. x < z) e ds a.0 i in absurd (omega arith)
    later e s i (inr q) = q

    found : (e : ℕ) → x ≡ d → In e (dates_from (d + 1) n) → In e (x ∷ ds) → In e ds
    found e s i (inl q) = let ge = In-dates_from (d + 1) e n i in absurd (omega arith)
    found e s i (inr q) = q

    ap2 : (a b : ℕ) (xs ys : List ℕ) → a ≡ b → xs ≡ ys → ◌≡◌ {A = List ℕ} (a ∷ xs) (b ∷ ys)
    ap2 a b xs ys p q = cc
