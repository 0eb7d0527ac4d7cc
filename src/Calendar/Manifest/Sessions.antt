-- ===== src/Calendar/Manifest/Sessions.antt =====
-- The dates of the sessions in `validate_calendar_manifest` of calendar/manifest.py.
use bisfin.Calendar.Manifest.Dates.{AreAscending, In-mem_date}
use bisfin.Base.Result.{ok, ok_injective}
use bisfin.Base.{
  ℕ, List, ◌∷◌, ◌≡◌, In, All, map, arith, true, ◌≢◌, ◌<◌, [], inl, Bool-cases, ◌⊎◌, sym, ap, inr,
  subst, refl, All-imp,
}
use bisfin.Base.Sort.{insert_sorted, IsOrder, sorted, IsSorted, All-sorted, All-insert_sorted}
use bisfin.Calendar.Manifest.{CalendarSession, collect_dates, le_date, CalendarManifest}

abbrev pub date_of : CalendarSession → ℕ
date_of s = s.trading_date

pub In-map_date :
    (s : CalendarSession) (ss : List CalendarSession) → In s ss → In s.trading_date (map date_of ss)
In-map_date s [] i = elim i [ ]
In-map_date s (x ∷ ss) (inl e) = inl (ap date_of e)
In-map_date s (x ∷ ss) (inr i) = inr (In-map_date s ss i)

pub map_date-inv :
    (d : ℕ) (ss : List CalendarSession)
    → In d (map date_of ss)
    → (s : CalendarSession) × In s ss × (d ≡ s.trading_date)
map_date-inv d [] i = elim i [ ]
map_date-inv d (x ∷ ss) (inl e) = (x, inl refl, e)
map_date-inv d (x ∷ ss) (inr i) = let (s, j, e) = map_date-inv d ss i in (s, inr j, e)

-- No date stands twice.
abbrev AreDistinct : List CalendarSession → Type 0
AreDistinct [] = Unit
AreDistinct (s ∷ ss) = All (λ t. t.trading_date ≢ s.trading_date) ss × AreDistinct ss

pub collect_dates-inv :
    (m : CalendarManifest) (ss : List CalendarSession) (seen all : List ℕ)
    → collect_dates m ss seen ≡ ok all
    → AreDistinct ss
      × All (λ t. In t.trading_date seen → ⊥) ss
      × ((d : ℕ) → In d all → In d (map date_of ss) ⊎ In d seen)
      × ((d : ℕ) → In d (map date_of ss) ⊎ In d seen → In d all)
unfolding collect_dates
collect_dates-inv m [] seen all e = (
  tt,
  tt,
  (λ d i. inr (subst (In d) (sym (ok_injective e)) i)),
  (λ d i. elim i [ inl j ↦ elim j [ ] | inr j ↦ subst (In d) (ok_injective e) j ]),
)
collect_dates-inv m (s ∷ ss) seen all e =
    let (distinct, fresh, sound, complete) =
      collect_dates-inv m ss (s.trading_date ∷ seen) all (collected e) in
    (
      (
        All-imp (λ t. In t.trading_date (s.trading_date ∷ seen) → ⊥)
            (λ t. t.trading_date ≢ s.trading_date) ss (λ t h q. h (inl q)) fresh,
        distinct,
      ),
      (
        (λ i. unseen e i),
        All-imp (λ t. In t.trading_date (s.trading_date ∷ seen) → ⊥)
            (λ t. In t.trading_date seen → ⊥) ss (λ t h i. h (inr i)) fresh,
      ),
      (λ d i. left d (sound d i)),
      (λ d i. complete d (right d i)),
    )
  where
    collected :
        collect_dates m (s ∷ ss) seen ≡ ok all → collect_dates m ss (s.trading_date ∷ seen) ≡ ok all
    collected h = ground arith

    unseen : collect_dates m (s ∷ ss) seen ≡ ok all → In s.trading_date seen → ⊥
    unseen h i = let old = In-mem_date s.trading_date seen i in ground arith

    left :
        (d : ℕ)
        → In d (map date_of ss) ⊎ In d (s.trading_date ∷ seen)
        → In d (map date_of (s ∷ ss)) ⊎ In d seen
    left d (inl i) = inl (inr i)
    left d (inr (inl q)) = inl (inl q)
    left d (inr (inr i)) = inr i

    right :
        (d : ℕ)
        → In d (map date_of (s ∷ ss)) ⊎ In d seen
        → In d (map date_of ss) ⊎ In d (s.trading_date ∷ seen)
    right d (inl (inl q)) = inr (inl q)
    right d (inl (inr i)) = inl i
    right d (inr i) = inr (inr i)

insert_sorted-AreDistinct :
    (s : CalendarSession) (ss : List CalendarSession)
    → All (λ t. t.trading_date ≢ s.trading_date) ss
    → AreDistinct ss
    → AreDistinct (insert_sorted le_date s ss)
unfolding insert_sorted
insert_sorted-AreDistinct s [] n h = (tt, tt)
insert_sorted-AreDistinct s (x ∷ ss) n h = elim (Bool-cases (le_date s x)) [
  | inl e ↦ rw e (n, h)
  | inr e ↦ rw e (
    All-insert_sorted le_date (λ t. t.trading_date ≢ x.trading_date) s ss (λ q. n.0 (sym q)) h.0,
    insert_sorted-AreDistinct s ss n.1 h.1,
  )
]

pub sorted-AreDistinct :
    (ss : List CalendarSession) → AreDistinct ss → AreDistinct (sorted le_date ss)
unfolding sorted
sorted-AreDistinct [] h = tt
sorted-AreDistinct (s ∷ ss) h =
    insert_sorted-AreDistinct s (sorted le_date ss)
      (All-sorted le_date (λ t. t.trading_date ≢ s.trading_date) ss h.0) (sorted-AreDistinct ss h.1)

pub sorted_dates-AreAscending :
    (ss : List CalendarSession)
    → IsSorted le_date ss
    → AreDistinct ss
    → AreAscending (map date_of ss)
sorted_dates-AreAscending [] s h = tt
sorted_dates-AreAscending (x ∷ ss) s h = (above ss s.0 h.0, sorted_dates-AreAscending ss s.1 h.1)
  where
    above :
        (ts : List CalendarSession)
        → All (λ t. le_date x t ≡ true) ts
        → All (λ t. t.trading_date ≢ x.trading_date) ts
        → All (λ e. x.trading_date < e) (map date_of ts)
    above [] p q = tt
    above (t ∷ ts) p q = (ground (arith, p.0, q.0), above ts p.1 q.1)

pub le_date-IsOrder : IsOrder le_date
le_date-IsOrder = record { total = λ x y h. ground arith; trans = λ x y z h k. ground arith }
