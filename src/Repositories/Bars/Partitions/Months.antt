-- ===== src/Repositories/Bars/Partitions/Months.antt =====
-- The months of `ensure_month_partitions` of repositories/bar_writer_repository.py, in their order.
use bisfin.Base.{
  ℕ, List, In, ◌∷◌, All, ◌++◌, ◌<◌, ◌≡◌, ltb, Bool-cases, inl, ◌||◌, [], true, ◌==◌, inr, arith,
  ◌∙◌, refl, All-imp, sym, subst, ==_iff, map, ◌↔◌, Bool, if◌then◌else◌,
}
use bisfin.Repositories.Bars.{
  months_of, insert_month, partition_calls, run_partition_calls, has, first_of_month,
}

-- Each number is less than all that follow it.
abbrev pub IsAscending : List ℕ → Type 0
IsAscending [] = Unit
IsAscending (m ∷ ms) = All (λ (n : ℕ). m < n) ms × IsAscending ms

insert_month-All :
    (P : ℕ → Type 0) (m : ℕ) (ms : List ℕ) → P m → All P ms → All P (insert_month m ms)
unfolding insert_month
insert_month-All P m [] p h = (p, tt)
insert_month-All P m (n ∷ ns) p h = elim (Bool-cases (ltb m n)) [
  | inl less ↦ rw less (p, h)
  | inr more ↦ elim (Bool-cases (m == n)) [
    | inl same ↦ rw (more, same) h
    | inr other ↦ rw (more, other) (h.0, insert_month-All P m ns p h.1)
  ]
]

insert_month-IsAscending : (m : ℕ) (ms : List ℕ) → IsAscending ms → IsAscending (insert_month m ms)
unfolding insert_month
insert_month-IsAscending m [] h = (tt, tt)
insert_month-IsAscending m (n ∷ ns) h = elim (Bool-cases (ltb m n)) [
  | inl less ↦ rw less (
    (below less, All-imp (λ (k : ℕ). n < k) (λ (k : ℕ). m < k) ns (λ k p. above less k p) h.0),
    h,
  )
  | inr more ↦ elim (Bool-cases (m == n)) [
    | inl same ↦ rw (more, same) h
    | inr other ↦
        rw (more, other)
          (
            insert_month-All (λ (k : ℕ). n < k) m ns (ground arith) h.0,
            insert_month-IsAscending m ns h.1,
          )
  ]
]
  where
    below : ltb m n ≡ true → m < n
    below e = ground arith

    above : ltb m n ≡ true → (k : ℕ) → n < k → m < k
    above e k p = ground arith

pub months_of-IsAscending : (dates : List ℕ) → IsAscending (months_of dates)
unfolding months_of
months_of-IsAscending [] = tt
months_of-IsAscending (d ∷ ds) =
    insert_month-IsAscending (first_of_month d) (months_of ds) (months_of-IsAscending ds)

pub has-In : (k : ℕ) (ms : List ℕ) → (has k ms ≡ true) ↔ In k ms
has-In k ms = (found k ms, listed k ms)
  where
    found : (k : ℕ) (ms : List ℕ) → has k ms ≡ true → In k ms
    found k [] h = absurd (ground arith)
    found k (n ∷ ns) h = elim (Bool-cases (n == k)) [
      | inl e ↦ inl (sym ((==_iff n k).0 e))
      | inr e ↦ inr (found k ns (ground arith))
    ]

    listed : (k : ℕ) (ms : List ℕ) → In k ms → has k ms ≡ true
    listed k [] i = elim i [ ]
    listed k (n ∷ ns) (inl e) = ground arith
    listed k (n ∷ ns) (inr i) = ground (arith, listed k ns i)

has-insert_month : (k m : ℕ) (ms : List ℕ) → has k (insert_month m ms) ≡ ((m == k) || has k ms)
unfolding insert_month
has-insert_month k m [] = refl
has-insert_month k m (n ∷ ns) = ground (arith, has-insert_month k m ns)

-- The months are those of the dates.
pub has-months_of :
    (k : ℕ) (dates : List ℕ) → has k (months_of dates) ≡ has k (map first_of_month dates)
unfolding months_of
has-months_of k [] = refl
has-months_of k (d ∷ ds) =
    has-insert_month k (first_of_month d) (months_of ds) ∙ rw (has-months_of k ds) refl

has-append : (k : ℕ) (ms : List ℕ) (m : ℕ) → has k (ms ++ m ∷ []) ≡ (has k ms || (m == k))
has-append k [] m = ground arith
has-append k (n ∷ ns) m = ground (arith, has-append k ns m)

has_of_same : (m k : ℕ) (ms : List ℕ) → has m ms ≡ true → (m == k) ≡ true → has k ms ≡ true
has_of_same m k ms h e = subst (λ (n : ℕ). has n ms ≡ true) ((==_iff m k).0 e) h

has_of_created :
    (k m : ℕ) (months : List ℕ)
    → has k (if has m months then months else months ++ m ∷ []) ≡ (has k months || (m == k))
has_of_created k m months = elim (Bool-cases (has m months)) [
  | inl old ↦ rw old (ground (arith, has_of_same m k months old))
  | inr new ↦ rw new (has-append k months m)
]

-- A month has a partition afterwards exactly when it is among the months of the loop or had one.
pub has-run_partition_calls :
    (k : ℕ) (created months : List ℕ)
    → has k (run_partition_calls (partition_calls created) months) ≡ (has k created || has k months)
unfolding partition_calls run_partition_calls
has-run_partition_calls k [] months = refl
has-run_partition_calls k (m ∷ ms) months =
    has-run_partition_calls k ms (if has m months then months else months ++ m ∷ [])
    ∙ swapped (has k ms) (m == k) _ (has k months) (has_of_created k m months)
  where
    swapped : (a b c d : Bool) → c ≡ (d || b) → (a || c) ≡ ((b || a) || d)
    swapped a b c d e = ground arith
