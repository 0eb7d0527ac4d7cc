-- ===== src/Repositories/Bars/Partitions.antt =====
-- `ensure_month_partitions` of repositories/bar_writer_repository.py: its statements and its months.
mod Months
pub use Months.{IsAscending}
use Months.{months_of-IsAscending, has-In, has-months_of, has-run_partition_calls}
use bisfin.Base.{
  ℕ, List, In, ◌∷◌, All, ◌++◌, ◌<◌, ◌≡◌, ltb, Bool-cases, inl, ◌||◌, [], true, ◌==◌, inr, arith,
  ◌∙◌, refl, All-imp, sym, subst, ap, ==_iff, map, ◌⊎◌, ◌↔◌, false,
}
use bisfin.Repositories.Bars.{
  months_of, ensure_month_partitions, insert_month, PartitionCall, lock, create, partition_calls,
  run_partition_calls, BarTables, has, first_of_month,
}
use bisfin.Repositories.Bars.Civil.{CivilDate, IsValid, ordinal}
use bisfin.Repositories.Bars.Civil.Starts.{first_of_month-ordinal}

-- The months that are locked, in the order of the statements.
abbrev pub locked : List PartitionCall → List ℕ
locked [] = []
locked (lock m ∷ calls) = m ∷ locked calls
locked (create m ∷ calls) = locked calls

-- A partition is created only of a month that is locked, by one of `held` or an earlier statement.
abbrev pub AreLocked : List ℕ → List PartitionCall → Type 0
AreLocked held [] = Unit
AreLocked held (lock m ∷ calls) = AreLocked (m ∷ held) calls
AreLocked held (create m ∷ calls) = In m held × AreLocked held calls

-- The first day of the month of one of the dates.
abbrev pub StartsMonthOf : List CivilDate → ℕ → Type 0
StartsMonthOf ds k = (d : CivilDate) × In d ds × (k ≡ ordinal d.year d.month 1)

abbrev pub day_of : CivilDate → ℕ
day_of d = ordinal d.year d.month d.day

-- What `ensure_month_partitions` does for some dates: the statements and the tables after them.
pub record IsPartitioned (ds : List CivilDate) (t : BarTables) (calls : List PartitionCall)
    (t' : BarTables) : Type 0 where
  pub run : t' ≡ record t { months = run_partition_calls calls t.months }
  pub order : IsAscending (locked calls)
  pub locks : (k : ℕ) → In k (locked calls) ↔ StartsMonthOf ds k
  pub held : AreLocked [] calls
  pub partitions : (k : ℕ) → In k t'.months ↔ (In k t.months ⊎ StartsMonthOf ds k)

locked-partition_calls : (ms : List ℕ) → locked (partition_calls ms) ≡ ms
unfolding partition_calls
locked-partition_calls [] = refl
locked-partition_calls (m ∷ ms) = ap (λ (ns : List ℕ). m ∷ ns) (locked-partition_calls ms)

partition_calls-AreLocked : (held ms : List ℕ) → AreLocked held (partition_calls ms)
unfolding partition_calls
partition_calls-AreLocked held [] = tt
partition_calls-AreLocked held (m ∷ ms) = (inl refl, partition_calls-AreLocked (m ∷ held) ms)

In-starts :
    (k : ℕ) (ds : List CivilDate)
    → All IsValid ds
    → In k (map first_of_month (map day_of ds)) ↔ StartsMonthOf ds k
In-starts k ds v = (found ds v, listed ds v)
  where
    found :
        (ds : List CivilDate)
        → All IsValid ds
        → In k (map first_of_month (map day_of ds))
        → StartsMonthOf ds k
    found [] v i = elim i [ ]
    found (d ∷ ds) v (inl e) = (d, inl refl, e ∙ first_of_month-ordinal d v.0)
    found (d ∷ ds) v (inr i) = let (x, j, e) = found ds v.1 i in (x, inr j, e)

    listed :
        (ds : List CivilDate)
        → All IsValid ds
        → StartsMonthOf ds k
        → In k (map first_of_month (map day_of ds))
    listed [] v (x, i, e) = elim i [ ]
    listed (d ∷ ds) v (x, inl same, e) = inl (
        e
        ∙ ap (λ (c : CivilDate). ordinal c.year c.month 1) same
        ∙ sym (first_of_month-ordinal d v.0))
    listed (d ∷ ds) v (x, inr i, e) = inr (listed ds v.1 (x, i, e))

module _ (ds : List CivilDate) (v : All IsValid ds) where
  In-months_of : (k : ℕ) → In k (months_of (map day_of ds)) ↔ StartsMonthOf ds k
  In-months_of k =
      let same = has-months_of k (map day_of ds) in
      (
        λ i. (In-starts k ds v).0 (
            (has-In k (map first_of_month (map day_of ds))).0
              (sym same ∙ (has-In k (months_of (map day_of ds))).1 i)),
        λ x.
            (has-In k (months_of (map day_of ds))).0
              (same ∙ (has-In k (map first_of_month (map day_of ds))).1 ((In-starts k ds v).1 x)),
      )

  In-partitioned :
      (t : BarTables) (k : ℕ)
      → In k (run_partition_calls (partition_calls (months_of (map day_of ds))) t.months)
        ↔ (In k t.months ⊎ StartsMonthOf ds k)
  In-partitioned t k =
      let ms = months_of (map day_of ds) in
      let after = run_partition_calls (partition_calls ms) t.months in
      let same = has-run_partition_calls k ms t.months in
      (
        λ i. split (Bool-cases (has k ms)) (sym same ∙ (has-In k after).1 i),
        λ x. (has-In k after).0 (same ∙ joined x),
      )
    where
      split :
          (has k (months_of (map day_of ds)) ≡ true) ⊎ (has k (months_of (map day_of ds)) ≡ false)
          → (has k (months_of (map day_of ds)) || has k t.months) ≡ true
          → In k t.months ⊎ StartsMonthOf ds k
      split (inl e) h = inr ((In-months_of k).0 ((has-In k (months_of (map day_of ds))).0 e))
      split (inr e) h = inl ((has-In k t.months).0 (ground arith))

      joined :
          In k t.months ⊎ StartsMonthOf ds k
          → (has k (months_of (map day_of ds)) || has k t.months) ≡ true
      joined (inl i) = let e = (has-In k t.months).1 i in ground arith
      joined (inr x) =
          let e = (has-In k (months_of (map day_of ds))).1 ((In-months_of k).1 x) in ground arith

-- For valid dates the statements that are run lock the first days of their months, each once and in
-- ascending order, and create a partition only of a month that they have locked; afterwards the
-- months with a partition are those that had one and the first days of the months of the dates, and
-- nothing else in the tables has changed.
pub ensure_month_partitions-IsPartitioned :
    (ds : List CivilDate) (t : BarTables)
    → All IsValid ds
    → IsPartitioned ds t
        (partition_calls (months_of (map day_of ds)))
        (ensure_month_partitions (map day_of ds) t)
unfolding ensure_month_partitions
ensure_month_partitions-IsPartitioned ds t v =
    let same = locked-partition_calls (months_of (map day_of ds)) in
    record {
      run = refl;
      order = rw same (months_of-IsAscending (map day_of ds));
      locks = λ k. rw same (In-months_of ds v k);
      held = partition_calls-AreLocked [] (months_of (map day_of ds));
      partitions = λ k. In-partitioned ds v t k;
    }
