-- ===== src/Repositories/Bars/Outcome.antt =====
-- What `append_revision_if_changed` does with a candidate, in terms of the rows of the table alone.
use bisfin.Repositories.Bars.Storage.{stored, IsStored, stored-IsStored}
use bisfin.Repositories.Bars.Agreement.{Agrees, same_values-Agrees, Agrees-same_values}
use bisfin.Repositories.Bars.Newest.{IsBarOf, IsNewest, latest-none, latest-IsNewest}
use bisfin.Base.Result.{ok, ok_injective}
use bisfin.Repositories.Bars.Revisions.{
  Written, insert_revision, unchanged_or_insert, is_insertable, append_revision_if_changed, latest,
  same_values, write_status, next_no,
}
use bisfin.Repositories.Bars.Writes.{append_revision_if_changed-inv}
use bisfin.Repositories.{Referenced}
use bisfin.Repositories.Bars.{
  BarRevisionCandidate, BarTables, BarRevision, unchanged, inserted, corrected,
}
use bisfin.Base.{
  Option, ℕ, ◌≡◌, ◌++◌, ◌∷◌, some, [], arith, Bool-cases, inr, refl, inl, none, In, ◌+◌, false,
  subst,
}
use bisfin.Decimal.{Decimal}

-- The row of a write stands behind those of before and holds the stored values of the candidate.
pub record IsAdded (numeric : Decimal → Option Decimal) (now : ℕ) (c : BarRevisionCandidate)
    (t : BarTables) (r : BarRevision) (t' : BarTables) : Type 0 where
  pub table : t' ≡ record t { revisions = t.revisions ++ r ∷ [] }
  pub values : IsStored numeric c r.values
  pub recorded_at : r.recorded_at ≡ now

-- The three outcomes of a write.
pub data IsOutcome (numeric : Decimal → Option Decimal) (now : ℕ) (c : BarRevisionCandidate)
    (t : BarTables) (w : Written) : Type 0 where
  kept :
      w.0.status ≡ unchanged
      → IsNewest c t.revisions w.0.revision
      → Agrees w.0.revision.values c
      → w.1 ≡ t
      → IsOutcome numeric now c t w
  first :
      w.0.status ≡ inserted
      → ((q : BarRevision) → In q t.revisions → ¬ IsBarOf c q)
      → w.0.revision.revision_no ≡ 1
      → IsAdded numeric now c t w.0.revision w.1
      → IsOutcome numeric now c t w
  next :
      (r : BarRevision)
      → w.0.status ≡ corrected
      → IsNewest c t.revisions r
      → ¬ Agrees r.values c
      → w.0.revision.revision_no ≡ r.revision_no + 1
      → IsAdded numeric now c t w.0.revision w.1
      → IsOutcome numeric now c t w

module _ (numeric : Decimal → Option Decimal) (now : ℕ) (refs : Referenced)
    (c : BarRevisionCandidate) (t : BarTables) where
  -- The row of an insert, with the status and the number that it gets.
  abbrev IsInserted : Option BarRevision → Written → Type 0
  IsInserted old (w, t') =
      (w.status ≡ write_status old)
      × (w.revision.revision_no ≡ next_no old)
      × IsAdded numeric now c t w.revision t'

  insert_revision-IsInserted :
      (old : Option BarRevision) (o : Option BarRevisionCandidate) {w : Written}
      → stored numeric c ≡ o
      → insert_revision numeric now refs t old o ≡ ok w
      → IsInserted old w
  insert_revision-IsInserted old none e h = absurd (ground arith)
  insert_revision-IsInserted old (some c') e h =
      elim (Bool-cases (is_insertable numeric refs c' t)) [
        | inr no_row ↦ absurd (cc (rw no_row at h))
        | inl row ↦ subst (IsInserted old) (ok_injective (rw row at h)) (
          refl,
          refl,
          record { table = refl; values = stored-IsStored numeric c e; recorded_at = refl },
        )
      ]

  unchanged_or_insert-IsOutcome :
      (old : Option BarRevision) {w : Written}
      → latest c.bar_series_id c.bar_open_ts t.revisions ≡ old
      → unchanged_or_insert numeric now refs c t old ≡ ok w
      → IsOutcome numeric now c t w
  unchanged_or_insert-IsOutcome none e h =
      let (status, number, added) = insert_revision-IsInserted none (stored numeric c) refl h in
      first status (latest-none c t.revisions e) number added
  unchanged_or_insert-IsOutcome (some r) e h = elim (Bool-cases (same_values r.values c)) [
    | inl same ↦
        subst (IsOutcome numeric now c t) (ok_injective (rw same at h))
          (kept refl (latest-IsNewest c t.revisions r e) (same_values-Agrees r.values c same) refl)
    | inr other ↦
        let (status, number, added) =
          insert_revision-IsInserted (some r) (stored numeric c) refl (rw other at h) in
        next r status (latest-IsNewest c t.revisions r e) (differ r other) number added
  ]
    where
      differ : (r : BarRevision) → same_values r.values c ≡ false → ¬ Agrees r.values c
      differ r other a = let e = Agrees-same_values r.values c a in ground arith

  -- A successful write has one of three outcomes. Where the newest row of the bar agrees with the
  -- candidate in the sixteen compared values, the write returns that row as unchanged and keeps the
  -- tables. Where the bar has no row, it adds a row with number 1, reported as inserted. Where the
  -- newest row does not agree, it adds a row with the number after that row's, reported as
  -- corrected. An added row stands behind all others and has the instant of the write and the values
  -- of the candidate, each decimal as the column keeps it.
  pub append_revision_if_changed-IsOutcome :
      {w : Written}
      → append_revision_if_changed numeric now refs c t ≡ ok w
      → IsOutcome numeric now c t w
  append_revision_if_changed-IsOutcome h =
      unchanged_or_insert-IsOutcome (latest c.bar_series_id c.bar_open_ts t.revisions) refl
        (append_revision_if_changed-inv numeric now refs c t h).2
