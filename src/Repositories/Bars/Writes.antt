-- ===== src/Repositories/Bars/Writes.antt =====
-- The outcome of `append_revision_if_changed`, and runs of it.
use bisfin.Repositories.Bars.Storage.{stored}
use bisfin.Base.Result.{ok, ok_injective, raise_if-inv, raise_if, ◌>>◌}
use bisfin.Repositories.Bars.Revisions.{
  Written, append_revision_if_changed, latest, same_values, write_status, next_no, insert_revision,
  unchanged_or_insert, is_insertable,
}
use bisfin.Repositories.{Referenced, value_error}
use bisfin.Repositories.Bars.{BarRevisionCandidate, BarTables, BarRevision, unchanged}
use bisfin.Base.{
  Option, ℕ, ◌≡◌, ◌++◌, ◌∷◌, some, [], true, ◌⊎◌, arith, Bool-cases, inr, refl, inl, subst, none,
  ◌&&◌, ltb, Bool, false,
}
use bisfin.Decimal.{Decimal}

-- A write keeps the tables and returns the latest revision, whose values are those of the candidate,
-- or it puts one revision with the stored values behind the others.
abbrev pub IsAppend :
    (Decimal → Option Decimal) → BarRevisionCandidate → BarTables → Written → Type 0
IsAppend numeric c t (w, t') =
    ((w.status ≡ unchanged)
      × (t' ≡ t)
      × (latest c.bar_series_id c.bar_open_ts t.revisions ≡ some w.revision)
      × (same_values w.revision.values c ≡ true))
    ⊎ ((w.status ≡ write_status (latest c.bar_series_id c.bar_open_ts t.revisions))
        × (t' ≡ record t { revisions = t.revisions ++ w.revision ∷ [] })
        × (w.revision.revision_no ≡ next_no (latest c.bar_series_id c.bar_open_ts t.revisions))
        × (stored numeric c ≡ some w.revision.values))

module _ (numeric : Decimal → Option Decimal) (now : ℕ) (refs : Referenced)
    (c : BarRevisionCandidate) (t : BarTables) where
  abbrev IsPlaced : Option BarRevision → Written → Type 0
  IsPlaced old (w, t') =
      (w.status ≡ write_status old)
      × (t' ≡ record t { revisions = t.revisions ++ w.revision ∷ [] })
      × (w.revision.revision_no ≡ next_no old)
      × (stored numeric c ≡ some w.revision.values)

  insert_revision-IsPlaced :
      (old : Option BarRevision) (o : Option BarRevisionCandidate) {w : Written}
      → stored numeric c ≡ o
      → insert_revision numeric now refs t old o ≡ ok w
      → IsPlaced old w
  insert_revision-IsPlaced old none e h = absurd (ground arith)
  insert_revision-IsPlaced old (some c') e h = elim (Bool-cases (is_insertable numeric refs c' t)) [
    | inr no_row ↦ absurd (cc (rw no_row at h))
    | inl row ↦ subst (IsPlaced old) (ok_injective (rw row at h)) (refl, refl, refl, e)
  ]

  unchanged_or_insert-IsAppend :
      (old : Option BarRevision) {w : Written}
      → latest c.bar_series_id c.bar_open_ts t.revisions ≡ old
      → unchanged_or_insert numeric now refs c t old ≡ ok w
      → IsAppend numeric c t w
  unchanged_or_insert-IsAppend none e h =
      inr (rw e (insert_revision-IsPlaced none (stored numeric c) refl h))
  unchanged_or_insert-IsAppend (some r) e h = elim (Bool-cases (same_values r.values c)) [
    | inl same ↦
        subst (IsAppend numeric c t) (ok_injective (rw same at h)) (inl (refl, refl, e, same))
    | inr other ↦
        inr (rw e (insert_revision-IsPlaced (some r) (stored numeric c) refl (rw other at h)))
  ]

  abbrev is_early : Bool
  is_early = c.is_final && ltb c.available_at c.bar_close_ts

  -- A write that succeeds passed both guards.
  pub append_revision_if_changed-inv :
      {w : Written}
      → append_revision_if_changed numeric now refs c t ≡ ok w
      → (ltb c.system_available_at c.available_at ≡ false)
        × (is_early ≡ false)
        × (unchanged_or_insert numeric now refs c t
              (latest c.bar_series_id c.bar_open_ts t.revisions)
            ≡ ok w)
  unfolding append_revision_if_changed
  append_revision_if_changed-inv h =
      let inserting =
        unchanged_or_insert numeric now refs c t
          (latest c.bar_series_id c.bar_open_ts t.revisions) in
      let (a, h1) =
        raise_if-inv (ltb c.system_available_at c.available_at) value_error
          (raise_if is_early value_error >> inserting) h in
      let (b, h2) = raise_if-inv is_early value_error inserting h1 in (a, b, h2)

  -- A successful write either reports the latest revision of the bar as unchanged, which compares
  -- equal to the candidate, and changes nothing; or it adds one revision behind all others, with the
  -- values that the table keeps of the candidate and the next number of the bar, and reports it as
  -- inserted where the bar was new, else as corrected.
  pub append_revision_if_changed-IsAppend :
      {w : Written}
      → append_revision_if_changed numeric now refs c t ≡ ok w
      → IsAppend numeric c t w
  append_revision_if_changed-IsAppend h =
      unchanged_or_insert-IsAppend (latest c.bar_series_id c.bar_open_ts t.revisions) refl
        (append_revision_if_changed-inv h).2
