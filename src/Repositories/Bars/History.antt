-- ===== src/Repositories/Bars/History.antt =====
-- Runs of `append_revision_if_changed`.
use mathlib.Core.List.{append-nil, append_assoc}
use bisfin.Repositories.Bars.Storage.{stored-SameKeys}
use bisfin.Repositories.Bars.Writes.{append_revision_if_changed-IsAppend}
use bisfin.Repositories.Bars.AppendOnly.{AreNumbered, numbers, next_no-latest, append-AreNumbered}
use bisfin.Base.Result.{Result, err, ok}
use bisfin.Repositories.Bars.Revisions.{append_revision_if_changed, Written, next_no, latest}
use bisfin.Repositories.{Referenced, RepositoryError}
use bisfin.Repositories.Bars.{BarTables, BarRevisionCandidate, BarRevision}
use bisfin.Base.{
  Option, ℕ, List, sym, ◌≡◌, ◌++◌, [], suc, length, ◌∙◌, inl, subst, inr, ap, ◌∷◌, refl,
}
use bisfin.Decimal.{Decimal}

module _ (numeric : Decimal → Option Decimal) where
  -- A write keeps the revisions of each bar numbered from one, without a gap.
  append_revision_if_changed-AreNumbered :
      (now : ℕ) (refs : Referenced) (c : BarRevisionCandidate) (t : BarTables) {w : Written}
      → AreNumbered t.revisions
      → append_revision_if_changed numeric now refs c t ≡ ok w
      → AreNumbered w.1.revisions
  append_revision_if_changed-AreNumbered now refs c t {w} h e =
      elim (append_revision_if_changed-IsAppend numeric now refs c t e) [
        | inl (_, same, _, _) ↦ subst (λ (x : BarTables). AreNumbered x.revisions) (sym same) h
        | inr (_, grown, count, values) ↦
            subst (λ (x : BarTables). AreNumbered x.revisions) (sym grown)
              (append-AreNumbered t.revisions w.0.revision h (
                numbered w.0.revision count (stored-SameKeys numeric c w.0.revision.values values)))
      ]
    where
      numbered :
          (r : BarRevision)
          → r.revision_no ≡ next_no (latest c.bar_series_id c.bar_open_ts t.revisions)
          → (r.values.bar_series_id ≡ c.bar_series_id) × (r.values.bar_open_ts ≡ c.bar_open_ts)
          → r.revision_no
            ≡ suc (length (numbers r.values.bar_series_id r.values.bar_open_ts t.revisions))
      numbered r count (s, o) =
          rw (s, o) (count ∙ next_no-latest c.bar_series_id c.bar_open_ts t.revisions h)

  abbrev tables_of : BarTables → Result RepositoryError Written → BarTables
  tables_of t (err e) = t
  tables_of t (ok (w, t')) = t'

  -- Candidates written one after another, each at its instant; a refused one changes nothing.
  unfoldable pub append_revisions :
      Referenced → List (ℕ × BarRevisionCandidate) → BarTables → BarTables
  unfolding append_revision_if_changed
  append_revisions refs [] t = t
  append_revisions refs ((now, c) ∷ cs) t =
      append_revisions refs cs (tables_of t (append_revision_if_changed numeric now refs c t))

  -- Old revisions stay in front as they were, and each bar is numbered from one.
  abbrev pub IsHistory : BarTables → BarTables → Type 0
  IsHistory t t' =
      ((more : List BarRevision) × (t'.revisions ≡ t.revisions ++ more)) × AreNumbered t'.revisions

  step-IsHistory :
      (now : ℕ) (refs : Referenced) (c : BarRevisionCandidate) (t : BarTables)
      (o : Result RepositoryError Written)
      → append_revision_if_changed numeric now refs c t ≡ o
      → AreNumbered t.revisions
      → IsHistory t (tables_of t o)
  step-IsHistory now refs c t (err e) q h = (([], sym (append-nil t.revisions)), h)
  step-IsHistory now refs c t (ok w) q h = (
    elim (append_revision_if_changed-IsAppend numeric now refs c t q) [
      | inl (_, same, _, _) ↦
          ([], ap (λ (x : BarTables). x.revisions) same ∙ sym (append-nil t.revisions))
      | inr (_, grown, _, _) ↦ (w.0.revision ∷ [], ap (λ (x : BarTables). x.revisions) grown)
    ],
    append_revision_if_changed-AreNumbered now refs c t h q,
  )

  -- Candidates are written one after another into a table in which the revisions of each bar are
  -- numbered from one without a gap. Afterwards this holds again, and the old revisions are the
  -- start of the new list.
  pub append_revisions-IsHistory :
      (refs : Referenced) (cs : List (ℕ × BarRevisionCandidate)) (t : BarTables)
      → AreNumbered t.revisions
      → IsHistory t (append_revisions refs cs t)
  unfolding append_revisions
  append_revisions-IsHistory refs [] t h = (([], sym (append-nil t.revisions)), h)
  append_revisions-IsHistory refs ((now, c) ∷ cs) t h =
      let t' = tables_of t (append_revision_if_changed numeric now refs c t) in
      let step =
        step-IsHistory now refs c t (append_revision_if_changed numeric now refs c t) refl h in
      joined t' (append_revisions refs cs t') step (append_revisions-IsHistory refs cs t' step.1)
    where
      joined : (t' t'' : BarTables) → IsHistory t t' → IsHistory t' t'' → IsHistory t t''
      joined t' t'' ((xs, p), _) ((ys, q), k) = (
        (xs ++ ys, q ∙ ap (λ (l : List BarRevision). l ++ ys) p ∙ append_assoc t.revisions xs ys),
        k,
      )
