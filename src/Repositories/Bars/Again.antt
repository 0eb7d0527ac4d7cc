-- ===== src/Repositories/Bars/Again.antt =====
-- A second write of the same candidate by repositories/bar_writer_repository.py.

use bisfin.Repositories.Bars.Writes.{
  IsAppend, append_revision_if_changed-IsAppend, append_revision_if_changed-inv,
}
use bisfin.Base.Result.{ok}
use bisfin.Repositories.{Referenced}
use bisfin.Base.Int.{ℤ}
use bisfin.Repositories.Bars.Storage.{stored}
use bisfin.Repositories.Bars.AppendOnly.{number_of}
use bisfin.Base.{
  ℕ, ◌≡◌, List, true, false, ◌<◌, ◌++◌, ◌∷◌, [], some, arith, Option, Bool, none, refl, inl, ap,
  ◌∙◌, inr, some_injective, sym, ==_refl, subst, ◌==◌, ◌&&◌,
}
use bisfin.Repositories.Bars.{BarRevisionCandidate, BarRevision, BarTables, unchanged}
use bisfin.Repositories.Bars.Revisions.{
  latest, same_values, is_bar, same_ℤ, same_option, same_bool, append_revision_if_changed, Written,
  next_no,
}
use bisfin.Decimal.{lt, Decimal, eq}

lt_irreflexive : (x : Decimal) → lt x x ≡ false
unfolding lt
lt_irreflexive x = ground arith

eq_reflexive : (x : Decimal) → eq x x ≡ true
unfolding eq
eq_reflexive x = rw lt_irreflexive

same_ℤ_refl : (x : ℤ) → same_ℤ x x ≡ true
unfolding same_ℤ
same_ℤ_refl x = ground arith

pub same_bool_refl : (x : Bool) → same_bool x x ≡ true
same_bool_refl true = refl
same_bool_refl false = refl

pub same_option_refl :
    {A : Type 0} (same : A → A → Bool)
    → ((x : A) → same x x ≡ true)
    → (o : Option A) → same_option same o o ≡ true
same_option_refl same h none = refl
same_option_refl same h (some x) = h x

same_values_refl : (c : BarRevisionCandidate) → same_values c c ≡ true
unfolding same_values
same_values_refl c = simp (
  ==_refl,
  eq_reflexive,
  same_option_refl eq eq_reflexive,
  same_option_refl same_ℤ same_ℤ_refl,
  same_bool_refl,
  same_ℤ_refl,
)

latest-append :
    (series opened : ℕ) (rs : List BarRevision) (r : BarRevision)
    → is_bar series opened r ≡ true
    → number_of (latest series opened rs) < r.revision_no
    → latest series opened (rs ++ r ∷ []) ≡ some r
unfolding latest
latest-append series opened [] r b h = ground arith
latest-append series opened (q ∷ rs) r b h = ground (arith, latest-append series opened rs r b)

module _ (numeric : Decimal → Option Decimal) (c : BarRevisionCandidate)
    (exact : stored numeric c ≡ some c) where
  -- After a write the returned revision is the latest of its bar, with the values of the candidate.
  latest_after :
      (t : BarTables) {w : Written}
      → IsAppend numeric c t w
      → (latest c.bar_series_id c.bar_open_ts w.1.revisions ≡ some w.0.revision)
        × (same_values w.0.revision.values c ≡ true)
  latest_after t {w} (inl (_, same, found, equal)) =
      (ap (λ (x : BarTables). latest c.bar_series_id c.bar_open_ts x.revisions) same ∙ found, equal)
  latest_after t {w} (inr (_, grown, count, values)) = (
    ap (λ (x : BarTables). latest c.bar_series_id c.bar_open_ts x.revisions) grown
        ∙ latest-append c.bar_series_id c.bar_open_ts t.revisions w.0.revision
            (its_bar w.0.revision kept)
            (greater (latest c.bar_series_id c.bar_open_ts t.revisions) count),
    rw (sym kept) (same_values_refl c),
  )
    where
      kept : c ≡ w.0.revision.values
      kept = some_injective (sym exact ∙ values)

      its_bar : (r : BarRevision) → c ≡ r.values → is_bar c.bar_series_id c.bar_open_ts r ≡ true
      its_bar r e =
          subst
            (λ (x : BarRevisionCandidate).
              ((x.bar_series_id == c.bar_series_id) && (x.bar_open_ts == c.bar_open_ts)) ≡ true)
            e (simp ==_refl)

      greater :
          (o : Option BarRevision)
          → w.0.revision.revision_no ≡ next_no o
          → number_of o < w.0.revision.revision_no
      greater none e = ground arith
      greater (some q) e = ground arith

  -- A candidate that the table keeps without rounding, written a second time after a successful
  -- write, is reported as unchanged with the revision of the first write, and changes nothing.
  pub append_revision_if_changed_again :
      (now now' : ℕ) (refs refs' : Referenced) (t : BarTables) {w : Written}
      → append_revision_if_changed numeric now refs c t ≡ ok w
      → append_revision_if_changed numeric now' refs' c w.1
        ≡ ok (record { status = unchanged; revision = w.0.revision }, w.1)
  unfolding append_revision_if_changed
  append_revision_if_changed_again now now' refs refs' t {w} h =
      let (late, early, _) = append_revision_if_changed-inv numeric now refs c t h in
      let (found, equal) =
        latest_after t (append_revision_if_changed-IsAppend numeric now refs c t h) in
      rw (late, early, found, equal)
