-- ===== src/Repositories/Bars/Newest.antt =====
-- The latest revision that repositories/bar_writer_repository.py reads of a bar.
use bisfin.Repositories.Bars.Revisions.{latest, is_bar, newer}
use bisfin.Repositories.Bars.{BarRevisionCandidate, BarRevision}
use bisfin.Base.{
  Option, ◌≡◌, ◌∷◌, some, [], true, ◌↔◌, arith, Bool-cases, inr, refl, inl, none, In, List, ◌≤◌,
  ltb, false, ap, subst,
}

-- A revision of the candidate's bar.
abbrev pub IsBarOf : BarRevisionCandidate → BarRevision → Type 0
IsBarOf c r = (r.values.bar_series_id ≡ c.bar_series_id) × (r.values.bar_open_ts ≡ c.bar_open_ts)

-- A row of the bar with the greatest number of the bar's rows.
pub record IsNewest (c : BarRevisionCandidate) (rows : List BarRevision) (r : BarRevision)
    : Type 0 where
  pub row : In r rows
  pub bar : IsBarOf c r
  pub greatest : (q : BarRevision) → In q rows → IsBarOf c q → q.revision_no ≤ r.revision_no

module _ (c : BarRevisionCandidate) where
  is_bar-IsBarOf : (r : BarRevision) → (is_bar c.bar_series_id c.bar_open_ts r ≡ true) ↔ IsBarOf c r
  is_bar-IsBarOf r = (λ h. ground arith, λ (a, b). ground arith)

  other-IsBarOf : (r : BarRevision) → is_bar c.bar_series_id c.bar_open_ts r ≡ false → ¬ IsBarOf c r
  other-IsBarOf r h b = let e = (is_bar-IsBarOf r).1 b in ground arith

  pub latest-none :
      (rows : List BarRevision)
      → latest c.bar_series_id c.bar_open_ts rows ≡ none
      → (q : BarRevision) → In q rows
      → ¬ IsBarOf c q
  unfolding latest
  latest-none [] e q i b = elim i [ ]
  latest-none (r ∷ rs) e q i b = elim (Bool-cases (is_bar c.bar_series_id c.bar_open_ts r)) [
    | inl own ↦ absurd (ground arith)
    | inr other ↦ elim i [
      | inl same ↦ other-IsBarOf r other (subst (IsBarOf c) same b)
      | inr j ↦ latest-none rs (rw other at e) q j b
    ]
  ]

  -- The newer one of a row of the bar and the newest of the other rows.
  newer-IsNewest :
      (p : BarRevision) (rows : List BarRevision) (rest : Option BarRevision)
      → IsBarOf c p
      → latest c.bar_series_id c.bar_open_ts rows ≡ rest
      → ((q : BarRevision) → rest ≡ some q → IsNewest c rows q)
      → IsNewest c (p ∷ rows) (newer p rest)
  newer-IsNewest p rows none b e h = record {
    row = inl refl;
    bar = b;
    greatest = λ q i bar. elim i [
      | inl same ↦ let n = ap (λ (x : BarRevision). x.revision_no) same in omega arith
      | inr j ↦ absurd (latest-none rows e q j bar)
    ];
  }
  newer-IsNewest p rows (some q) b e h = elim (Bool-cases (ltb q.revision_no p.revision_no)) [
    | inl less ↦ rw less record {
      row = inl refl;
      bar = b;
      greatest = λ k i bar. elim i [
        | inl same ↦ let n = ap (λ (x : BarRevision). x.revision_no) same in omega arith
        | inr j ↦ let n = (h q refl).greatest k j bar in ground arith
      ];
    }
    | inr more ↦ rw more record {
      row = inr (h q refl).row;
      bar = (h q refl).bar;
      greatest = λ k i bar. elim i [
        | inl same ↦ let n = ap (λ (x : BarRevision). x.revision_no) same in ground arith
        | inr j ↦ (h q refl).greatest k j bar
      ];
    }
  ]

  pub latest-IsNewest :
      (rows : List BarRevision) (r : BarRevision)
      → latest c.bar_series_id c.bar_open_ts rows ≡ some r
      → IsNewest c rows r
  unfolding latest
  latest-IsNewest [] r e = absurd (ground arith)
  latest-IsNewest (p ∷ rows) r e = elim (Bool-cases (is_bar c.bar_series_id c.bar_open_ts p)) [
    | inl own ↦ subst (IsNewest c (p ∷ rows)) (cc (rw own at e)) (
        newer-IsNewest p rows (latest c.bar_series_id c.bar_open_ts rows) ((is_bar-IsBarOf p).0 own)
          refl (λ q same. latest-IsNewest rows q same))
    | inr other ↦
        let old = latest-IsNewest rows r (rw other at e) in
        record {
          row = inr old.row;
          bar = old.bar;
          greatest = λ q i bar. elim i [
            | inl same ↦ absurd (other-IsBarOf p other (subst (IsBarOf c) same bar))
            | inr j ↦ old.greatest q j bar
          ];
        }
  ]
