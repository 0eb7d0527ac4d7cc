-- ===== src/Brsapi/Duplicates/Marks.antt =====
-- What the marks of `_apply_duplicate_policy` do to the flag of each row.
use bisfin.Brsapi.Contracts.{RowValidationResult}
use bisfin.Brsapi.Duplicates.{mark_conflict, mark_identical, change_at, as_identical, as_conflict}
use bisfin.Base.{
  ℕ, List, Bool, false, In, ◌≡◌, ◌≢◌, ◌∷◌, inl, suc, Bool-cases, inr, subst, [], refl, ◌∙◌, zero,
  ◌==◌, sym, ap, ==_iff, arith,
}

-- Whether the row at an index is meant for canonicalization.
abbrev pub included_at : ℕ → List RowValidationResult → Bool
included_at i [] = false
included_at zero (r ∷ rs) = r.include_in_canonicalization
included_at (suc i) (r ∷ rs) = included_at i rs

pub change_at-other :
    (i j : ℕ) (f : RowValidationResult → RowValidationResult) (rs : List RowValidationResult)
    → i ≢ j
    → included_at j (change_at i f rs) ≡ included_at j rs
change_at-other i j f [] ne = refl
change_at-other zero zero f (r ∷ rs) ne = absurd (ne refl)
change_at-other zero (suc j) f (r ∷ rs) ne = refl
change_at-other (suc i) zero f (r ∷ rs) ne = refl
change_at-other (suc i) (suc j) f (r ∷ rs) ne = change_at-other i j f rs (λ e. ne (ap suc e))

pub change_at-excludes :
    (i : ℕ) (f : RowValidationResult → RowValidationResult) (rs : List RowValidationResult)
    → ((r : RowValidationResult) → (f r).include_in_canonicalization ≡ false)
    → included_at i (change_at i f rs) ≡ false
change_at-excludes i f [] h = refl
change_at-excludes zero f (r ∷ rs) h = h r
change_at-excludes (suc i) f (r ∷ rs) h = change_at-excludes i f rs h

pub mark_conflict-other :
    (j : ℕ) (is : List ℕ) (rs : List RowValidationResult)
    → (In j is → ⊥)
    → included_at j (mark_conflict is rs) ≡ included_at j rs
unfolding mark_conflict
mark_conflict-other j [] rs o = refl
mark_conflict-other j (i ∷ is) rs o =
    mark_conflict-other j is (change_at i as_conflict rs) (λ m. o (inr m))
    ∙ change_at-other i j as_conflict rs (λ e. o (inl (sym e)))

pub mark_identical-other :
    (j : ℕ) (first : Bool) (is : List ℕ) (rs : List RowValidationResult)
    → (In j is → ⊥)
    → included_at j (mark_identical first is rs) ≡ included_at j rs
unfolding mark_identical
mark_identical-other j first [] rs o = refl
mark_identical-other j first (i ∷ is) rs o =
    mark_identical-other j false is (change_at i (as_identical first) rs) (λ m. o (inr m))
    ∙ change_at-other i j (as_identical first) rs (λ e. o (inl (sym e)))

-- A row that is excluded stays excluded.
pub mark_conflict-keeps :
    (j : ℕ) (is : List ℕ) (rs : List RowValidationResult)
    → included_at j rs ≡ false
    → included_at j (mark_conflict is rs) ≡ false
unfolding mark_conflict
mark_conflict-keeps j [] rs h = h
mark_conflict-keeps j (i ∷ is) rs h =
    mark_conflict-keeps j is (change_at i as_conflict rs) (elim (Bool-cases (i == j)) [
      | inl e ↦
          subst (λ z. included_at z (change_at i as_conflict rs) ≡ false) ((==_iff i j).0 e)
            (change_at-excludes i as_conflict rs (λ r. refl))
      | inr e ↦ change_at-other i j as_conflict rs (ground arith) ∙ h
    ])

pub mark_conflict-excludes :
    (j : ℕ) (is : List ℕ) (rs : List RowValidationResult)
    → In j is
    → included_at j (mark_conflict is rs) ≡ false
unfolding mark_conflict
mark_conflict-excludes j [] rs m = elim m [ ]
mark_conflict-excludes j (i ∷ is) rs (inl e) =
    mark_conflict-keeps j is (change_at i as_conflict rs) (
      subst (λ z. included_at z (change_at i as_conflict rs) ≡ false) (sym e)
        (change_at-excludes i as_conflict rs (λ r. refl)))
mark_conflict-excludes j (i ∷ is) rs (inr m) =
    mark_conflict-excludes j is (change_at i as_conflict rs) m

pub mark_identical-keeps :
    (j : ℕ) (is : List ℕ) (rs : List RowValidationResult)
    → included_at j rs ≡ false
    → included_at j (mark_identical false is rs) ≡ false
unfolding mark_identical
mark_identical-keeps j [] rs h = h
mark_identical-keeps j (i ∷ is) rs h =
    mark_identical-keeps j is (change_at i (as_identical false) rs) (elim (Bool-cases (i == j)) [
      | inl e ↦
          subst (λ z. included_at z (change_at i (as_identical false) rs) ≡ false)
            ((==_iff i j).0 e) (change_at-excludes i (as_identical false) rs (λ r. refl))
      | inr e ↦ change_at-other i j (as_identical false) rs (ground arith) ∙ h
    ])

pub mark_identical-excludes :
    (j : ℕ) (is : List ℕ) (rs : List RowValidationResult)
    → In j is
    → included_at j (mark_identical false is rs) ≡ false
unfolding mark_identical
mark_identical-excludes j [] rs m = elim m [ ]
mark_identical-excludes j (i ∷ is) rs (inl e) =
    mark_identical-keeps j is (change_at i (as_identical false) rs) (
      subst (λ z. included_at z (change_at i (as_identical false) rs) ≡ false) (sym e)
        (change_at-excludes i (as_identical false) rs (λ r. refl)))
mark_identical-excludes j (i ∷ is) rs (inr m) =
    mark_identical-excludes j is (change_at i (as_identical false) rs) m
