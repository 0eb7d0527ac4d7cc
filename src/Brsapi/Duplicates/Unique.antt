-- ===== src/Brsapi/Duplicates/Unique.antt =====
-- The rows that `_apply_duplicate_policy` of integrations/brsapi/parser.py leaves canonical.
use bisfin.Brsapi.Duplicates.Marks.{
  included_at, mark_identical-excludes, mark_conflict-excludes, mark_identical-other,
  mark_conflict-other,
}
use bisfin.Brsapi.Duplicates.Groups.{
  AreApart, Outside, key_at, group_of, group_results-AreApart, In-group_results,
}
use bisfin.Brsapi.Contracts.{RowValidationResult}
use bisfin.Brsapi.Duplicates.{
  mark_identical, change_at, as_identical, apply_duplicate_policy, settle_group, settle_groups, Key,
  hashes_of, same_key, group_results,
}
use bisfin.Base.{
  ℕ, List, Bool, false, In, ◌≡◌, ◌∷◌, inl, Bool-cases, inr, subst, [], refl, ◌∙◌, ◌==◌, sym, arith,
  ltb, true, length, some, if◌then◌else◌, All-In,
}

settle_group-other :
    (j : ℕ) (is : List ℕ) (rs : List RowValidationResult)
    → (In j is → ⊥)
    → included_at j (settle_group is rs) ≡ included_at j rs
unfolding settle_group
settle_group-other j is rs o = elim (Bool-cases (ltb (length is) 2)) [
  | inl e ↦ rw e refl
  | inr e ↦ elim (Bool-cases (length (hashes_of is rs) == 1)) [
    | inl q ↦ rw (e, q) (mark_identical-other j true is rs o)
    | inr q ↦ rw (e, q) (mark_conflict-other j is rs o)
  ]
]

short_list_unique : (i j : ℕ) (is : List ℕ) → ltb (length is) 2 ≡ true → In i is → In j is → i ≡ j
short_list_unique i j [] e m n = elim m [ ]
short_list_unique i j (x ∷ []) e m n = ground arith
short_list_unique i j (x ∷ y ∷ is) e m n = absurd (ground arith)

-- Of identical rows only the first is included.
identical-first :
    (i h : ℕ) (is : List ℕ) (rs : List RowValidationResult)
    → In i (h ∷ is)
    → included_at i (mark_identical true (h ∷ is) rs) ≡ true
    → i ≡ h
unfolding mark_identical
identical-first i h is rs (inl e) v = e
identical-first i h is rs (inr m) v =
    let no = mark_identical-excludes i is (change_at h (as_identical true) rs) m in
    absurd (ground arith)

mark_identical_unique :
    (i j : ℕ) (is : List ℕ) (rs : List RowValidationResult)
    → In i is
    → In j is
    → included_at i (mark_identical true is rs) ≡ true
    → included_at j (mark_identical true is rs) ≡ true
    → i ≡ j
mark_identical_unique i j [] rs m n v w = elim m [ ]
mark_identical_unique i j (h ∷ is) rs m n v w =
    identical-first i h is rs m v ∙ sym (identical-first j h is rs n w)

settle_group_unique :
    (i j : ℕ) (is : List ℕ) (rs : List RowValidationResult)
    → In i is
    → In j is
    → included_at i (settle_group is rs) ≡ true
    → included_at j (settle_group is rs) ≡ true
    → i ≡ j
unfolding settle_group
settle_group_unique i j is rs m n v w = elim (Bool-cases (ltb (length is) 2)) [
  | inl e ↦ short_list_unique i j is e m n
  | inr e ↦ elim (Bool-cases (length (hashes_of is rs) == 1)) [
    | inl q ↦ mark_identical_unique i j is rs m n (chosen i e q v) (chosen j e q w)
    | inr q ↦ let no = mark_conflict-excludes i is rs m in absurd (ground arith)
  ]
]
  where
    chosen :
        (a : ℕ)
        → ltb (length is) 2 ≡ false
        → (length (hashes_of is rs) == 1) ≡ true
        → included_at a (settle_group is rs) ≡ true
        → included_at a (mark_identical true is rs) ≡ true
    chosen a e q h = subst (λ z. included_at a z ≡ true) (settled e q) h
      where
        settled :
            ltb (length is) 2 ≡ false
            → (length (hashes_of is rs) == 1) ≡ true
            → settle_group is rs ≡ mark_identical true is rs
        settled e q = rw (e, q) refl

settle_groups-other :
    (j : ℕ) (gs : List (Key × List ℕ)) (rs : List RowValidationResult)
    → Outside gs j
    → included_at j (settle_groups gs rs) ≡ included_at j rs
unfolding settle_groups
settle_groups-other j [] rs o = refl
settle_groups-other j ((k, is) ∷ gs) rs o =
    settle_groups-other j gs (settle_group is rs) o.1 ∙ settle_group-other j is rs o.0

settle_groups_unique :
    (k : Key) (i j : ℕ) (gs : List (Key × List ℕ)) (rs : List RowValidationResult)
    → AreApart gs
    → In i (group_of k gs)
    → In j (group_of k gs)
    → included_at i (settle_groups gs rs) ≡ true
    → included_at j (settle_groups gs rs) ≡ true
    → i ≡ j
unfolding settle_groups
settle_groups_unique k i j [] rs a m n v w = elim m [ ]
settle_groups_unique k i j ((l, is) ∷ gs) rs a m n v w = elim (Bool-cases (same_key l k)) [
  | inl e ↦ first (here e i m) (here e j n)
  | inr e ↦ settle_groups_unique k i j gs (settle_group is rs) a.1 (there e i m) (there e j n) v w
]
  where
    here : same_key l k ≡ true → (b : ℕ) → In b (group_of k ((l, is) ∷ gs)) → In b is
    here e b z = subst (λ (x : Bool). In b (if x then is else group_of k gs)) e z

    there : same_key l k ≡ false → (b : ℕ) → In b (group_of k ((l, is) ∷ gs)) → In b (group_of k gs)
    there e b z = subst (λ (x : Bool). In b (if x then is else group_of k gs)) e z

    first : In i is → In j is → i ≡ j
    first p q =
        settle_group_unique i j is rs p q
          (sym (settle_groups-other i gs (settle_group is rs) (All-In (Outside gs) i is a.0 p)) ∙ v)
          (sym (settle_groups-other j gs (settle_group is rs) (All-In (Outside gs) j is a.0 q)) ∙ w)

-- Of the accepted rows with one symbol and trading date at most one is meant for canonicalization
-- once the duplicate policy has been applied.
pub apply_duplicate_policy_unique :
    (rs : List RowValidationResult) (k : Key) (i j : ℕ)
    → key_at i rs ≡ some k
    → key_at j rs ≡ some k
    → included_at i (apply_duplicate_policy rs) ≡ true
    → included_at j (apply_duplicate_policy rs) ≡ true
    → i ≡ j
unfolding apply_duplicate_policy
apply_duplicate_policy_unique rs k i j ei ej v w =
    settle_groups_unique k i j (group_results 0 rs []) rs (group_results-AreApart 0 rs [] tt tt)
      (grouped i ei) (grouped j ej) v w
  where
    grouped : (a : ℕ) → key_at a rs ≡ some k → In a (group_of k (group_results 0 rs []))
    grouped a e =
        subst (λ z. In z (group_of k (group_results 0 rs []))) (omega arith)
          (In-group_results k a 0 rs [] e)
