-- ===== src/Brsapi/Duplicates/Groups.antt =====
-- The dict `grouped` of `_apply_duplicate_policy` in integrations/brsapi/parser.py.
use bisfin.Base.Texts.{same_text_refl}
use bisfin.Brsapi.Contracts.{RowValidationResult}
use bisfin.Brsapi.Duplicates.{Key, same_key, add_index, group_key, group_result, group_results}
use bisfin.Base.{
  List, ℕ, All, In, ◌≢◌, Option, ◌<◌, ◌≡◌, none, true, inl, inr, ◌∷◌, arith, subst, if◌then◌else◌,
  ◌++◌, [], Bool-cases, suc, All-In, Bool, All-append, In-append_right, All-of_In, false, refl,
  zero, In-append_left, All-imp, some, ◌+◌,
}

-- The rows of the first group with the key.
abbrev pub group_of : Key → List (Key × List ℕ) → List ℕ
group_of k [] = []
group_of k ((j, is) ∷ gs) = if same_key j k then is else group_of k gs

-- The key under which the row at an index is grouped.
abbrev pub key_at : ℕ → List RowValidationResult → Option Key
key_at i [] = none
key_at zero (r ∷ rs) = group_key r
key_at (suc i) (r ∷ rs) = key_at i rs

abbrev pub Outside : List (Key × List ℕ) → ℕ → Type 0
Outside gs a = All (λ g. In a g.1 → ⊥) gs

-- No row of a group stands in a later group.
abbrev pub AreApart : List (Key × List ℕ) → Type 0
AreApart [] = Unit
AreApart ((k, is) ∷ gs) = All (Outside gs) is × AreApart gs

abbrev AreBelow : ℕ → List (Key × List ℕ) → Type 0
AreBelow n gs = All (λ g. All (λ a. a < n) g.1) gs

below-Outside : (n : ℕ) (gs : List (Key × List ℕ)) → AreBelow n gs → Outside gs n
below-Outside n [] h = tt
below-Outside n ((k, is) ∷ gs) h =
    ((λ m. absurd (omega (arith, All-In (λ a. a < n) n is h.0 m))), below-Outside n gs h.1)

same_key_refl : (k : Key) → same_key k k ≡ true
same_key_refl k = rw (same_text_refl k.0) (ground arith)

module _ (k : Key) (i : ℕ) where
  add_index-below :
      (n : ℕ) (gs : List (Key × List ℕ)) → i < n → AreBelow n gs → AreBelow n (add_index k i gs)
  unfolding add_index
  add_index-below n [] l h = ((l, tt), tt)
  add_index-below n ((j, is) ∷ gs) l h = elim (Bool-cases (same_key j k)) [
    | inl e ↦ rw e (All-append (λ a. a < n) is (i ∷ []) h.0 (l, tt), h.1)
    | inr e ↦ rw e (h.0, add_index-below n gs l h.1)
  ]

  add_index-Outside :
      (a : ℕ) (gs : List (Key × List ℕ)) → a ≢ i → Outside gs a → Outside (add_index k i gs) a
  unfolding add_index
  add_index-Outside a [] ne h = ((λ m. elim m [ inl e ↦ ne e | inr n ↦ n ]), tt)
  add_index-Outside a ((j, is) ∷ gs) ne h = elim (Bool-cases (same_key j k)) [
    | inl e ↦ rw e ((λ m. split is h.0 m), h.1)
    | inr e ↦ rw e (h.0, add_index-Outside a gs ne h.1)
  ]
    where
      split : (xs : List ℕ) → (In a xs → ⊥) → In a (xs ++ i ∷ []) → ⊥
      split [] o m = elim m [ inl e ↦ ne e | inr n ↦ n ]
      split (x ∷ xs) o (inl e) = o (inl e)
      split (x ∷ xs) o (inr m) = split xs (λ z. o (inr z)) m

  add_index-AreApart :
      (gs : List (Key × List ℕ)) → Outside gs i → AreApart gs → AreApart (add_index k i gs)
  unfolding add_index
  add_index-AreApart [] o h = ((tt, tt), tt)
  add_index-AreApart ((j, is) ∷ gs) o h = elim (Bool-cases (same_key j k)) [
    | inl e ↦ rw e (All-append (Outside gs) is (i ∷ []) h.0 (o.1, tt), h.1)
    | inr e ↦ rw e (
      All-of_In (Outside (add_index k i gs)) is (λ a m.
          add_index-Outside a gs (λ q. o.0 (subst (λ z. In z is) q m))
            (All-In (Outside gs) a is h.0 m)),
      add_index-AreApart gs o.1 h.1,
    )
  ]

  -- The row stands in the group of its key, and the groups lose no row.
  In-add_index : (gs : List (Key × List ℕ)) → In i (group_of k (add_index k i gs))
  unfolding add_index
  In-add_index [] = rw (same_key_refl k) (inl refl)
  In-add_index ((j, is) ∷ gs) = elim (Bool-cases (same_key j k)) [
    | inl e ↦ rw (e, e) (In-append_right i is (i ∷ []) (inl refl))
    | inr e ↦ rw (e, e) (In-add_index gs)
  ]

  In-add_index_of :
      (l : Key) (a : ℕ) (gs : List (Key × List ℕ))
      → In a (group_of l gs)
      → In a (group_of l (add_index k i gs))
  unfolding add_index
  In-add_index_of l a [] m = elim m [ ]
  In-add_index_of l a ((j, is) ∷ gs) m = elim (Bool-cases (same_key j k)) [
    | inl e ↦ elim (Bool-cases (same_key j l)) [
      | inl q ↦ rw (e, q) (In-append_left a is (i ∷ []) (member q m))
      | inr q ↦ rw (e, q) (other q m)
    ]
    | inr e ↦ elim (Bool-cases (same_key j l)) [
      | inl q ↦ rw (e, q) (member q m)
      | inr q ↦ rw (e, q) (In-add_index_of l a gs (other q m))
    ]
  ]
    where
      member : same_key j l ≡ true → In a (group_of l ((j, is) ∷ gs)) → In a is
      member q z = subst (λ (b : Bool). In a (if b then is else group_of l gs)) q z

      other : same_key j l ≡ false → In a (group_of l ((j, is) ∷ gs)) → In a (group_of l gs)
      other q z = subst (λ (b : Bool). In a (if b then is else group_of l gs)) q z

AreBelow-suc : (n : ℕ) (gs : List (Key × List ℕ)) → AreBelow n gs → AreBelow (suc n) gs
AreBelow-suc n gs h =
    All-imp (λ g. All (λ a. a < n) g.1) (λ g. All (λ a. a < suc n) g.1) gs
      (λ g. All-imp (λ a. a < n) (λ a. a < suc n) g.1 (λ a l. omega arith)) h

group_result-below :
    (o : Option Key) (n : ℕ) (gs : List (Key × List ℕ))
    → AreBelow n gs
    → AreBelow (suc n) (group_result o n gs)
group_result-below none n gs h = AreBelow-suc n gs h
group_result-below (some k) n gs h =
    add_index-below k n (suc n) gs (omega arith) (AreBelow-suc n gs h)

group_result-AreApart :
    (o : Option Key) (n : ℕ) (gs : List (Key × List ℕ))
    → AreBelow n gs
    → AreApart gs
    → AreApart (group_result o n gs)
group_result-AreApart none n gs b h = h
group_result-AreApart (some k) n gs b h = add_index-AreApart k n gs (below-Outside n gs b) h

pub group_results-AreApart :
    (n : ℕ) (rs : List RowValidationResult) (gs : List (Key × List ℕ))
    → AreBelow n gs
    → AreApart gs
    → AreApart (group_results n rs gs)
unfolding group_results
group_results-AreApart n [] gs b h = h
group_results-AreApart n (r ∷ rs) gs b h =
    group_results-AreApart (suc n) rs (group_result (group_key r) n gs)
      (group_result-below (group_key r) n gs b) (group_result-AreApart (group_key r) n gs b h)

group_results-keeps :
    (l : Key) (a n : ℕ) (rs : List RowValidationResult) (gs : List (Key × List ℕ))
    → In a (group_of l gs)
    → In a (group_of l (group_results n rs gs))
unfolding group_results
group_results-keeps l a n [] gs m = m
group_results-keeps l a n (r ∷ rs) gs m =
    group_results-keeps l a (suc n) rs (group_result (group_key r) n gs) (kept (group_key r))
  where
    kept : (o : Option Key) → In a (group_of l (group_result o n gs))
    kept none = m
    kept (some k) = In-add_index_of k n l a gs m

pub In-group_results :
    (k : Key) (j n : ℕ) (rs : List RowValidationResult) (gs : List (Key × List ℕ))
    → key_at j rs ≡ some k
    → In (n + j) (group_of k (group_results n rs gs))
unfolding group_results
In-group_results k j n [] gs e = absurd (ground arith)
In-group_results k zero n (r ∷ rs) gs e =
    group_results-keeps k (n + 0) (suc n) rs (group_result (group_key r) n gs)
      (rw e (subst (λ z. In z (group_of k (add_index k n gs))) (omega arith) (In-add_index k n gs)))
In-group_results k (suc j) n (r ∷ rs) gs e =
    subst (λ z. In z (group_of k (group_results (suc n) rs (group_result (group_key r) n gs))))
      (omega arith) (In-group_results k j (suc n) rs (group_result (group_key r) n gs) e)
