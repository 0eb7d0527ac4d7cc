-- ===== src/Base/Sort.antt =====
-- Python's `sorted(xs, key=...)` and `max(xs, key=...)`. The order is given by `le x y`, read
-- key(x) <= key(y); the sort is stable and `max` returns the first greatest item, as in Python.
use bisfin.Base.{
  suc, ◌≡◌, refl, ◌⊎◌, inl, inr, Bool, true, false, List, [], ◌∷◌, arith, if◌then◌else◌, length,
  All, In, Bool-cases,
}

module _ {A : Type 0} (le : A → A → Bool) where
  -- `x` comes before the items of equal key, since it stood before them.
  unfoldable pub insert_sorted : A → List A → List A
  insert_sorted x [] = x ∷ []
  insert_sorted x (y ∷ ys) = if le x y then x ∷ y ∷ ys else y ∷ insert_sorted x ys

  unfoldable pub sorted : List A → List A
  unfolding insert_sorted
  sorted [] = []
  sorted (x ∷ xs) = insert_sorted x (sorted xs)

  pub length-insert_sorted : (x : A) (xs : List A) → length (insert_sorted x xs) ≡ suc (length xs)
  unfolding insert_sorted
  length-insert_sorted x [] = refl
  length-insert_sorted x (y ∷ ys) = ground (arith, length-insert_sorted x ys)

  pub length-sorted : (xs : List A) → length (sorted xs) ≡ length xs
  unfolding sorted
  length-sorted [] = refl
  length-sorted (x ∷ xs) = ground (arith, length-insert_sorted x (sorted xs), length-sorted xs)

  pub All-insert_sorted :
      (P : A → Type 0) (x : A) (xs : List A) → P x → All P xs → All P (insert_sorted x xs)
  unfolding insert_sorted
  All-insert_sorted P x [] p h = (p, tt)
  All-insert_sorted P x (y ∷ ys) p h = elim (Bool-cases (le x y)) [
    | inl e ↦ rw e (p, h)
    | inr e ↦ rw e (h.0, All-insert_sorted P x ys p h.1)
  ]

  pub All-sorted : (P : A → Type 0) (xs : List A) → All P xs → All P (sorted xs)
  unfolding sorted
  All-sorted P [] h = tt
  All-sorted P (x ∷ xs) h = All-insert_sorted P x (sorted xs) h.0 (All-sorted P xs h.1)

  pub In-insert_sorted : (a x : A) (xs : List A) → In a (insert_sorted x xs) → (a ≡ x) ⊎ In a xs
  unfolding insert_sorted
  In-insert_sorted a x [] i = i
  In-insert_sorted a x (y ∷ ys) i = ground (arith, In-insert_sorted a x ys)

  pub In-insert_sorted_of : (a x : A) (xs : List A) → (a ≡ x) ⊎ In a xs → In a (insert_sorted x xs)
  unfolding insert_sorted
  In-insert_sorted_of a x [] i = i
  In-insert_sorted_of a x (y ∷ ys) i = ground (arith, In-insert_sorted_of a x ys)

  pub In-sorted : (a : A) (xs : List A) → In a (sorted xs) → In a xs
  unfolding sorted
  In-sorted a [] i = i
  In-sorted a (x ∷ xs) i = ground (arith, In-insert_sorted a x (sorted xs), In-sorted a xs)

  pub In-sorted_of : (a : A) (xs : List A) → In a xs → In a (sorted xs)
  unfolding sorted
  In-sorted_of a [] i = i
  In-sorted_of a (x ∷ xs) i = ground (arith, In-insert_sorted_of a x (sorted xs), In-sorted_of a xs)

  -- Each item is at most those behind it.
  abbrev pub IsSorted : List A → Type 0
  IsSorted [] = Unit
  IsSorted (x ∷ xs) = All (λ y. le x y ≡ true) xs × IsSorted xs

-- What an order by keys promises.
pub record IsOrder {A : Type 0} (le : A → A → Bool) : Type 0 where
  pub total : (x y : A) → le x y ≡ false → le y x ≡ true
  pub trans : (x y z : A) → le x y ≡ true → le y z ≡ true → le x z ≡ true

module _ {A : Type 0} (le : A → A → Bool) (ord : IsOrder le) where
  below-All :
      (x y : A) (ys : List A)
      → le x y ≡ true
      → All (λ z. le y z ≡ true) ys
      → All (λ z. le x z ≡ true) ys
  below-All x y [] e h = tt
  below-All x y (z ∷ zs) e h = (ord.trans x y z e h.0, below-All x y zs e h.1)

  insert_sorted-IsSorted :
      (x : A) (xs : List A) → IsSorted le xs → IsSorted le (insert_sorted le x xs)
  unfolding insert_sorted
  insert_sorted-IsSorted x [] h = (tt, tt)
  insert_sorted-IsSorted x (y ∷ ys) h = elim (Bool-cases (le x y)) [
    | inl e ↦ rw e ((e, below-All x y ys e h.0), h)
    | inr e ↦ rw e (
      All-insert_sorted le (λ z. le y z ≡ true) x ys (ord.total x y e) h.0,
      insert_sorted-IsSorted x ys h.1,
    )
  ]

  pub sorted-IsSorted : (xs : List A) → IsSorted le (sorted le xs)
  unfolding sorted
  sorted-IsSorted [] = tt
  sorted-IsSorted (x ∷ xs) = insert_sorted-IsSorted x (sorted le xs) (sorted-IsSorted xs)

module _ {A : Type 0} (lt : A → A → Bool) where
  -- `best` is replaced by a later item only if that one's key is greater.
  unfoldable pub max_from : A → List A → A
  max_from best [] = best
  max_from best (x ∷ xs) = max_from (if lt best x then x else best) xs

  pub In-max_from : (best : A) (xs : List A) → In (max_from best xs) (best ∷ xs)
  unfolding max_from
  In-max_from best [] = inl refl
  In-max_from best (x ∷ xs) = ground (arith, In-max_from (if lt best x then x else best) xs)
