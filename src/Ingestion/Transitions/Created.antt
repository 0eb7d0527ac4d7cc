-- ===== src/Ingestion/Transitions/Created.antt =====
-- The batch that `create_batch_if_absent` of repositories/ingestion_batch_repository.py has created.
use bisfin.Ingestion.Batches.Idempotent.{get_by_request_id-append, existing_of}
use bisfin.Ingestion.Transitions.Single.{IsOnly}
use bisfin.Ingestion.Transitions.Rows.{rows_of, rows_of-append}
use bisfin.Base.Result.{ok, raise_if-inv, ok_injective}
use bisfin.Base.Texts.{Text, same_text_refl}
use bisfin.Ingestion.Batches.{
  NewBatch, BatchTable, insert_row, IngestionBatchStartResult, create_batch_if_absent, row_of,
  IngestionBatch, existing, insert_or_find, check_row, integrity_violation, has_feed,
}
use bisfin.Base.{
  ℕ, ◌++◌, Option, ◌≡◌, false, ◌∷◌, some, ◌⊎◌, [], none, ◌+◌, not, true, subst, ==_refl, inl, refl,
  ◌∙◌, Bool-cases, ap, List, inr, arith, sym, keep,
}

module _ (now : ℕ) (n : NewBatch) (t : BatchTable) where
  -- The table with the new row.
  abbrev pub grown : BatchTable
  grown = record t { batches = t.batches ++ row_of now t.next_id n ∷ []; next_id = t.next_id + 1 }

  -- A row that was there, or the new one behind the others.
  abbrev pub IsStart : IngestionBatchStartResult × BatchTable → Type 0
  IsStart (q, t') =
      ((q.created ≡ false) × (t' ≡ t))
      ⊎ ((q ≡ record { batch = row_of now t.next_id n; created = true })
          × (t' ≡ grown)
          × (existing n n.request_id t ≡ none))

  insert_or_find-IsStart :
      (o : Option IngestionBatch) {x : IngestionBatchStartResult × BatchTable}
      → existing n n.request_id t ≡ o
      → insert_or_find now n t o ≡ ok x
      → IsStart x
  unfolding insert_row
  insert_or_find-IsStart (some b) e h = subst IsStart (ok_injective h) (inl (refl, refl))
  insert_or_find-IsStart none e h = elim (Bool-cases (has_feed n.feed_id t.feeds)) [
    | inr q ↦ absurd (ground arith)
    | inl q ↦ subst IsStart (ok_injective (rw q at h)) (inr (refl, refl, e))
  ]

  pub create_batch_if_absent-IsStart :
      {x : IngestionBatchStartResult × BatchTable}
      → create_batch_if_absent now n t ≡ ok x
      → IsStart x
  unfolding create_batch_if_absent
  create_batch_if_absent-IsStart h =
      let (_, k) =
        raise_if-inv (not (check_row (row_of now t.next_id n))) integrity_violation
          (insert_or_find now n t (existing n n.request_id t)) h in
      insert_or_find-IsStart (existing n n.request_id t) refl k

  -- The new row is alone with its identity, and found under its request.
  pub grown-IsOnly :
      (r : Text)
      → n.request_id ≡ some r
      → rows_of t.next_id t.batches ≡ []
      → existing n n.request_id t ≡ none
      → IsOnly r (row_of now t.next_id n) grown
  unfolding keep
  grown-IsOnly r requested fresh absent = record {
    rows =
        rows_of-append t.next_id t.batches (row_of now t.next_id n)
        ∙ ap (λ (l : List IngestionBatch). l ++ rows_of t.next_id (row_of now t.next_id n ∷ []))
            fresh
        ∙ own_row;
    under =
        get_by_request_id-append n.feed_id r t.batches (row_of now t.next_id n)
          (sym (existing_of n r requested t) ∙ absent) (==_refl n.feed_id)
          (rw requested (same_text_refl r));
  }
    where
      own_row : rows_of t.next_id (row_of now t.next_id n ∷ []) ≡ row_of now t.next_id n ∷ []
      own_row = rw (==_refl t.next_id) refl
