-- ===== src/Ingestion/Transitions/Rows.antt =====
-- The rows of one batch in the table of repositories/ingestion_batch_repository.py: lookups and
-- updates by an identity see no others.
use bisfin.Ingestion.Transitions.{open_row, valid_update, update_rows}
use bisfin.Ingestion.Batches.{get_by_id, IngestionBatch}
use bisfin.Base.{ℕ, keep, List, Bool, ◌++◌, ◌≡◌, ◌==◌, ◌∷◌, [], refl, arith}

abbrev has_id : ℕ → IngestionBatch → Bool
has_id i b = b.ingestion_batch_id == i

abbrev pub rows_of : ℕ → List IngestionBatch → List IngestionBatch
rows_of i bs = keep (has_id i) bs

module _ (i : ℕ) where
  pub get_by_id-rows_of : (bs : List IngestionBatch) → get_by_id i bs ≡ get_by_id i (rows_of i bs)
  unfolding get_by_id keep
  get_by_id-rows_of [] = refl
  get_by_id-rows_of (b ∷ bs) = ground (arith, get_by_id-rows_of bs)

  pub open_row-rows_of : (bs : List IngestionBatch) → open_row i bs ≡ open_row i (rows_of i bs)
  unfolding open_row keep
  open_row-rows_of [] = refl
  open_row-rows_of (b ∷ bs) = ground (arith, open_row-rows_of bs)

  pub rows_of-append :
      (bs : List IngestionBatch) (b : IngestionBatch)
      → rows_of i (bs ++ b ∷ []) ≡ rows_of i bs ++ rows_of i (b ∷ [])
  unfolding keep
  rows_of-append [] b = refl
  rows_of-append (c ∷ bs) b = ground (arith, rows_of-append bs b)

  module _ (f : IngestionBatch → IngestionBatch)
      (kept : (b : IngestionBatch) → (f b).ingestion_batch_id ≡ b.ingestion_batch_id) where
    pub rows_of-update_rows :
        (bs : List IngestionBatch) → rows_of i (update_rows i f bs) ≡ update_rows i f (rows_of i bs)
    unfolding update_rows keep
    rows_of-update_rows [] = refl
    rows_of-update_rows (b ∷ bs) = ground (arith, rows_of-update_rows bs, kept b)

  pub valid_update-rows_of :
      (f : IngestionBatch → IngestionBatch) (bs : List IngestionBatch)
      → valid_update i f bs ≡ valid_update i f (rows_of i bs)
  unfolding valid_update keep
  valid_update-rows_of f [] = refl
  valid_update-rows_of f (b ∷ bs) = ground (arith, valid_update-rows_of f bs)
