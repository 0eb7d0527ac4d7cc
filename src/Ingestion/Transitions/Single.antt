-- ===== src/Ingestion/Transitions/Single.antt =====
-- One batch followed through the updates of repositories/ingestion_batch_repository.py.
use bisfin.Ingestion.Transitions.Inversion.{IsUpdated}
use bisfin.Base.Int.{pos}
use bisfin.Brsapi.Json.{get}
use bisfin.Ingestion.Transitions.Rows.{
  rows_of, get_by_id-rows_of, open_row-rows_of, valid_update-rows_of, rows_of-update_rows,
}
use bisfin.Ingestion.Transitions.{update_rows, open_row, is_open, valid_update}
use bisfin.Ingestion.Batches.{
  IngestionBatch, get_by_request_id, BatchTable, is_running, get_by_id, is_negative, check_row,
}
use bisfin.Base.Texts.{Text, codes}
use bisfin.Base.{
  ℕ, Option, ◌≡◌, true, List, some, ◌∷◌, if◌then◌else◌, false, none, arith, [], ==_refl, ◌∙◌, refl,
  sym, ap, some_injective, subst,
}

-- The row is the only one with its identity, and the one found under the request.
pub record IsOnly (r : Text) (b : IngestionBatch) (t : BatchTable) : Type 0 where
  pub rows : rows_of b.ingestion_batch_id t.batches ≡ b ∷ []
  pub under : get_by_request_id b.feed_id r t.batches ≡ some b

-- What no update of a started batch changes.
pub record IsFrom (o b : IngestionBatch) : Type 0 where
  pub identity : b.ingestion_batch_id ≡ o.ingestion_batch_id
  pub feed : b.feed_id ≡ o.feed_id
  pub request : b.request_id ≡ o.request_id
  pub started : b.started_at ≡ o.started_at
  pub event_from : b.requested_event_from ≡ o.requested_event_from
  pub event_to : b.requested_event_to ≡ o.requested_event_to
  pub symbol : get (codes "symbol") b.metadata ≡ get (codes "symbol") o.metadata

pub record IsFresh (b : IngestionBatch) : Type 0 where
  pub open_status : is_running b.status ≡ true
  pub received : is_negative b.received_row_count ≡ false
  pub accepted : b.accepted_row_count ≡ pos 0
  pub rejected : b.rejected_row_count ≡ pos 0

-- An update that leaves the keys of a row as they are.
pub record IsKeyed (f : IngestionBatch → IngestionBatch) : Type 0 where
  pub identity : (b : IngestionBatch) → (f b).ingestion_batch_id ≡ b.ingestion_batch_id
  pub feed : (b : IngestionBatch) → (f b).feed_id ≡ b.feed_id
  pub request : (b : IngestionBatch) → (f b).request_id ≡ b.request_id

abbrev updated :
    ℕ → (IngestionBatch → IngestionBatch) → Option IngestionBatch → Option IngestionBatch
updated i f none = none
updated i f (some b) = some (if is_open i b then f b else b)

get_by_request_id-update_rows :
    (i feed : ℕ) (r : Text) (f : IngestionBatch → IngestionBatch) (bs : List IngestionBatch)
    → IsKeyed f
    → get_by_request_id feed r (update_rows i f bs) ≡ updated i f (get_by_request_id feed r bs)
unfolding get_by_request_id update_rows
get_by_request_id-update_rows i feed r f [] k = refl
get_by_request_id-update_rows i feed r f (b ∷ bs) k =
    ground (arith, get_by_request_id-update_rows i feed r f bs, k.identity b, k.feed b, k.request b)

module _ (r : Text) (b : IngestionBatch) (t : BatchTable) (h : IsOnly r b t)
    (open_b : is_running b.status ≡ true) where
  its_own : is_open b.ingestion_batch_id b ≡ true
  its_own = rw (==_refl, open_b) refl

  pub open_row-IsOnly : open_row b.ingestion_batch_id t.batches ≡ some b
  unfolding open_row
  open_row-IsOnly =
      open_row-rows_of b.ingestion_batch_id t.batches ∙ rw (h.rows, ==_refl, open_b) refl

  pub get_by_id-IsOnly : get_by_id b.ingestion_batch_id t.batches ≡ some b
  unfolding get_by_id
  get_by_id-IsOnly = get_by_id-rows_of b.ingestion_batch_id t.batches ∙ rw (h.rows, ==_refl) refl

  pub valid_update-IsOnly :
      (f : IngestionBatch → IngestionBatch)
      → check_row (f b) ≡ true
      → valid_update b.ingestion_batch_id f t.batches ≡ true
  unfolding valid_update
  valid_update-IsOnly f c =
      valid_update-rows_of b.ingestion_batch_id f t.batches ∙ rw (h.rows, its_own, c) refl

  rewritten :
      (f : IngestionBatch → IngestionBatch) → update_rows b.ingestion_batch_id f (b ∷ []) ≡ f b ∷ []
  unfolding update_rows
  rewritten f = rw its_own refl

  own_row :
      (f : IngestionBatch → IngestionBatch) → updated b.ingestion_batch_id f (some b) ≡ some (f b)
  own_row f = rw its_own refl

  -- The updated row takes the place of the old one.
  pub update_rows-IsOnly :
      (f : IngestionBatch → IngestionBatch)
      → IsKeyed f
      → IsOnly r (f b) (record t { batches = update_rows b.ingestion_batch_id f t.batches })
  update_rows-IsOnly f k = record {
    rows =
        subst (λ (j : ℕ). rows_of j (update_rows b.ingestion_batch_id f t.batches) ≡ f b ∷ [])
          (sym (k.identity b))
          (rows_of-update_rows b.ingestion_batch_id f k.identity t.batches
            ∙ ap (update_rows b.ingestion_batch_id f) h.rows
            ∙ rewritten f);
    under =
        subst
          (λ (j : ℕ).
            get_by_request_id j r (update_rows b.ingestion_batch_id f t.batches) ≡ some (f b))
          (sym (k.feed b))
          (get_by_request_id-update_rows b.ingestion_batch_id b.feed_id r f t.batches k
            ∙ ap (updated b.ingestion_batch_id f) h.under
            ∙ own_row f);
  }

module _ (i : ℕ) (f : IngestionBatch → IngestionBatch) (r : Text) (b : IngestionBatch)
    (t : BatchTable) (h : IsOnly r b t) (same : b.ingestion_batch_id ≡ i)
    (open_b : is_running b.status ≡ true) where
  -- A transition that succeeded has updated the followed row.
  pub IsUpdated-IsOnly :
      (w : IngestionBatch × BatchTable)
      → IsKeyed f
      → IsUpdated i f t w
      → (w.0 ≡ f b) × IsOnly r (f b) w.1
  IsUpdated-IsOnly w k (d, found, new, table) = (
    new ∙ ap f (some_injective (sym found ∙ its_open)),
    subst (IsOnly r (f b)) (sym (rw (sym same) at table)) (update_rows-IsOnly r b t h open_b f k),
  )
    where
      its_open : open_row i t.batches ≡ some b
      its_open = rw (sym same) (open_row-IsOnly r b t h open_b)
