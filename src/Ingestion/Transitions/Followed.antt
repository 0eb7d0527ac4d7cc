-- ===== src/Ingestion/Transitions/Followed.antt =====
-- The acquisition and the finalization of one batch by
-- repositories/ingestion_batch_repository.py.
use bisfin.Ingestion.Transitions.Merge.{get-merge, or_old}
use bisfin.Ingestion.Transitions.Single.{
  IsOnly, IsFrom, IsFresh, IsKeyed, IsUpdated-IsOnly, open_row-IsOnly, valid_update-IsOnly,
}
use bisfin.Base.Result.{ok, raise_if, ◌>>◌, Result}
use bisfin.Ingestion.Transitions.Inversion.{record_acquisition-IsUpdated, finalize_batch-IsUpdated}
use bisfin.Base.Int.{◌+ℤ◌}
use bisfin.Brsapi.Json.{get, JsonObject, JsonValue}
use bisfin.Ingestion.Transitions.{
  update_rows, open_row, valid_update, Acquisition, record_acquisition, acquired, patched,
  finalize_batch, Finalization, finalized, transition,
}
use bisfin.Ingestion.Batches.{
  IngestionBatch, BatchTable, is_running, check_row, in_order, validate_counts,
  IngestionBatchStatus, not_terminal, IngestionError,
}
use bisfin.Base.Texts.{Text, codes}
use bisfin.Base.{
  ℕ, Option, ◌≡◌, true, some, false, none, arith, ◌∙◌, refl, sym, ap, subst, ◌≤◌, Bool,
}

patched-symbol :
    (p : Option JsonObject) (m o : JsonObject)
    → p ≡ some m
    → get (codes "symbol") m ≡ none
    → get (codes "symbol") (patched p o) ≡ get (codes "symbol") o
patched-symbol p m o e h =
    ap (λ (x : Option JsonObject). get (codes "symbol") (patched x o)) e
    ∙ get-merge (codes "symbol") o m
    ∙ ap (λ (x : Option JsonValue). or_old x (get (codes "symbol") o)) h

-- The acquisition and the finalization of a followed batch.
module _ (o : IngestionBatch) (r : Text) (b : IngestionBatch) (t : BatchTable) (h : IsOnly r b t)
    (from : IsFrom o b) (fresh : IsFresh b) where
  pub record_acquisition-IsFresh :
      (a : Acquisition) (m : JsonObject) {w : IngestionBatch × BatchTable}
      → a.metadata ≡ some m
      → get (codes "symbol") m ≡ none
      → record_acquisition o.ingestion_batch_id a t ≡ ok w
      → IsOnly r w.0 w.1 × IsFrom o w.0 × IsFresh w.0
  record_acquisition-IsFresh a m {w} e unnamed k =
      let (valid, moved) = record_acquisition-IsUpdated o.ingestion_batch_id a t k in
      let (new, only) =
        IsUpdated-IsOnly o.ingestion_batch_id (acquired a) r b t h from.identity fresh.open_status w
          keyed moved in
      (
        subst (λ (x : IngestionBatch). IsOnly r x w.1) (sym new) only,
        subst (IsFrom o) (sym new) (record {
          identity = from.identity;
          feed = from.feed;
          request = from.request;
          started = from.started;
          event_from = from.event_from;
          event_to = from.event_to;
          symbol = renamed;
        }),
        subst IsFresh (sym new) (record {
          open_status = fresh.open_status;
          received = valid;
          accepted = fresh.accepted;
          rejected = fresh.rejected;
        }),
      )
    where
      keyed : IsKeyed (acquired a)
      keyed = record { identity = λ d. refl; feed = λ d. refl; request = λ d. refl }

      renamed : get (codes "symbol") (acquired a b).metadata ≡ get (codes "symbol") o.metadata
      renamed = patched-symbol a.metadata m b.metadata e unnamed ∙ from.symbol

  pub finalize_batch-IsFrom :
      (redact : Text → Text) (now : ℕ) (f : Finalization) (m : JsonObject)
      {w : IngestionBatch × BatchTable}
      → f.metadata ≡ some m
      → get (codes "symbol") m ≡ none
      → finalize_batch redact now o.ingestion_batch_id f t ≡ ok w
      → IsOnly r w.0 w.1 × IsFrom o w.0 × (is_running w.0.status ≡ false)
  finalize_batch-IsFrom redact now f m {w} e unnamed k =
      let (terminal, moved) = finalize_batch-IsUpdated redact now o.ingestion_batch_id f t k in
      let (new, only) =
        IsUpdated-IsOnly o.ingestion_batch_id (finalized redact now f) r b t h from.identity
          fresh.open_status w keyed moved in
      (
        subst (λ (x : IngestionBatch). IsOnly r x w.1) (sym new) only,
        subst (IsFrom o) (sym new) (record {
          identity = from.identity;
          feed = from.feed;
          request = from.request;
          started = from.started;
          event_from = from.event_from;
          event_to = from.event_to;
          symbol = renamed;
        }),
        subst (λ (x : IngestionBatch). is_running x.status ≡ false) (sym new) terminal,
      )
    where
      keyed : IsKeyed (finalized redact now f)
      keyed = record { identity = λ d. refl; feed = λ d. refl; request = λ d. refl }

      renamed :
          get (codes "symbol") (finalized redact now f b).metadata ≡ get (codes "symbol") o.metadata
      renamed = patched-symbol f.metadata m b.metadata e unnamed ∙ from.symbol

  check_row-finalized :
      (redact : Text → Text) (now : ℕ) (f : Finalization) (ended : ℕ)
      → f.finished_at ≡ some ended
      → (f.received_row_count ≡ b.received_row_count)
        × (f.accepted_row_count ≡ b.accepted_row_count)
        × (f.rejected_row_count ≡ b.rejected_row_count)
      → in_order b.requested_event_from b.requested_event_to ≡ true
      → b.started_at ≤ ended
      → check_row (finalized redact now f b) ≡ true
  unfolding check_row ◌+ℤ◌
  check_row-finalized redact now f ended e c q k = ground arith

  counted :
      (f : Finalization)
      → (f.received_row_count ≡ b.received_row_count)
        × (f.accepted_row_count ≡ b.accepted_row_count)
        × (f.rejected_row_count ≡ b.rejected_row_count)
      → validate_counts f.received_row_count f.accepted_row_count f.rejected_row_count ≡ ok tt
  unfolding validate_counts ◌+ℤ◌
  counted f c = ground arith

  transition_of :
      (g : IngestionBatch → IngestionBatch) (target : IngestionBatchStatus)
      → check_row (g b) ≡ true
      → transition o.ingestion_batch_id target g t (open_row o.ingestion_batch_id t.batches)
        ≡ ok (g b, record t { batches = update_rows o.ingestion_batch_id g t.batches })
  transition_of g target c = rw (opened, valid) refl
    where
      opened : open_row o.ingestion_batch_id t.batches ≡ some b
      opened =
          subst (λ (j : ℕ). open_row j t.batches ≡ some b) from.identity
            (open_row-IsOnly r b t h fresh.open_status)

      valid : valid_update o.ingestion_batch_id g t.batches ≡ true
      valid =
          subst (λ (j : ℕ). valid_update j g t.batches ≡ true) from.identity
            (valid_update-IsOnly r b t h fresh.open_status g c)

  -- A failure that keeps the counts of the row and ends after its start is not refused.
  pub finalize_batch_succeeds :
      (redact : Text → Text) (now : ℕ) (f : Finalization) (ended : ℕ)
      → is_running f.status ≡ false
      → f.finished_at ≡ some ended
      → (f.received_row_count ≡ b.received_row_count)
        × (f.accepted_row_count ≡ b.accepted_row_count)
        × (f.rejected_row_count ≡ b.rejected_row_count)
      → in_order b.requested_event_from b.requested_event_to ≡ true
      → b.started_at ≤ ended
      → (w : IngestionBatch × BatchTable) × (finalize_batch redact now o.ingestion_batch_id f t
          ≡ ok w)
  unfolding finalize_batch
  finalize_batch_succeeds redact now f ended s e c q k =
      let g = finalized redact now f in
      let moved =
        transition o.ingestion_batch_id f.status g t (open_row o.ingestion_batch_id t.batches) in
      let counts = validate_counts f.received_row_count f.accepted_row_count f.rejected_row_count in
      let valid = check_row-finalized redact now f ended e c q k in
      (
        (g b, record t { batches = update_rows o.ingestion_batch_id g t.batches }),
        ap (λ (x : Bool). raise_if x not_terminal >> (counts >> moved)) s
            ∙ ap (λ (v : Result IngestionError Unit). v >> moved) (counted f c)
            ∙ transition_of g f.status valid,
      )
