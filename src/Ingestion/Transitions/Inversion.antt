-- ===== src/Ingestion/Transitions/Inversion.antt =====
-- What a successful transition of repositories/ingestion_batch_repository.py has done.
use bisfin.Base.Result.{ok, raise_if-inv, ◌>>◌, ok_injective, >>=-inv}
use bisfin.Ingestion.Batches.{
  IngestionBatch, BatchTable, IngestionBatchStatus, is_running, is_negative, running,
  validate_counts, not_terminal, negative_count,
}
use bisfin.Base.Texts.{Text}
use bisfin.Ingestion.Transitions.{
  finalize_batch, record_acquisition, Acquisition, Finalization, open_row, transition, update_rows,
  acquired, finalized, valid_update,
}
use bisfin.Base.{none, ℕ, ◌≡◌, some, Option, false, arith, Bool-cases, inr, inl, subst, refl, none}

module _ (i : ℕ) (f : IngestionBatch → IngestionBatch) (t : BatchTable) where
  -- The open row with the identity got the new values, as every open row with it did.
  abbrev pub IsUpdated : IngestionBatch × BatchTable → Type 0
  IsUpdated (b', t') =
      (b : IngestionBatch) × (open_row i t.batches ≡ some b)
      × (b' ≡ f b)
      × (t' ≡ record t { batches = update_rows i f t.batches })

  transition-IsUpdated :
      (target : IngestionBatchStatus) (o : Option IngestionBatch) {w : IngestionBatch × BatchTable}
      → open_row i t.batches ≡ o
      → transition i target f t o ≡ ok w
      → IsUpdated w
  transition-IsUpdated target none e h = absurd (ground arith)
  transition-IsUpdated target (some b) e h = elim (Bool-cases (valid_update i f t.batches)) [
    | inr refused ↦ absurd (cc (rw refused at h))
    | inl valid ↦ subst IsUpdated (ok_injective (rw valid at h)) (b, e, refl, refl)
  ]

pub finalize_batch-IsUpdated :
    (redact : Text → Text) (now i : ℕ) (f : Finalization) (t : BatchTable)
    {w : IngestionBatch × BatchTable}
    → finalize_batch redact now i f t ≡ ok w
    → (is_running f.status ≡ false) × IsUpdated i (finalized redact now f) t w
unfolding finalize_batch
finalize_batch-IsUpdated redact now i f t h =
    let moved = transition i f.status (finalized redact now f) t (open_row i t.batches) in
    let counts = validate_counts f.received_row_count f.accepted_row_count f.rejected_row_count in
    let (terminal, h1) = raise_if-inv (is_running f.status) not_terminal (counts >> moved) h in
    let (_, _, h2) = >>=-inv counts (λ _. moved) h1 in
    (
      terminal,
      transition-IsUpdated i (finalized redact now f) t f.status (open_row i t.batches) refl h2,
    )

pub record_acquisition-IsUpdated :
    (i : ℕ) (a : Acquisition) (t : BatchTable) {w : IngestionBatch × BatchTable}
    → record_acquisition i a t ≡ ok w
    → (is_negative a.received_row_count ≡ false) × IsUpdated i (acquired a) t w
unfolding record_acquisition
record_acquisition-IsUpdated i a t h =
    let moved = transition i running (acquired a) t (open_row i t.batches) in
    let (valid, h1) = raise_if-inv (is_negative a.received_row_count) negative_count moved h in
    (valid, transition-IsUpdated i (acquired a) t running (open_row i t.batches) refl h1)
