-- ===== src/Ingestion/Service/Totals.antt =====
-- The counts of a result of `_canonicalize` of ingestion/service.py.
mod Finished
use Finished.{IsComplete, IsFinished, work-IsFinished}
use bisfin.Ingestion.Transitions.Inversion.{finalize_batch-IsUpdated}
use bisfin.Ingestion.Service.Writing.{Writing}
use bisfin.Base.Result.{
  ok, >>=-inv, raise_if-inv, ◌>>=◌, ok_injective, map_err, commit-inv, map_err-inv,
}
use bisfin.Ingestion.Transitions.Merge.{get-merge}
use bisfin.Base.Int.{pos}
use bisfin.Ingestion.Transitions.{merge, finalized, finalize_batch}
use bisfin.Brsapi.Json.{JsonObject}
use bisfin.Ingestion.Batches.{IngestionBatch, terminal_status, BatchTable}
use bisfin.Base.Texts.{same_text, codes, Text}
use bisfin.Base.{ℕ, ◌+◌, length, ◌≡◌, ◌≤◌, arith, refl, false, not, ◌∙◌, ap, ◌==◌, subst, sym}
use bisfin.Ingestion.Service.{
  metadata_count, Tally, DailyBarIngestionResult, completion_metadata, World, Started, Store,
  transaction, result_from_batch, canonicalizing, batch, runtime_error, database,
}
use bisfin.Ingestion.Service.Canonicalize.{
  Acquired, finish, canonicalize, work, ResultOf, finalization_of,
}

-- The counters of a batch that `_canonicalize` closed, and those of its result.
pub record IsTallied (n : ℕ) (y : Tally) (r : DailyBarIngestionResult) : Type 0 where
  pub every_row : y.accepted + y.rejected ≡ n
  pub bars_within : y.inserted + y.corrected + y.unchanged ≤ y.accepted
  pub status : r.status ≡ terminal_status y.accepted y.rejected
  pub received : r.received_count ≡ pos n
  pub accepted : r.accepted_count ≡ pos y.accepted
  pub rejected : r.rejected_count ≡ pos y.rejected
  pub inserted : r.bar_inserted_count ≡ pos y.inserted
  pub corrected : r.bar_corrected_count ≡ pos y.corrected
  pub unchanged : r.bar_unchanged_count ≡ pos y.unchanged
  pub raw : r.raw_inserted_count ≡ pos n

metadata_count-finalized :
    (b : IngestionBatch) (o : JsonObject) (n : ℕ) (y : Tally)
    → b.metadata ≡ merge o (completion_metadata n y)
    → (metadata_count b (codes "inserted_raw_count") ≡ pos n)
      × (metadata_count b (codes "inserted_revision_count") ≡ pos y.inserted)
      × (metadata_count b (codes "corrected_revision_count") ≡ pos y.corrected)
      × (metadata_count b (codes "unchanged_bar_count") ≡ pos y.unchanged)
unfolding metadata_count same_text
metadata_count-finalized b o n y e =
    (rw (e, get-merge) refl, rw (e, get-merge) refl, rw (e, get-merge) refl, rw (e, get-merge) refl)

module _ (w : World) (symbol : Text) (begun : Started) (a : Acquired)
    (paired : length a.raw_events ≡ length a.rows) where
  result-IsTallied :
      (y : Tally) (b : IngestionBatch)
      → IsComplete w symbol begun a paired y
      → IsTallied (length a.rows) y (
          result_from_batch
            (finalized w.redact (w.current canonicalizing) (finalization_of w symbol begun a y) b)
            begun.provider.provider_code
            begun.feed.feed_code
            symbol
            false)
  unfolding result_from_batch
  result-IsTallied y b c =
      let done =
        finalized w.redact (w.current canonicalizing) (finalization_of w symbol begun a y) b in
      let (raw, first, second, third) =
        metadata_count-finalized done b.metadata (length a.raw_events) y refl in
      record {
        every_row = c.0;
        bars_within = c.1;
        status = refl;
        received = refl;
        accepted = refl;
        rejected = refl;
        inserted = first;
        corrected = second;
        unchanged = third;
        raw = raw ∙ ap pos paired;
      }

  finish-IsTallied :
      (s : Store) (x : Writing) {r : DailyBarIngestionResult × Store}
      → IsComplete w symbol begun a paired x.tally
      → finish w symbol begun a s x ≡ ok r
      → IsTallied (length a.rows) x.tally r.0
  finish-IsTallied s x c h =
      let final = finalization_of w symbol begun a x.tally in
      let closing =
        finalize_batch w.redact (w.current canonicalizing) begun.batch.ingestion_batch_id final
          s.batches in
      let (z, h1, h2) =
        >>=-inv (map_err batch closing) (λ (z : IngestionBatch × BatchTable). ending z) h in
      let (_, (b, _, same, _)) =
        finalize_batch-IsUpdated w.redact (w.current canonicalizing) begun.batch.ingestion_batch_id
          final s.batches (map_err-inv batch closing h1) in
      subst (λ (q : DailyBarIngestionResult × Store). IsTallied (length a.rows) x.tally q.0)
        (ok_injective h2)
        (subst
          (λ (d : IngestionBatch).
            IsTallied (length a.rows) x.tally
              (result_from_batch d begun.provider.provider_code begun.feed.feed_code symbol false))
          (sym same) (result-IsTallied x.tally b c))
    where
      ending : IngestionBatch × BatchTable → ResultOf
      ending z = ok (
        result_from_batch z.0 begun.provider.provider_code begun.feed.feed_code symbol false,
        record s { batches = z.1; raw_events = x.events; bars = x.bars },
      )

module _ (w : World) (symbol : Text) (begun : Started) (a : Acquired) (s : Store)
    {r : DailyBarIngestionResult × Store} where
  canonicalize-IsFinished :
      canonicalize w symbol begun a s ≡ ok r
      → (paired : length a.raw_events ≡ length a.rows) × IsFinished w symbol begun a paired s r
  unfolding canonicalize
  canonicalize-IsFinished h =
      let done = transaction (w.faults canonicalizing) (work w symbol begun a s) in
      let (unpaired, h1) =
        raise_if-inv (not (length a.raw_events == length a.rows)) runtime_error done h in
      let paired : length a.raw_events ≡ length a.rows = ground arith in
      (
        paired,
        work-IsFinished w symbol begun a paired s
            (commit-inv (w.faults canonicalizing) database (work w symbol begun a s) h1),
      )

  pub canonicalize-finish :
      canonicalize w symbol begun a s ≡ ok r → (x : Writing) × (finish w symbol begun a s x ≡ ok r)
  canonicalize-finish h = let (_, (x, _, k)) = canonicalize-IsFinished h in (x, k)

  -- A result of the canonicalization: each row of the response is accepted or rejected, no more bars
  -- are written or found unchanged than rows accepted, the counts of the result are the counters, and
  -- its status is the terminal status of the two counts.
  pub canonicalize-IsTallied :
      canonicalize w symbol begun a s ≡ ok r → (y : Tally) × IsTallied (length a.rows) y r.0
  canonicalize-IsTallied h =
      let (paired, (x, c, k)) = canonicalize-IsFinished h in
      (x.tally, finish-IsTallied w symbol begun a paired s x c k)
