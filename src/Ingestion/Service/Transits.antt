-- ===== src/Ingestion/Service/Transits.antt =====
-- The started batch through each transaction of ingestion/service.py.
use bisfin.Repositories.RawEvents.{RawEvent, RawEventTable}
use bisfin.Brsapi.Duplicates.{DailyBarParseResult}
use bisfin.Brsapi.Json.{get}
use bisfin.Ingestion.Service.Acquire.{
  persist_empty_acquisition, persist_acquisition, empty_acquisition, acquisition_of, insert_events,
  partitioned, provider_status,
}
use bisfin.Ingestion.Service.Writing.{Writing}
use bisfin.Ingestion.Service.Totals.{canonicalize-finish}
use bisfin.Ingestion.Transitions.{merge, record_acquisition, finalize_batch}
use bisfin.Base.{Option, ◌≡◌, refl, arith, some, none, List, ℕ, false, length, subst}
use bisfin.Ingestion.Service.Followed.{
  IsOpened, IsReported, finalized_as-IsReported, finalized-IsReported, acquired-IsOpened, Request,
}
use bisfin.Ingestion.Batches.{IngestionBatchStatus, IngestionBatch, get_by_id, BatchTable}
use bisfin.Base.Result.{ok, >>=-inv, Result, ◌>>=◌, ok_injective, map_err, map_err-inv, commit-inv}
use bisfin.Ingestion.Service.Canonicalize.{
  Acquired, ResultOf, canonicalize, finish, finalization_of,
}
use bisfin.Ingestion.Service.Finish.{
  finalize_expected_failure, fail_current, failure_finalization, failure_code,
}
use bisfin.Base.Texts.{Text, same_text, codes}
use bisfin.Ingestion.Service.{
  World, Started, Store, DailyBarIngestionResult, Fault, BrsApiRawResponse, finishing,
  completion_metadata, no_rows, result_from_batch, Tally, acquisition_metadata, batch, acquiring,
  canonicalizing, repository, referenced, database,
}

-- The metadata of a finalization or an acquisition names no symbol.
pub unnamed_completion : (n : ℕ) (y : Tally) → get (codes "symbol") (completion_metadata n y) ≡ none
unfolding get same_text
unnamed_completion n y = refl

pub unnamed_failure :
    (n : ℕ) (y : Tally) (code : Text)
    → get (codes "symbol") (merge (completion_metadata n y) (failure_code code)) ≡ none
unfolding get merge same_text
unnamed_failure n y code = refl

pub unnamed_acquisition :
    (b : BrsApiRawResponse) (status : Text) (n : ℕ) (preview : Option Text)
    → get (codes "symbol") (acquisition_metadata b status n preview) ≡ none
unfolding get same_text
unnamed_acquisition b status n none = refl
unnamed_acquisition b status n (some t) = refl

module _ (w : World) (symbol : Text) (begun : Started) (r : Request) where
  pub finalize_expected_failure-IsReported :
      (status : IngestionBatchStatus) (code : Text) (e : Fault) (o : Option BrsApiRawResponse)
      (s : Store) (x : DailyBarIngestionResult × Store)
      → IsOpened w symbol begun r s
      → finalize_expected_failure w symbol begun status code e o s ≡ ok x
      → IsReported w symbol begun r x
  unfolding finalize_expected_failure
  finalize_expected_failure-IsReported status code e o s x h k =
      found (get_by_id begun.batch.ingestion_batch_id s.batches.batches) k
    where
      found :
          (c : Option IngestionBatch)
          → fail_current w symbol begun status code e o s c ≡ ok x
          → IsReported w symbol begun r x
      found none q = absurd (ground arith)
      found (some b) q =
          finalized_as-IsReported w symbol begun r finishing
            (failure_finalization w symbol begun status code e o b)
            (merge (completion_metadata 0 no_rows) (failure_code code)) s refl
            (unnamed_failure 0 no_rows code) h q

  pub finish-IsReported :
      (a : Acquired) (s : Store) (y : Writing) (x : DailyBarIngestionResult × Store)
      → IsOpened w symbol begun r s
      → finish w symbol begun a s y ≡ ok x
      → IsReported w symbol begun r x
  finish-IsReported a s y x h k =
      let f = finalization_of w symbol begun a y.tally in
      let closing =
        finalize_batch w.redact (w.current canonicalizing) begun.batch.ingestion_batch_id f
          s.batches in
      let (z, h1, h2) =
        >>=-inv (map_err batch closing) (λ (z : IngestionBatch × BatchTable). ending z) k in
      subst (IsReported w symbol begun r) (ok_injective h2) (
        finalized-IsReported w symbol begun r (w.current canonicalizing) f
          (completion_metadata (length a.raw_events) y.tally) s
          (record s { batches = z.1; raw_events = y.events; bars = y.bars }) refl
          (unnamed_completion (length a.raw_events) y.tally) h z (map_err-inv batch closing h1) refl
          refl)
    where
      ending : IngestionBatch × BatchTable → ResultOf
      ending z = ok (
        result_from_batch z.0 begun.provider.provider_code begun.feed.feed_code symbol false,
        record s { batches = z.1; raw_events = y.events; bars = y.bars },
      )

  pub canonicalize-IsReported :
      (a : Acquired) (s : Store) (x : DailyBarIngestionResult × Store)
      → IsOpened w symbol begun r s
      → canonicalize w symbol begun a s ≡ ok x
      → IsReported w symbol begun r x
  canonicalize-IsReported a s x h k =
      let (y, q) = canonicalize-finish w symbol begun a s k in finish-IsReported a s y x h q

  pub persist_empty_acquisition-IsOpened :
      (b : BrsApiRawResponse) (status : Text) (preview : Option Text) (s : Store) (x : Unit × Store)
      → IsOpened w symbol begun r s
      → persist_empty_acquisition w begun b status preview s ≡ ok x
      → IsOpened w symbol begun r x.1
  unfolding persist_empty_acquisition
  persist_empty_acquisition-IsOpened b status preview s x h k =
      let a = empty_acquisition w b status preview in
      let acquiring_it = record_acquisition begun.batch.ingestion_batch_id a s.batches in
      let (z, h1, h2) =
        >>=-inv (map_err batch acquiring_it)
          (λ (z : IngestionBatch × BatchTable). ok (tt, record s { batches = z.1 }))
          (commit-inv (w.faults acquiring) database
            (map_err batch acquiring_it >>= λ (z : IngestionBatch × BatchTable).
              ok (tt, record s { batches = z.1 }))
            k) in
      subst (λ (q : Unit × Store). IsOpened w symbol begun r q.1) (ok_injective h2)
        (acquired-IsOpened w symbol begun r a (acquisition_metadata b status 0 preview) s
          (record s { batches = z.1 }) z refl (unnamed_acquisition b status 0 preview) h
          (map_err-inv batch acquiring_it h1) refl refl)

  pub persist_acquisition-IsOpened :
      (b : BrsApiRawResponse) (parsed : DailyBarParseResult) (s : Store) (x : List RawEvent × Store)
      → IsOpened w symbol begun r s
      → persist_acquisition w symbol begun b parsed s ≡ ok x
      → IsOpened w symbol begun r x.1
  unfolding persist_acquisition
  persist_acquisition-IsOpened b parsed s x h k =
      let inserting = map_err repository (
        insert_events w symbol begun b (referenced s) parsed.rows
          (partitioned w parsed.rows b.response_received_at s.raw_events)) in
      let (es, _, h2) =
        >>=-inv inserting (λ (es : List RawEvent × RawEventTable). acquiring_after es)
          (commit-inv (w.faults acquiring) database
            (inserting >>= λ (es : List RawEvent × RawEventTable). acquiring_after es) k) in
      let a = acquisition_of w b parsed (length es.0) in
      let acquiring_it = record_acquisition begun.batch.ingestion_batch_id a s.batches in
      let (z, h3, h4) =
        >>=-inv (map_err batch acquiring_it) (λ (z : IngestionBatch × BatchTable). ending es z)
          h2 in
      subst (λ (q : List RawEvent × Store). IsOpened w symbol begun r q.1) (ok_injective h4)
        (acquired-IsOpened w symbol begun r a
          (acquisition_metadata b (provider_status w parsed.no_data_payload) (length es.0) none) s
          (record s { raw_events = es.1; batches = z.1 }) z refl
          (unnamed_acquisition b (provider_status w parsed.no_data_payload) (length es.0) none) h
          (map_err-inv batch acquiring_it h3) refl refl)
    where
      ending :
          List RawEvent × RawEventTable
          → IngestionBatch × BatchTable
          → Result Fault (List RawEvent × Store)
      ending es z = ok (es.0, record s { raw_events = es.1; batches = z.1 })

      acquiring_after : List RawEvent × RawEventTable → Result Fault (List RawEvent × Store)
      acquiring_after es =
          map_err batch (
            record_acquisition begun.batch.ingestion_batch_id
              (acquisition_of w b parsed (length es.0)) s.batches)
          >>= λ (z : IngestionBatch × BatchTable).
              ok (es.0, record s { raw_events = es.1; batches = z.1 })
