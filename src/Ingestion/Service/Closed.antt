-- ===== src/Ingestion/Service/Closed.antt =====
-- Every batch that `ingest` of ingestion/service.py starts is closed.
use bisfin.Ingestion.Service.Canonicalize.{ResultOf}
use bisfin.Ingestion.Transitions.Followed.{finalize_batch_succeeds}
use bisfin.Ingestion.Transitions.{finalize_batch}
use bisfin.Ingestion.Transitions.Single.{IsOnly, get_by_id-IsOnly}
use bisfin.Ingestion.Service.Ingest.{
  handled, ingest, effective, run_or_replay, run_started_batch, ingest_normalized,
}
use bisfin.Ingestion.Service.Ends.{AfterRun, reported-IsEnded, run_started_batch-AfterRun}
use bisfin.Ingestion.Service.Finish.{
  Run, mark_unexpected_started_failure, exception, canonicalization, started_failure, mark_current,
  failure_code, finalized_as, committed,
}
use bisfin.Ingestion.Service.Followed.{IsOpened, IsEnded, finalized_as-IsReported, Request}
use bisfin.Base.{
  ◌≡◌, true, false, [], ◌⊎◌, ◌≤◌, none, inl, inr, subst, Option, ℕ, sym, ◌∙◌, refl, some, Bool,
  if◌then◌else◌, ◌∷◌,
}
use bisfin.Base.Texts.{Text, codes, same_text}
use bisfin.Ingestion.Batches.{BatchTable, in_order, IngestionBatch, is_running, get_by_id}
use bisfin.Ingestion.Service.{
  World, Fault, Started, Store, marking_started, starting, DailyBarIngestionResult,
  result_from_batch, Fetched, ServiceError,
}
use bisfin.Base.Result.{Result, ok, err}
use bisfin.Brsapi.Normalization.{normalize_brsapi_symbol}
use bisfin.Brsapi.Json.{get}
use bisfin.Ingestion.Service.Start.{Start, start_batch}
use bisfin.Ingestion.Service.Begun.{HasFreshId, start_batch-IsStarted}

unnamed_code : (code : Text) → get (codes "symbol") (failure_code code) ≡ none
unfolding get same_text
unnamed_code code = refl

module _ (w : World) (symbol : Text) (begun : Started) (r : Request)
    (working : w.faults marking_started ≡ false)
    (started_before : begun.batch.started_at ≤ w.now marking_started)
    (no_from : begun.batch.requested_event_from ≡ none) where
  accepted-IsEnded :
      (e : Fault) (s : Store) (b : IngestionBatch)
      → IsOpened w symbol begun r s
      → is_running b.status ≡ true
      → (z : IngestionBatch × BatchTable)
      → finalize_batch w.redact
          (w.current marking_started)
          begun.batch.ingestion_batch_id
          (started_failure w symbol begun e b)
          s.batches
        ≡ ok z
      → IsEnded w symbol begun r (mark_current w symbol begun e s (some b))
  accepted-IsEnded e s b opened running_b z accepted =
      subst
        (λ (v : Bool). IsEnded w symbol begun r (
          if v
          then (committed s (
              finalized_as w symbol begun marking_started (started_failure w symbol begun e b) s)).1
          else s))
        (sym running_b)
        (subst (λ (m : ResultOf). IsEnded w symbol begun r (committed s m).1) (sym finished)
          (reported-IsEnded w symbol begun r done (
            finalized_as-IsReported w symbol begun r marking_started
              (started_failure w symbol begun e b) (failure_code (codes "INGESTION_FAILED")) s refl
              unnamed opened finished)))
    where
      done : DailyBarIngestionResult × Store
      done = (
        result_from_batch z.0 begun.provider.provider_code begun.feed.feed_code symbol false,
        record s { batches = z.1 },
      )

      finished :
          finalized_as w symbol begun marking_started (started_failure w symbol begun e b) s
          ≡ ok done
      finished = rw (working, accepted) refl

      unnamed : get (codes "symbol") (failure_code (codes "INGESTION_FAILED")) ≡ none
      unnamed = unnamed_code (codes "INGESTION_FAILED")

  -- The mark of an unexpected failure closes an open batch.
  mark_unexpected_started_failure-IsEnded :
      (e : Fault) (s : Store)
      → IsOpened w symbol begun r s
      → IsEnded w symbol begun r (mark_unexpected_started_failure w symbol begun e s)
  unfolding mark_unexpected_started_failure
  mark_unexpected_started_failure-IsEnded e s (b, (only, held), from, fresh) =
      let f = started_failure w symbol begun e b in
      let (z, accepted) =
        finalize_batch_succeeds begun.batch r.0 b s.batches only from fresh w.redact
          (w.current marking_started) f (w.now marking_started) refl refl (refl, refl, refl) ordered
          before in
      subst
        (λ (o : Option IngestionBatch).
          IsEnded w symbol begun r (mark_current w symbol begun e s o))
        (sym found)
        (accepted-IsEnded e s b (b, (only, held), from, fresh) fresh.open_status z accepted)
    where
      ordered : in_order b.requested_event_from b.requested_event_to ≡ true
      ordered =
          subst (λ (v : Option ℕ). in_order v b.requested_event_to ≡ true)
            (sym (from.event_from ∙ no_from)) refl

      before : b.started_at ≤ w.now marking_started
      before = subst (λ (v : ℕ). v ≤ w.now marking_started) (sym from.started) started_before

      found : get_by_id begun.batch.ingestion_batch_id s.batches.batches ≡ some b
      found =
          subst (λ (j : ℕ). get_by_id j s.batches.batches ≡ some b) from.identity
            (get_by_id-IsOnly r.0 b s.batches only fresh.open_status)

  pub handled-IsEnded :
      (run : Run)
      → AfterRun w symbol begun r run
      → IsEnded w symbol begun r (handled w symbol begun run).1
  handled-IsEnded (ok d, s) (b, only, from, closed, _) = (b, only, from, closed)
  handled-IsEnded (err canonicalization, s) h = h
  handled-IsEnded (err (exception e), s) h = mark_unexpected_started_failure-IsEnded e s h

module _ (w : World) (symbol request : Text) (s : Store) where
  -- Nothing has changed, or the batch with the next identity is closed.
  abbrev pub IsClosed : Store → Type 0
  IsClosed s' =
      (s' ≡ s)
      ⊎ ((b : IngestionBatch) × IsOnly request b s'.batches
          × (b.ingestion_batch_id ≡ s.batches.next_id)
          × (is_running b.status ≡ false))

  run_or_replay-IsClosed :
      (fetched : Fetched) (o : Result ServiceError Start)
      → HasFreshId s.batches
      → w.faults marking_started ≡ false
      → w.now starting ≤ w.now marking_started
      → start_batch w symbol request s ≡ o
      → IsClosed (run_or_replay w symbol fetched s o).1
  run_or_replay-IsClosed fetched (err e) fresh working later h = inl refl
  run_or_replay-IsClosed fetched (ok (begun, replay, s')) fresh working later h =
      elim (start_batch-IsStarted w symbol request s fresh h) [
        | inl (again, same) ↦ rw again (inl same)
        | inr (new, opened, id, (at, no_from, no_to), _, _) ↦ rw new (ended opened id at no_from)
      ]
    where
      ended :
          IsOpened w symbol begun (request, s.catalog) s'
          → begun.batch.ingestion_batch_id ≡ s.batches.next_id
          → begun.batch.started_at ≡ w.now starting
          → begun.batch.requested_event_from ≡ none
          → IsClosed (handled w symbol begun (run_started_batch w symbol begun fetched s')).1
      ended opened id at no_from =
          let (b, (only, _), from, closed) =
            handled-IsEnded w symbol begun (request, s.catalog) working
              (subst (λ (v : ℕ). v ≤ w.now marking_started) (sym at) later) no_from
              (run_started_batch w symbol begun fetched s')
              (run_started_batch-AfterRun w symbol begun (request, s.catalog) fetched s' opened) in
          inr (b, only, from.identity ∙ id, closed)

normalized-IsClosed :
    (w : World) (symbol request : Text) (s : Store) (fetched : Fetched)
    → HasFreshId s.batches
    → w.faults marking_started ≡ false
    → w.now starting ≤ w.now marking_started
    → IsClosed w symbol request s (ingest_normalized w symbol request fetched s).1
normalized-IsClosed w [] request s fetched fresh working later = inl refl
normalized-IsClosed w (c ∷ cs) request s fetched fresh working later =
    run_or_replay-IsClosed w (c ∷ cs) request s fetched (start_batch w (c ∷ cs) request s) fresh
      working later refl

-- Where the identity of the next batch is new, the transaction of the last resort is not failed by
-- the database, and the clock does not go back between the start and that transaction: after `ingest`,
-- whatever the client and the other transactions do, either nothing has changed, or the batch that it
-- started is closed, has the next identity alone, and is found under its feed and request identifier.
pub ingest-IsClosed :
    (w : World) (symbol : Text) (request : Option Text) (generated : Text) (fetched : Fetched)
    (s : Store)
    → HasFreshId s.batches
    → w.faults marking_started ≡ false
    → w.now starting ≤ w.now marking_started
    → IsClosed w symbol
        (effective request generated)
        s
        (ingest w symbol request generated fetched s).1
unfolding ingest
ingest-IsClosed w symbol request generated fetched s fresh working later =
    normalized-IsClosed w (normalize_brsapi_symbol w.libraries symbol) (effective request generated)
      s fetched fresh working later
