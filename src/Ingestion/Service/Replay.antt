-- ===== src/Ingestion/Service/Replay.antt =====
-- A second request with the identifier of a closed batch, in `ingest` of ingestion/service.py.
use bisfin.Ingestion.Service.Finish.{Run, exception, canonicalization}
use bisfin.Base.Int.{◌+ℤ◌}
use bisfin.Repositories.{RepositoryError}
use bisfin.Brsapi.Normalization.{normalize_brsapi_symbol, Libraries}
use bisfin.Ingestion.Service.Ends.{run_started_batch-AfterRun, AfterRun}
use bisfin.Brsapi.Json.{get, str}
use bisfin.Ingestion.Service.Start.{
  Start, start_batch, new_batch, with_provider, with_feed, started_or_replayed,
}
use bisfin.Ingestion.Batches.{
  IngestionBatch, get_by_request_id, is_running, create_batch_if_absent, check_row, IngestionError,
  IngestionBatchStartResult, BatchTable,
}
use bisfin.Ingestion.Service.Begun.{HasFreshId, IsFound, start_batch-IsStarted}
use bisfin.Base.Result.{Result, err, ok, ◌>>=◌, ok_injective, map_err}
use bisfin.Repositories.Catalog.{
  Provider, DataFeed, CatalogTables, get_provider_by_code, get_feed_by_code,
}
use bisfin.Base.{
  Option, ◌≡◌, false, some, inl, true, subst, ℕ, sym, inr, ap, ◌∙◌, ◌∷◌, [], refl, Bool,
}
use bisfin.Base.Texts.{Text, codes, same_text_refl}
use bisfin.Ingestion.Service.Ingest.{
  ingest, effective, run_or_replay, handled, run_started_batch, ingest_normalized, Ingested,
}
use bisfin.Ingestion.Service.{
  World, Store, Fetched, ServiceError, starting, DailyBarIngestionResult, Started,
  result_from_batch, repository, daily_bar_canonicalization_error, daily_bar_ingestion_error, batch,
  empty_symbol, Settings, not_started,
}

module _ (w : World) (symbol request : Text) (s : Store) where
  -- The insert meets the recorded row.
  recorded :
      (p : Provider) (f : DataFeed) (b : IngestionBatch)
      → get_by_request_id f.feed_id request s.batches.batches ≡ some b
      → create_batch_if_absent
          (w.current starting)
          (new_batch (w.now starting) p f symbol request)
          s.batches
        ≡ ok (record { batch = b; created = false }, s.batches)
  unfolding create_batch_if_absent check_row ◌+ℤ◌
  recorded p f b found = rw found refl

  -- A request whose batch is recorded and closed is a replay.
  start_batch-replay :
      (p : Provider) (f : DataFeed) (b : IngestionBatch)
      → IsFound w symbol request s (p, f)
      → get_by_request_id f.feed_id request s.batches.batches ≡ some b
      → get (codes "symbol") b.metadata ≡ some (str symbol)
      → is_running b.status ≡ false
      → start_batch w symbol request s ≡ ok (record { provider = p; feed = f; batch = b }, true, s)
  unfolding start_batch
  start_batch-replay p f b (found_p, found_f) found same closed =
      ap
        (λ (m : Result RepositoryError Provider).
          map_err not_started (map_err repository m) >>= λ (q : Provider).
          with_provider w symbol request s q)
        found_p
      ∙ ap
          (λ (m : Result RepositoryError DataFeed).
            map_err not_started (map_err repository m) >>= λ (q : DataFeed).
            with_feed w symbol request s p q)
          found_f
      ∙ ap
          (λ (m : Result IngestionError (IngestionBatchStartResult × BatchTable)).
            map_err not_started (map_err batch m)
            >>= λ (q : IngestionBatchStartResult × BatchTable).
                started_or_replayed w p f symbol s q)
          (recorded p f b found)
      ∙ rw (same, same_text_refl symbol, closed) refl

err_ne_ok :
    {A : Type 0} (e : ServiceError) (a : A) → ◌≡◌ {A = Result ServiceError A} (err e) (ok a) → ⊥
err_ne_ok e a h = cc

-- What a run that reports a new result has recorded.
module _ (w : World) (symbol request : Text) (s : Store) (s' : Store) (d : DailyBarIngestionResult)
    (fetched : Fetched) (fresh : HasFreshId s.batches) (new : d.idempotent_replay ≡ false) where
  abbrev IsRecorded : Type 0
  IsRecorded =
      (begun : Started) × (b : IngestionBatch) × IsFound w symbol request s
        (begun.provider, begun.feed)
      × (get_by_request_id begun.feed.feed_id request s'.batches.batches ≡ some b)
      × (get (codes "symbol") b.metadata ≡ some (str symbol))
      × (is_running b.status ≡ false)
      × (d ≡ result_from_batch b begun.provider.provider_code begun.feed.feed_code symbol false)
      × (s'.catalog ≡ s.catalog)

  handled-IsRecorded :
      (begun : Started) (run : Run)
      → IsFound w symbol request s (begun.provider, begun.feed)
      → begun.batch.feed_id ≡ begun.feed.feed_id
      → get (codes "symbol") begun.batch.metadata ≡ some (str symbol)
      → AfterRun w symbol begun (request, s.catalog) run
      → handled w symbol begun run ≡ (ok d, s')
      → IsRecorded
  handled-IsRecorded begun (ok e, t) found fed named (b, (only, held), from, closed, report) h = (
    begun,
    b,
    found,
    subst (λ (k : ℕ × Store). get_by_request_id k.0 request k.1.batches.batches ≡ some b)
        (λ i. ((from.feed ∙ fed) i, (h i).1)) only.under,
    from.symbol ∙ named,
    closed,
    sym (ok_injective (ap (λ (x : Ingested w). x.0) h)) ∙ report,
    ap (λ (x : Ingested w). x.1.catalog) (sym h) ∙ held,
  )
  handled-IsRecorded begun (err canonicalization, t) found fed named after h =
      absurd (err_ne_ok daily_bar_canonicalization_error d (ap (λ (x : Ingested w). x.0) h))
  handled-IsRecorded begun (err (exception e), t) found fed named after h =
      absurd (err_ne_ok daily_bar_ingestion_error d (ap (λ (x : Ingested w). x.0) h))

  replay_is_old :
      (begun : Started) (t : Store)
      → ◌≡◌ {A = Ingested w}
          (
            ok (
                result_from_batch begun.batch begun.provider.provider_code begun.feed.feed_code
                  symbol true),
            t,
          )
          (ok d, s')
      → ⊥
  unfolding result_from_batch
  replay_is_old begun t h =
      let same : ◌≡◌ {A = Bool} true d.idempotent_replay =
        ap (λ (x : DailyBarIngestionResult). x.idempotent_replay)
          (ok_injective (ap (λ (x : Ingested w). x.0) h)) in
      cc

  run_or_replay-IsRecorded :
      (o : Result ServiceError Start)
      → start_batch w symbol request s ≡ o
      → run_or_replay w symbol fetched s o ≡ (ok d, s')
      → IsRecorded
  run_or_replay-IsRecorded (err e) k h = absurd (err_ne_ok e d (ap (λ (x : Ingested w). x.0) h))
  run_or_replay-IsRecorded (ok (begun, replay, t)) k h =
      elim (start_batch-IsStarted w symbol request s fresh k) [
        | inl (again, same) ↦ absurd (replay_is_old begun t (rw again at h))
        | inr (first, opened, _, _, found, (fed, named)) ↦
            handled-IsRecorded begun (run_started_batch w symbol begun fetched t) found fed named
              (run_started_batch-AfterRun w symbol begun (request, s.catalog) fetched t opened)
              (rw first at h)
      ]

-- The replayed result differs in its flag alone.
as_replay :
    (b : IngestionBatch) (provider_code feed_code symbol : Text) (d : DailyBarIngestionResult)
    → d ≡ result_from_batch b provider_code feed_code symbol false
    → result_from_batch b provider_code feed_code symbol true
      ≡ record d { idempotent_replay = true }
unfolding result_from_batch
as_replay b provider_code feed_code symbol d h =
    ap (λ (x : DailyBarIngestionResult). record x { idempotent_replay = true }) (sym h)

again_normalized :
    (w w' : World) (symbol request : Text) (s s' : Store) (d : DailyBarIngestionResult)
    (fetched fetched' : Fetched)
    → HasFreshId s.batches
    → d.idempotent_replay ≡ false
    → w'.settings ≡ w.settings
    → ingest_normalized w symbol request fetched s ≡ (ok d, s')
    → ingest_normalized w' symbol request fetched' s'
      ≡ (ok (record d { idempotent_replay = true }), s')
again_normalized w w' [] request s s' d fetched fetched' fresh new settings h =
    absurd (err_ne_ok empty_symbol d (ap (λ (x : Ingested w). x.0) h))
again_normalized w w' (c ∷ cs) request s s' d fetched fetched' fresh new settings h =
    let (begun, b, (found_p, found_f), under, named, closed, report, held) =
      run_or_replay-IsRecorded w (c ∷ cs) request s s' d fetched fresh new
        (start_batch w (c ∷ cs) request s) refl h in
    let found =
      subst
        (λ (k : Settings × CatalogTables).
          (get_provider_by_code k.0.brsapi_provider_code k.1 ≡ ok begun.provider)
          × (get_feed_by_code begun.provider.provider_id k.0.brsapi_daily_raw_feed_code k.1
              ≡ ok begun.feed))
        (λ i. (sym settings i, sym held i)) (found_p, found_f) in
    ap (run_or_replay w' (c ∷ cs) fetched' s') (
      start_batch-replay w' (c ∷ cs) request s' begun.provider begun.feed b found under named
        closed)
    ∙ λ i.
        (ok (as_replay b begun.provider.provider_code begun.feed.feed_code (c ∷ cs) d report i), s')

-- After a run that reported a new result, the same request, under the same settings and libraries,
-- reports the same result as a replay and changes nothing, whatever the client would do.
pub ingest_again :
    (w w' : World) (symbol : Text) (request : Option Text) (generated : Text)
    (fetched fetched' : Fetched) (s s' : Store) (d : DailyBarIngestionResult)
    → HasFreshId s.batches
    → d.idempotent_replay ≡ false
    → w'.settings ≡ w.settings
    → w'.libraries ≡ w.libraries
    → ingest w symbol request generated fetched s ≡ (ok d, s')
    → ingest w' symbol request generated fetched' s'
      ≡ (ok (record d { idempotent_replay = true }), s')
unfolding ingest
ingest_again w w' symbol request generated fetched fetched' s s' d fresh new settings libraries h =
    ap
      (λ (l : Libraries).
        ingest_normalized w' (normalize_brsapi_symbol l symbol) (effective request generated)
          fetched' s')
      libraries
    ∙ again_normalized w w' (normalize_brsapi_symbol w.libraries symbol)
        (effective request generated) s s' d fetched fetched' fresh new settings h
