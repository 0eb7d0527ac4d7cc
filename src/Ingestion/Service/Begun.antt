-- ===== src/Ingestion/Service/Begun.antt =====
-- What `_start_batch` of ingestion/service.py leaves in the tables.
use bisfin.Brsapi.Json.{get, str}
use bisfin.Ingestion.Transitions.Single.{IsOnly, IsFrom, IsFresh}
use bisfin.Ingestion.Transitions.Rows.{rows_of}
use bisfin.Ingestion.Transitions.Created.{
  grown, IsStart, create_batch_if_absent-IsStart, grown-IsOnly,
}
use bisfin.Ingestion.Service.Followed.{IsOpened}
use bisfin.Repositories.Catalog.{Provider, DataFeed, get_feed_by_code, get_provider_by_code}
use bisfin.Base.{◌≡◌, true, false, [], ◌⊎◌, none, inl, inr, Bool-cases, subst, refl, some}
use bisfin.Ingestion.Service.Start.{
  Start, start_batch, new_batch, started_or_replayed, is_symbol, start_metadata, with_provider,
  with_feed,
}
use bisfin.Base.Texts.{Text, codes, same_text}
use bisfin.Ingestion.Batches.{
  BatchTable, IngestionBatchStartResult, create_batch_if_absent, row_of, IngestionBatch, is_running,
}
use bisfin.Ingestion.Service.{World, Store, starting, batch, repository, not_started}
use bisfin.Base.Result.{ok, >>=-inv, ok_injective, map_err, map_err-inv}

named :
    (p : Provider) (f : DataFeed) (symbol : Text)
    → get (codes "symbol") (start_metadata p f symbol) ≡ some (str symbol)
unfolding get same_text
named p f symbol = refl

-- No row has the identity that the table gives next.
abbrev pub HasFreshId : BatchTable → Type 0
HasFreshId t = rows_of t.next_id t.batches ≡ []

module _ (w : World) (symbol request : Text) (s : Store) where
  -- The provider and the feed of the settings.
  abbrev pub IsFound : Provider × DataFeed → Type 0
  IsFound (p, f) =
      (get_provider_by_code w.settings.brsapi_provider_code s.catalog ≡ ok p)
      × (get_feed_by_code p.provider_id w.settings.brsapi_daily_raw_feed_code s.catalog ≡ ok f)

  -- A new batch is open, with the instant and the symbol of the start; a replay changes nothing.
  abbrev IsStarted : Start → Type 0
  IsStarted (begun, replay, s') =
      ((replay ≡ true) × (s' ≡ s))
      ⊎ ((replay ≡ false)
          × IsOpened w symbol begun (request, s.catalog) s'
          × (begun.batch.ingestion_batch_id ≡ s.batches.next_id)
          × ((begun.batch.started_at ≡ w.now starting)
              × (begun.batch.requested_event_from ≡ none)
              × (begun.batch.requested_event_to ≡ none))
          × IsFound (begun.provider, begun.feed)
          × ((begun.batch.feed_id ≡ begun.feed.feed_id)
              × (get (codes "symbol") begun.batch.metadata ≡ some (str symbol))))

  -- A start that found a batch.
  replayed-IsStarted :
      (p : Provider) (f : DataFeed) (q : IngestionBatchStartResult × BatchTable) {x : Start}
      → q.0.created ≡ false
      → started_or_replayed w p f symbol s q ≡ ok x
      → IsStarted x
  replayed-IsStarted p f q old h =
      elim (Bool-cases (is_symbol symbol (get (codes "symbol") q.0.batch.metadata))) [
        | inr other ↦ absurd (cc (rw (old, other) at h))
        | inl same ↦ elim (Bool-cases (is_running q.0.batch.status)) [
          | inl busy ↦ absurd (cc (rw (old, same, busy) at h))
          | inr closed ↦
              subst IsStarted (ok_injective (rw (old, same, closed) at h)) (inl (refl, refl))
        ]
      ]

  -- A start that created a batch.
  created-IsStarted :
      (p : Provider) (f : DataFeed) {x : Start}
      → IsFound (p, f)
      → IsOnly request
          (row_of
            (w.current starting)
            s.batches.next_id
            (new_batch (w.now starting) p f symbol request))
          (grown (w.current starting) (new_batch (w.now starting) p f symbol request) s.batches)
      → started_or_replayed w p f symbol s (
        record {
          batch =
              row_of
                (w.current starting)
                s.batches.next_id
                (new_batch (w.now starting) p f symbol request);
          created = true;
        },
        grown (w.current starting) (new_batch (w.now starting) p f symbol request) s.batches,
      )
        ≡ ok x
      → IsStarted x
  created-IsStarted p f found only h = elim (Bool-cases (w.faults starting)) [
    | inl failing ↦ absurd (cc (rw failing at h))
    | inr working ↦ subst IsStarted (ok_injective (rw working at h)) (
        inr (
          refl,
          (
            row_of (w.current starting) s.batches.next_id
                (new_batch (w.now starting) p f symbol request),
            (only, refl),
            from,
            fresh,
          ),
          refl,
          (refl, refl, refl),
          found,
          (refl, named p f symbol),
        ))
  ]
    where
      row : IngestionBatch
      row =
          row_of (w.current starting) s.batches.next_id
            (new_batch (w.now starting) p f symbol request)

      from : IsFrom row row
      from = record {
        identity = refl;
        feed = refl;
        request = refl;
        started = refl;
        event_from = refl;
        event_to = refl;
        symbol = refl;
      }

      fresh : IsFresh row
      fresh = record { open_status = refl; received = refl; accepted = refl; rejected = refl }

  started_or_replayed-IsStarted :
      (p : Provider) (f : DataFeed) (q : IngestionBatchStartResult × BatchTable) {x : Start}
      → IsFound (p, f)
      → HasFreshId s.batches
      → IsStart (w.current starting) (new_batch (w.now starting) p f symbol request) s.batches q
      → started_or_replayed w p f symbol s q ≡ ok x
      → IsStarted x
  started_or_replayed-IsStarted p f q found fresh (inl (old, same)) h =
      replayed-IsStarted p f q old h
  started_or_replayed-IsStarted p f q {x} found fresh (inr (new, table, absent)) h =
      created-IsStarted p f found
        (grown-IsOnly (w.current starting) (new_batch (w.now starting) p f symbol request) s.batches
          request refl fresh absent)
        (subst
          (λ (z : IngestionBatchStartResult × BatchTable).
            started_or_replayed w p f symbol s z ≡ ok x)
          (λ i. (new i, table i)) h)

  pub start_batch-IsStarted :
      {x : Start} → HasFreshId s.batches → start_batch w symbol request s ≡ ok x → IsStarted x
  unfolding start_batch
  start_batch-IsStarted fresh h =
      let (p, k1, h1) =
        >>=-inv
          (map_err not_started
            (map_err repository (get_provider_by_code w.settings.brsapi_provider_code s.catalog)))
          (λ (p : Provider). with_provider w symbol request s p) h in
      let (f, k2, h2) =
        >>=-inv
          (map_err not_started (
            map_err repository
              (get_feed_by_code p.provider_id w.settings.brsapi_daily_raw_feed_code s.catalog)))
          (λ (f : DataFeed). with_feed w symbol request s p f) h1 in
      let creating =
        create_batch_if_absent (w.current starting) (new_batch (w.now starting) p f symbol request)
          s.batches in
      let (q, h3, h4) =
        >>=-inv (map_err not_started (map_err batch creating))
          (λ (q : IngestionBatchStartResult × BatchTable). started_or_replayed w p f symbol s q)
          h2 in
      started_or_replayed-IsStarted p f q
        (
          map_err-inv repository (get_provider_by_code w.settings.brsapi_provider_code s.catalog) (
              map_err-inv not_started
                (map_err repository
                  (get_provider_by_code w.settings.brsapi_provider_code s.catalog))
                k1),
          map_err-inv repository
              (get_feed_by_code p.provider_id w.settings.brsapi_daily_raw_feed_code s.catalog)
              (map_err-inv not_started
                (map_err repository
                  (get_feed_by_code p.provider_id w.settings.brsapi_daily_raw_feed_code s.catalog))
                k2),
        )
        fresh
        (create_batch_if_absent-IsStart (w.current starting)
          (new_batch (w.now starting) p f symbol request) s.batches
          (map_err-inv batch creating (map_err-inv not_started (map_err batch creating) h3)))
        h4
