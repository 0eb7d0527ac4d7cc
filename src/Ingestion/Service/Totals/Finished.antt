-- ===== src/Ingestion/Service/Totals/Finished.antt =====
-- The second loop of `_canonicalize` of ingestion/service.py and the store it leaves to the closing
-- of the batch.
use bisfin.Ingestion.Service.Counts.{screen_rows-IsCounted, write_rows-IsSettled}
use bisfin.Repositories.Catalog.{
  Provider, DataFeed, get_timeframe_by_code, get_feed_by_code, get_provider_by_code,
}
use bisfin.Repositories.Bars.{ensure_month_partitions, Timeframe}
use bisfin.Ingestion.Service.Screening.{Screening, ResolvedRow, screen_rows}
use bisfin.Ingestion.Service.Writing.{Writing, write_rows}
use bisfin.Base.Result.{ok, >>=-inv, raise_if-inv, ◌>>=◌, map_err}
use bisfin.Repositories.RawEvents.{RawEvent}
use bisfin.Brsapi.Contracts.{RowValidationResult}
use bisfin.Base.Texts.{codes, Text}
use bisfin.Base.{ℕ, List, ◌+◌, length, ◌≡◌, ◌≤◌, ◌∷◌, arith, [], refl, map, not}
use bisfin.Ingestion.Service.{
  Tally, DailyBarIngestionResult, World, Started, Store, no_rows, referenced, repository,
  runtime_error,
}
use bisfin.Ingestion.Service.Canonicalize.{
  zip_events, Acquired, validate_and_write, finish, work, ResultOf, canonicalize_rows, same_feed,
}

length-zip_events :
    (rows : List RowValidationResult) (es : List RawEvent)
    → length es ≡ length rows
    → length (zip_events rows es) ≡ length rows
unfolding zip_events
length-zip_events [] es h = refl
length-zip_events (row ∷ rows) [] h = absurd (omega arith)
length-zip_events (row ∷ rows) (e ∷ es) h = ground (arith, length-zip_events rows es)

module _ (w : World) (symbol : Text) (begun : Started) (a : Acquired)
    (paired : length a.raw_events ≡ length a.rows) where
  abbrev pub IsComplete : Tally → Type 0
  IsComplete y =
      (y.accepted + y.rejected ≡ length a.rows)
      × (y.inserted + y.corrected + y.unchanged ≤ y.accepted)

  validate_and_write-IsComplete :
      (timeframe : ℕ) (s : Store) (x : Writing)
      → validate_and_write w symbol begun a timeframe s ≡ ok x
      → IsComplete x.tally
  unfolding validate_and_write
  validate_and_write-IsComplete timeframe s x h =
      let rows = zip_events a.rows a.raw_events in
      let first : Screening = record { events = s.raw_events; tally = no_rows; resolved = [] } in
      let (screening, h1, h2) =
        >>=-inv
          (screen_rows w begun.provider.provider_id a.response.response_received_at s.catalog rows
            first)
          (λ (y : Screening).
            write_rows w begun timeframe a.response.response_received_at (referenced s) 0 y.resolved
              (writing_of y))
          h in
      let (c, d) =
        screen_rows-IsCounted w begun.provider.provider_id a.response.response_received_at s.catalog
          rows first screening h1 in
      let (e, f) =
        write_rows-IsSettled w begun timeframe a.response.response_received_at (referenced s) 0
          screening.resolved (writing_of screening) x h2 in
      let n = length-zip_events a.rows a.raw_events paired in (omega arith, omega arith)
    where
      writing_of : Screening → Writing
      writing_of y = record {
        events = y.events;
        bars =
            ensure_month_partitions
              (map (λ (item : ResolvedRow). item.candidate.trading_date) y.resolved) s.bars;
        tally = y.tally;
      }

  -- The second loop's state, from which the batch was finished.
  abbrev pub IsFinished : Store → DailyBarIngestionResult × Store → Type 0
  IsFinished s r = (x : Writing) × IsComplete x.tally × (finish w symbol begun a s x ≡ ok r)

  canonicalize_rows-IsFinished :
      (p : Provider) (f : DataFeed) (t : Timeframe) (s : Store)
      {r : DailyBarIngestionResult × Store}
      → canonicalize_rows w symbol begun a p f t s ≡ ok r
      → IsFinished s r
  canonicalize_rows-IsFinished p f t s h =
      let written = validate_and_write w symbol begun a t.timeframe_id s in
      let (_, h1) =
        raise_if-inv (not (same_feed w symbol begun a p f)) runtime_error
          (written >>= λ x. finish w symbol begun a s x) h in
      let (x, h2, h3) = >>=-inv written (λ (x : Writing). finish w symbol begun a s x) h1 in
      (x, validate_and_write-IsComplete t.timeframe_id s x h2, h3)

  pub work-IsFinished :
      (s : Store) {r : DailyBarIngestionResult × Store}
      → work w symbol begun a s ≡ ok r
      → IsFinished s r
  work-IsFinished s h =
      let (p, _, h1) =
        >>=-inv
          (map_err repository (get_provider_by_code w.settings.brsapi_provider_code s.catalog))
          (λ (p : Provider). with_feed p) h in
      let (f, _, h2) =
        >>=-inv
          (map_err repository
            (get_feed_by_code p.provider_id w.settings.brsapi_daily_raw_feed_code s.catalog))
          (λ (f : DataFeed). with_timeframe p f) h1 in
      let (t, _, h3) =
        >>=-inv (map_err repository (get_timeframe_by_code (codes "1d") s.catalog))
          (λ (t : Timeframe). canonicalize_rows w symbol begun a p f t s) h2 in
      canonicalize_rows-IsFinished p f t s h3
    where
      with_timeframe : Provider → DataFeed → ResultOf
      with_timeframe p f =
          map_err repository (get_timeframe_by_code (codes "1d") s.catalog) >>= λ (t : Timeframe).
          canonicalize_rows w symbol begun a p f t s

      with_feed : Provider → ResultOf
      with_feed p =
          map_err repository
            (get_feed_by_code p.provider_id w.settings.brsapi_daily_raw_feed_code s.catalog)
          >>= λ (f : DataFeed).
              map_err repository (get_timeframe_by_code (codes "1d") s.catalog)
              >>= λ (t : Timeframe). canonicalize_rows w symbol begun a p f t s
