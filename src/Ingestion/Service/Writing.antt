-- ===== src/Ingestion/Service/Writing.antt =====
-- The second loop of `_canonicalize` of ingestion/service.py: the bars of the resolved rows.
use bisfin.Base.Int.{pos}
use bisfin.Repositories.Bars.Revisions.{append_revision_if_changed}
use bisfin.Ingestion.Service.Screening.{ResolvedRow, diagnostics_of}
use bisfin.Brsapi.Contracts.{ParsedDailyBarCandidate}
use bisfin.Repositories.{Referenced}
use bisfin.Base.Texts.{codes}
use bisfin.Base.Result.{Result, ◌>>=◌, ok, err, map_err}
use bisfin.Ingestion.DailyBars.{canonicalization_issue, system_availability_before_public}
use bisfin.Base.{Option, ℕ, ◌+◌, List, none, ◌∷◌, some, suc, if◌then◌else◌, true, ◌++◌, ltb, []}
use bisfin.Ingestion.Service.{
  World, Started, Tally, Fault, assertion_error, writing, repository, canonicalizing,
}
use bisfin.Repositories.Catalog.{Provider}
use bisfin.Repositories.Bars.{
  BarRevisionWriteStatus, BarTables, get_or_create_daily_raw_series, BarRevisionCandidate,
}
use bisfin.Brsapi.Json.{JsonObject, member, str, int, empty_object}
use bisfin.Repositories.RawEvents.{
  RawEventTable, update_validation_result, rejected, RawEventValidationStatus,
}

abbrev pub series_metadata : Provider → JsonObject
series_metadata p =
    member (codes "provider_code") (str p.provider_code)
      (member (codes "request_type") (int (pos 2)) empty_object)

abbrev before_public : JsonObject
before_public =
    canonicalization_issue system_availability_before_public (codes "system_available_at")
      (codes "System availability cannot precede response receipt.")

-- The events, the bars and the counters.
pub record Writing : Type 0 where
  pub events : RawEventTable
  pub bars : BarTables
  pub tally : Tally

-- `inserted_count`, `corrected_count` or `unchanged_count`.
abbrev counted : BarRevisionWriteStatus → Tally → Tally
counted BarRevisionWriteStatus.inserted y = record y { inserted = y.inserted + 1 }
counted BarRevisionWriteStatus.corrected y = record y { corrected = y.corrected + 1 }
counted BarRevisionWriteStatus.unchanged y = record y { unchanged = y.unchanged + 1 }

abbrev pub required : Option ℕ → Result Fault ℕ
required none = err assertion_error
required (some ts) = ok ts

module _ (w : World) (begun : Started) (timeframe received : ℕ) (refs : Referenced) where
  abbrev pub candidate_of : ℕ → ℕ → ℕ → ℕ → ParsedDailyBarCandidate → BarRevisionCandidate
  candidate_of opened closed system series c = record {
    bar_open_ts = opened;
    bar_series_id = series;
    available_at = received;
    system_available_at = system;
    bar_close_ts = closed;
    trading_date = c.trading_date;
    open_price = c.open_price;
    high_price = c.high;
    low_price = c.low;
    close_price = c.close;
    official_close_price = none;
    settlement_price = none;
    volume = some c.volume;
    quote_volume = none;
    trade_count = none;
    vwap = none;
    open_interest = none;
    is_final = true;
    quality_flags = pos 0;
    ingestion_batch_id = begun.batch.ingestion_batch_id;
    previous_close_price = none;
  }

  abbrev pub reject_row : ResolvedRow → Writing → Result Fault Writing
  reject_row item s = do
    updated ← map_err repository (
        update_validation_result item.raw_event.identity rejected
          (diagnostics_of item.row ++ before_public ∷ []) s.events)
    ok (record s { events = updated.1; tally = record s.tally { rejected = s.tally.rejected + 1 } })

  abbrev pub accept_row :
      ResolvedRow → BarRevisionWriteStatus → BarTables → Writing → Result Fault Writing
  accept_row item status bars s = do
    updated ← map_err repository (
        update_validation_result item.raw_event.identity RawEventValidationStatus.accepted
          (diagnostics_of item.row) s.events)
    let y = counted status s.tally
    ok (record { events = updated.1; bars = bars; tally = record y { accepted = y.accepted + 1 } })

  abbrev pub write_bar : ResolvedRow → ℕ → ℕ → ℕ → Writing → Result Fault Writing
  write_bar item system opened closed s = do
    series ← map_err repository (
        get_or_create_daily_raw_series (w.current canonicalizing) refs begun.feed.feed_id
          item.resolution.instrument.instrument_id timeframe (some (series_metadata begun.provider))
          s.bars)
    written ← map_err repository (
        append_revision_if_changed w.numeric (w.current canonicalizing) refs
          (candidate_of opened closed system series.0.bar_series_id item.candidate) series.1)
    accept_row item written.0.status written.1 s

  abbrev pub write_or_reject : ResolvedRow → ℕ → ℕ → ℕ → Writing → Result Fault Writing
  write_or_reject item system opened closed s =
      if ltb system received then reject_row item s else write_bar item system opened closed s

  -- One row; the clock is read for it.
  unfoldable pub write_row : ResolvedRow → ℕ → Writing → Result Fault Writing
  unfolding get_or_create_daily_raw_series append_revision_if_changed update_validation_result
      diagnostics_of canonicalization_issue
  write_row item system s = do
    opened ← required item.resolution.trading_session.session_open_ts
    closed ← required item.resolution.trading_session.session_close_ts
    write_or_reject item system opened closed s

  -- The loop from the row of an index on.
  unfoldable pub write_rows : ℕ → List ResolvedRow → Writing → Result Fault Writing
  unfolding write_row
  write_rows i [] s = ok s
  write_rows i (item ∷ items) s = do
    s' ← write_row item (w.now (writing i)) s
    write_rows (suc i) items s'
