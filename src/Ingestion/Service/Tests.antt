-- ===== src/Ingestion/Service/Tests.antt =====
-- An import of two rows and one that the client refuses, and the theorems at them.
use bisfin.Brsapi.Json.{empty_object}
use bisfin.Ingestion.Service.Replay.{ingest_again}
use bisfin.Base.Result.{ok}
use bisfin.Ingestion.Service.Begun.{HasFreshId}
use bisfin.Base.Int.{◌+ℤ◌, pos}
use bisfin.Ingestion.Batches.{IngestionBatch, failed, check_row, get_by_request_id, has_feed}
use bisfin.Base.Texts.{codes, same_text}
use bisfin.Base.{ℕ, some, ◌*◌, [], none, map, ◌∷◌, false, true, ◌+◌, ◌≡◌, arith, refl, keep}
use bisfin.Repositories.Catalog.{CatalogTables}
use bisfin.Brsapi.Normalization.{Libraries, normalize_brsapi_symbol, is_space}
use bisfin.Ingestion.Service.Ingest.{ingest, effective}
use bisfin.Ingestion.Service.Closed.{IsClosed, ingest-IsClosed}
use bisfin.Ingestion.Service.{
  World, Store, other_error, database, DailyBarIngestionResult, Fetched, api_error, client,
}

abbrev libraries : Libraries
libraries = record {
  nfkc = λ t. t;
  decimal_digit = λ c. none;
  is_other_digit = λ c. false;
  to_gregorian = λ y m d. none;
  parse_decimal = λ t. none;
  payload_sha256 = λ o. codes "a";
}

abbrev pub world : World
world = record {
  libraries = libraries;
  numeric = λ d. some d;
  redact = λ t. t;
  describe = λ e. codes "down";
  now = λ step. 63763200000000200;
  current = λ step. 9;
  faults = λ step. false;
  settings = record {
    brsapi_provider_code = codes "BRSAPI";
    brsapi_daily_raw_feed_code = codes "DAILY";
    brsapi_identifier_type = codes "SYMBOL";
  };
}

abbrev pub opened : ℕ
opened = 738000 * 86400000000

abbrev catalog : CatalogTables
catalog = record {
  providers = record { provider_id = 1; provider_code = codes "BRSAPI" } ∷ [];
  feeds = record { feed_id = 3; provider_id = 1; feed_code = codes "DAILY" } ∷ [];
  timeframes =
      record {
        timeframe_id = 1;
        timeframe_code = codes "1d";
        calendar_unit = codes "SESSION";
        session_aligned = true;
      }
      ∷ [];
  sessions =
      record {
        venue_id = 2;
        trading_date = 738000;
        session_code = codes "REGULAR";
        is_trading_day = true;
        session_open_ts = some opened;
        session_close_ts = some (opened + 10);
        settlement_date = none;
        metadata = empty_object;
      }
      ∷ [];
  instruments =
      record {
        instrument_id = 4;
        asset_type_code = codes "EQUITY";
        venue_id = some 2;
        quote_currency_code = codes "IRR";
        canonical_symbol = codes "ABC";
        status = codes "ACTIVE";
      }
      ∷ [];
  identifiers =
      record {
        provider_id = 1;
        identifier_type = codes "SYMBOL";
        identifier_value = codes "abc";
        valid_from = none;
        valid_to = none;
        instrument_id = 4;
        is_primary = true;
      }
      ∷ [];
  specifications = [];
}

abbrev pub store : Store
store = record {
  catalog = catalog;
  batches = record { batches = []; next_id = 1; feeds = 3 ∷ [] };
  raw_events = record { events = []; next_raw_event_id = 1; months = [] };
  bars = record {
    timeframes = catalog.timeframes;
    series = [];
    next_series_id = 5;
    months = [];
    revisions = [];
  };
}

ingest-IsClosed_example :
    IsClosed world
      (normalize_brsapi_symbol libraries (codes " abc "))
      (effective none (codes "r1"))
      store
      (ingest world (codes " abc ") none (codes "r1") (other_error database) store).1
unfolding keep
ingest-IsClosed_example =
    ingest-IsClosed world (codes " abc ") none (codes "r1") (other_error database) store refl refl
      (omega arith)

-- The batch of the unexpected failure is there, closed as failed.
failed_batch :
    map
      (λ (b : IngestionBatch). b.status)
      (ingest world
        (codes " abc ")
        none
        (codes "r1")
        (other_error database)
        store).1.batches.batches
    ≡ failed ∷ []
unfolding ingest is_space same_text check_row ◌+ℤ◌ get_by_request_id has_feed
failed_batch = refl

abbrev refused : Fetched
refused = api_error (client (codes "timeout"))

-- What the run reports when the provider does not answer.
abbrev transport_failure : DailyBarIngestionResult
transport_failure = record {
  ingestion_batch_id = 1;
  status = failed;
  provider_code = codes "BRSAPI";
  feed_code = codes "DAILY";
  symbol = codes "abc";
  received_count = pos 0;
  accepted_count = pos 0;
  rejected_count = pos 0;
  raw_inserted_count = pos 0;
  bar_inserted_count = pos 0;
  bar_corrected_count = pos 0;
  bar_unchanged_count = pos 0;
  source_watermark = none;
  payload_sha256 = none;
  started_at = 63763200000000200;
  finished_at = some 63763200000000200;
  idempotent_replay = false;
}

refused_run : ingest world (codes " abc ") (some (codes "r1")) (codes "g") refused store ≡ (
  ok transport_failure,
  (ingest world (codes " abc ") (some (codes "r1")) (codes "g") refused store).1,
)
unfolding ingest is_space same_text check_row ◌+ℤ◌ get_by_request_id has_feed
refused_run = refl

fresh_store : HasFreshId store.batches
unfolding keep
fresh_store = refl

ingest_again_example :
    ingest world
      (codes " abc ")
      (some (codes "r1"))
      (codes "g")
      (other_error database)
      (ingest world (codes " abc ") (some (codes "r1")) (codes "g") refused store).1
    ≡ (
      ok (record transport_failure { idempotent_replay = true }),
      (ingest world (codes " abc ") (some (codes "r1")) (codes "g") refused store).1,
    )
ingest_again_example =
    ingest_again world world (codes " abc ") (some (codes "r1")) (codes "g") refused
      (other_error database) store
      (ingest world (codes " abc ") (some (codes "r1")) (codes "g") refused store).1
      transport_failure fresh_store refl refl refl refused_run
