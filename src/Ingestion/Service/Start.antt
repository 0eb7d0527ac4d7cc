-- ===== src/Ingestion/Service/Start.antt =====
-- `_start_batch` of ingestion/service.py.
use bisfin.Base.Int.{pos}
use bisfin.Ingestion.Batches.{
  NewBatch, create_batch_if_absent, IngestionBatchStartResult, BatchTable, is_running,
}
use bisfin.Brsapi.Json.{
  JsonObject, JsonValue, member, get, str, int, bool, empty_object, decimal, array, object, null,
}
use bisfin.Base.Texts.{Text, codes, same_text}
use bisfin.Base.{ℕ, Bool, Option, some, false, none, if◌then◌else◌, not, true}
use bisfin.Repositories.Catalog.{Provider, get_provider_by_code, DataFeed, get_feed_by_code}
use bisfin.Base.Result.{Result, ok, err, ◌>>=◌, map_err}
use bisfin.Ingestion.Service.{
  World, Started, Store, ServiceError, not_started, repository, batch, starting, database,
  request_id_conflict,
}

abbrev pub parser_version : Text
parser_version = codes "brsapi-candlestick-type2-v1"

abbrev pub start_metadata : Provider → DataFeed → Text → JsonObject
start_metadata p f symbol = member (codes "provider_code") (str p.provider_code) (
    member (codes "feed_code") (str f.feed_code) (
      member (codes "symbol") (str symbol) (
        member (codes "request_type") (int (pos 2))
          (member (codes "endpoint") (str (codes "Tsetmc/Candlestick.php")) empty_object))))

abbrev pub new_batch : ℕ → Provider → DataFeed → Text → Text → NewBatch
new_batch started p f symbol request = record {
  feed_id = f.feed_id;
  parser_version = parser_version;
  request_id = some request;
  requested_event_from = none;
  requested_event_to = none;
  source_watermark = none;
  metadata = some (start_metadata p f symbol);
  started_at = some started;
}

-- `batch.metadata.get("symbol") != symbol`.
abbrev pub is_symbol : Text → Option JsonValue → Bool
is_symbol symbol none = false
is_symbol symbol (some (str t)) = same_text t symbol
is_symbol symbol (some null) = false
is_symbol symbol (some (bool b)) = false
is_symbol symbol (some (int n)) = false
is_symbol symbol (some (decimal d)) = false
is_symbol symbol (some (array a)) = false
is_symbol symbol (some (object o)) = false

-- The started batch, whether it is the replay of a closed one, and the tables.
abbrev pub Start : Type 0
Start = Started × Bool × Store

module _ (w : World) where
  abbrev pub started_or_replayed :
      Provider
      → DataFeed
      → Text
      → Store
      → IngestionBatchStartResult × BatchTable
      → Result ServiceError Start
  started_or_replayed p f symbol s (r, t) =
      let begun : Started = record { provider = p; feed = f; batch = r.batch } in
      if r.created
      then (if w.faults starting
          then err (not_started database)
          else ok (begun, false, record s { batches = t }))
      else if not (is_symbol symbol (get (codes "symbol") r.batch.metadata))
      then err request_id_conflict
      else if is_running r.batch.status
      then err request_id_conflict
      else ok (begun, true, s)

  -- The steps once the feed, and once the provider, is read.
  abbrev pub with_feed : Text → Text → Store → Provider → DataFeed → Result ServiceError Start
  with_feed symbol request s p f = do
    r ← map_err not_started (
        map_err batch (
          create_batch_if_absent (w.current starting)
            (new_batch (w.now starting) p f symbol request) s.batches))
    started_or_replayed p f symbol s r

  abbrev pub with_provider : Text → Text → Store → Provider → Result ServiceError Start
  with_provider symbol request s p = do
    f ← map_err not_started (
        map_err repository
          (get_feed_by_code p.provider_id w.settings.brsapi_daily_raw_feed_code s.catalog))
    with_feed symbol request s p f

  unfoldable pub start_batch : Text → Text → Store → Result ServiceError Start
  unfolding get_provider_by_code get_feed_by_code create_batch_if_absent get
  start_batch symbol request s = do
    p ←
        map_err not_started
          (map_err repository (get_provider_by_code w.settings.brsapi_provider_code s.catalog))
    with_provider symbol request s p
