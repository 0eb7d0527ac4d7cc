-- ===== src/Calendar/Import/Write.antt =====
-- Transaction C of `import_calendar`, its failure, and the whole method.
use bisfin.Brsapi.Json.{member, str, empty_object}
use bisfin.Base.Int.{pos}
use bisfin.Base.Texts.{Text, same_text, codes}
use bisfin.Ingestion.Transitions.{Finalization, finalize_batch, merge}
use bisfin.Brsapi.Normalization.{strip}
use bisfin.Ingestion.Batches.{
  IngestionBatch, create_batch_if_absent, BatchTable, IngestionBatchStartResult, failed, succeeded,
  is_running,
}
use bisfin.Repositories.Catalog.{TradingSession}
use bisfin.Calendar.Manifest.{ValidatedCalendarSession}
use bisfin.Ingestion.Watermark.{isoformat}
use bisfin.Calendar.Import.{
  CalendarWorld, CalendarFault, CalendarValidationResult, get_venue_by_code, conflict,
  get_feed_by_codes, refused, CalendarStore, CalendarImportResult, batch, starting, repository,
  database, writing, catalog_conflict, failing, replay_result, calendar_metadata, calendar_feed,
  calendar_batch,
}
use bisfin.Base.{ℕ, Bool, List, ◌∷◌, Option, if◌then◌else◌, ◌+◌, length, [], not, some, false, none}
use bisfin.Calendar.Import.Audit.{audit_sessions}
use bisfin.Repositories.TradingCalendar.{
  ensure_session, SessionError, calendar_conflict, session_refused, CalendarSessionWriteResult,
}
use bisfin.Base.Result.{Result, ok, err, raise_if, ◌>>=◌, ◌>>◌, map_err, commit}
use bisfin.Ingestion.Service.Ingest.{effective}

-- The counters of the method.
pub record Written : Type 0 where
  pub inserted_open : ℕ
  pub inserted_closed : ℕ
  pub unchanged : ℕ
  pub sessions : List TradingSession

abbrev pub session_fault : SessionError → CalendarFault
session_fault calendar_conflict = conflict
session_fault session_refused = refused

abbrev pub counted : Bool → CalendarSessionWriteResult → List TradingSession → Written → Written
counted trading r ss y =
    if r.created
    then if trading
      then record y { inserted_open = y.inserted_open + 1; sessions = ss }
      else record y { inserted_closed = y.inserted_closed + 1; sessions = ss }
    else record y { unchanged = y.unchanged + 1; sessions = ss }

abbrev pub with_batches : CalendarStore → BatchTable → CalendarStore
with_batches s t = record s { store = record s.store { batches = t } }

abbrev pub with_sessions : CalendarStore → Written → BatchTable → CalendarStore
with_sessions s y t = record s {
  store = record s.store {
    catalog = record s.store.catalog { sessions = y.sessions };
    batches = t;
  };
}

abbrev pub no_counts : CalendarStore → Written
no_counts s = record {
  inserted_open = 0;
  inserted_closed = 0;
  unchanged = 0;
  sessions = s.store.catalog.sessions;
}

abbrev pub Imported : Type 0
Imported = Result CalendarFault CalendarImportResult × CalendarStore

module _ (w : CalendarWorld) where
  unfoldable pub ensure_sessions :
      ℕ → List ValidatedCalendarSession → Written → Result CalendarFault Written
  unfolding ensure_session
  ensure_sessions venue [] y = ok y
  ensure_sessions venue (c ∷ cs) y = do
    outcome ← map_err session_fault (ensure_session w.same_metadata venue c y.sessions)
    ensure_sessions venue cs (counted c.is_trading_day outcome.0 outcome.1 y)

  module _ (v : CalendarValidationResult) (b : IngestionBatch) where
    abbrev pub success : Finalization
    success = record {
      status = succeeded;
      received_row_count = pos (length v.sessions);
      accepted_row_count = pos (length v.sessions);
      rejected_row_count = pos 0;
      payload_sha256 = some v.payload_sha256;
      source_watermark = none;
      error_summary = none;
      metadata = some (calendar_metadata v.manifest);
      finished_at = some (w.now writing);
    }

    abbrev pub failure : Finalization
    failure = record {
      status = failed;
      received_row_count = pos (length v.sessions);
      accepted_row_count = pos 0;
      rejected_row_count = pos (length v.sessions);
      payload_sha256 = none;
      source_watermark = none;
      error_summary = some w.conflict_text;
      metadata = some (
          merge (calendar_metadata v.manifest)
            (member (codes "failure_code") (str (codes "CALENDAR_CONFLICT")) empty_object));
      finished_at = some (w.now failing);
    }

    abbrev pub finish_writing :
        CalendarStore → Written → Result CalendarFault (Written × CalendarStore)
    finish_writing s y = do
      finished ←
          map_err batch (
            finalize_batch w.redact (w.current writing) b.ingestion_batch_id success
              s.store.batches)
      ok (y, with_sessions s y finished.1)

    -- Transaction C.
    unfoldable pub write_sessions : CalendarStore → Result CalendarFault (Written × CalendarStore)
    unfolding get_venue_by_code ensure_sessions finalize_batch merge
    write_sessions s = commit (w.faults writing) database do
      venue ← get_venue_by_code v.manifest.venue_code s.venues
      y ← ensure_sessions venue.venue_id v.sessions (no_counts s)
      finish_writing s y

    abbrev pub failed_as :
        CalendarStore → Result CalendarFault (IngestionBatch × BatchTable) → Imported
    failed_as s (err e) = (err e, s)
    failed_as s (ok (b', t)) = (err conflict, with_batches s t)

    -- The batch is failed in a transaction of its own, and the conflict raised again.
    unfoldable pub fail_batch : CalendarStore → Imported
    unfolding finalize_batch merge
    fail_batch s = failed_as s (
        commit (w.faults failing) database (
          map_err batch (
            finalize_batch w.redact (w.current failing) b.ingestion_batch_id failure
              s.store.batches)))

    abbrev pub imported : Written → CalendarImportResult
    imported y = record {
      batch_id = b.ingestion_batch_id;
      calendar_id = v.manifest.calendar_id;
      venue_code = v.manifest.venue_code;
      status = succeeded;
      date_from = isoformat v.manifest.date_from;
      date_to = isoformat v.manifest.date_to;
      sessions_received = length v.sessions;
      trading_days_inserted = y.inserted_open;
      closed_days_inserted = y.inserted_closed;
      sessions_unchanged = y.unchanged;
      sessions_rejected = pos 0;
      started_at = w.now starting;
      finished_at = w.now writing;
      payload_sha256 = v.payload_sha256;
      idempotent_replay = false;
    }

    abbrev pub concluded : CalendarStore → Result CalendarFault (Written × CalendarStore) → Imported
    concluded s (ok (y, s')) = (ok (imported y), s')
    concluded s (err conflict) = fail_batch s
    concluded s (err catalog_conflict) = (err catalog_conflict, s)
    concluded s (err refused) = (err refused, s)
    concluded s (err database) = (err database, s)
    concluded s (err (batch e)) = (err (batch e), s)
    concluded s (err (repository e)) = (err (repository e), s)

    abbrev pub audited : CalendarStore → Result CalendarFault CalendarStore → Imported
    audited s (err e) = (err e, s)
    audited s (ok s') = concluded s' (write_sessions s')

  abbrev pub started :
      CalendarValidationResult
      → CalendarStore
      → Result CalendarFault (IngestionBatchStartResult × BatchTable)
      → Imported
  started v s (err e) = (err e, s)
  started v s (ok (r, t)) =
      let s' = with_batches s t in
      if r.created
      then if w.faults starting
        then (err database, s)
        else audited v r.batch s' (audit_sessions w v r.batch.ingestion_batch_id s')
      else if is_running r.batch.status
      then (err conflict, s)
      else (ok (replay_result r.batch v), s)

  -- Transaction A, before its commit.
  unfoldable pub open_batch :
      CalendarValidationResult
      → Text
      → CalendarStore
      → Result CalendarFault (IngestionBatchStartResult × BatchTable)
  unfolding get_venue_by_code get_feed_by_codes create_batch_if_absent
  open_batch v request s = do
    venue ← get_venue_by_code v.manifest.venue_code s.venues
    raise_if (not (same_text venue.timezone_name v.manifest.timezone)) conflict
    feed ← calendar_feed s
    map_err batch (
        create_batch_if_absent (w.current starting)
          (calendar_batch (w.now starting) feed request v.manifest) s.store.batches)

  unfoldable pub import_calendar :
      CalendarValidationResult → Option Text → Text → CalendarStore → Imported
  unfolding open_batch audit_sessions write_sessions fail_batch isoformat strip
  import_calendar v request generated s = started v s (open_batch v (effective request generated) s)
