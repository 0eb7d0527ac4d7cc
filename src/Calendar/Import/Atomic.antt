-- ===== src/Calendar/Import/Atomic.antt =====
-- What `import_calendar` leaves in the table of sessions.
use bisfin.Repositories.RawEvents.{ensure_month_partition, RawEventTable}
use bisfin.Ingestion.Service.Ingest.{effective}
use bisfin.Ingestion.Service.{referenced}
use bisfin.Base.Texts.{Text}
use bisfin.Calendar.Import.Audit.{audit_sessions, insert_sessions}
use bisfin.Calendar.Import.Loop.{IsComplete, ensure_sessions-IsComplete}
use bisfin.Ingestion.Transitions.{finalize_batch}
use bisfin.Ingestion.Batches.{IngestionBatch, BatchTable, IngestionBatchStartResult, is_running}
use bisfin.Repositories.Catalog.{TradingSession, CatalogTables, DataFeed}
use bisfin.Brsapi.Json.{JsonObject}
use bisfin.Calendar.Import.{
  CalendarWorld, CalendarFault, CalendarValidationResult, CalendarStore, Venue, get_venue_by_code,
  batch, CalendarStep, failing, repository, conflict, catalog_conflict, refused, database, starting,
  calendar_feed, auditing,
}
use bisfin.Calendar.Import.Write.{
  Written, ensure_sessions, write_sessions, no_counts, finish_writing, with_sessions, success,
  failed_as, fail_batch, Imported, concluded, failure, import_calendar, started, audited,
  open_batch, with_batches,
}
use bisfin.Base.{
  ℕ, ◌+◌, ◌≡◌, List, true, arith, ap, false, ◌++◌, sym, ◌∙◌, All, length, subst, ◌⊎◌, inr, refl,
  Option, Bool-cases, inl,
}
use bisfin.Repositories.TradingCalendar.Ensured.{IsWritten}
use bisfin.Base.Result.{ok, err, Result, >>=-inv, ok_injective, ◌>>=◌, map_err, commit-inv, commit}

module _ (w : CalendarWorld) (reflexive : (o : JsonObject) → w.same_metadata o o ≡ true)
    (v : CalendarValidationResult) where
  -- The sessions of the tables, before and after the writes.
  abbrev IsFilled : CalendarStore → Written → CalendarStore → Type 0
  IsFilled s y s' =
      (venue : Venue) × (get_venue_by_code v.manifest.venue_code s.venues ≡ ok venue)
      × IsComplete w reflexive venue.venue_id v.sessions (no_counts s) y
      × (s'.store.catalog.sessions ≡ y.sessions)

  finished-inv :
      (s : CalendarStore) (y : Written) (o : Result CalendarFault (IngestionBatch × BatchTable))
      {x : Written × CalendarStore}
      → (o >>= λ f. ok (y, with_sessions s y f.1)) ≡ ok x
      → (y ≡ x.0) × (x.1.store.catalog.sessions ≡ y.sessions)
  finished-inv s y (err e) h = absurd (ground arith)
  finished-inv s y (ok (c, t)) h =
      let e = ok_injective h in
      (
        ap (λ (p : Written × CalendarStore). p.0) e,
        ap (λ (p : Written × CalendarStore). p.1.store.catalog.sessions) (sym e),
      )

  write_sessions-IsFilled :
      (b : IngestionBatch) (s : CalendarStore) {x : Written × CalendarStore}
      → write_sessions w v b s ≡ ok x
      → IsFilled s x.0 x.1
  unfolding write_sessions
  write_sessions-IsFilled b s {x} h =
      let writing = λ (venue : Venue). ensure_sessions w venue.venue_id v.sessions (no_counts s) in
      let (venue, found, h1) =
        >>=-inv (get_venue_by_code v.manifest.venue_code s.venues)
          (λ (q : Venue). writing q >>= finish_writing w v b s)
          (commit-inv (w.faults CalendarStep.writing) database
            (get_venue_by_code v.manifest.venue_code s.venues >>= λ (q : Venue).
              writing q >>= finish_writing w v b s)
            h) in
      let (y, ensured, h2) = >>=-inv (writing venue) (finish_writing w v b s) h1 in
      let (same, stored) =
        finished-inv s y
          (map_err batch (
            finalize_batch w.redact (w.current CalendarStep.writing) b.ingestion_batch_id
              (success w v b) s.store.batches))
          h2 in
      (
        venue,
        found,
        subst (IsComplete w reflexive venue.venue_id v.sessions (no_counts s)) same (
            ensure_sessions-IsComplete w reflexive venue.venue_id v.sessions (no_counts s) y
              ensured),
        stored ∙ ap (λ (z : Written). z.sessions) same,
      )

  -- An error leaves the sessions as they were. A result is a replay that changed nothing, or the old
  -- sessions stay, those of the file are there, and each of them is counted once.
  abbrev pub IsImported : CalendarStore → Imported → Type 0
  IsImported s (err e, s') = s'.store.catalog.sessions ≡ s.store.catalog.sessions
  IsImported s (ok r, s') =
      ((r.idempotent_replay ≡ true) × (s' ≡ s))
      ⊎ ((r.idempotent_replay ≡ false)
          × ((more : List TradingSession) × (s'.store.catalog.sessions
                ≡ s.store.catalog.sessions ++ more))
          × ((venue : Venue) × (get_venue_by_code v.manifest.venue_code s.venues ≡ ok venue)
              × All (IsWritten w.same_metadata reflexive venue.venue_id s'.store.catalog.sessions)
                  v.sessions)
          × (r.trading_days_inserted + r.closed_days_inserted + r.sessions_unchanged
              ≡ length v.sessions))

  same_sessions :
      (s s0 : CalendarStore)
      → s.store.catalog ≡ s0.store.catalog
      → s.store.catalog.sessions ≡ s0.store.catalog.sessions
  same_sessions s s0 same = ap (λ (c : CatalogTables). c.sessions) same

  failed_as-IsImported :
      (b : IngestionBatch) (s s0 : CalendarStore)
      (o : Result CalendarFault (IngestionBatch × BatchTable))
      → s.store.catalog ≡ s0.store.catalog
      → IsImported s0 (failed_as w v b s o)
  failed_as-IsImported b s s0 (err e) same = same_sessions s s0 same
  failed_as-IsImported b s s0 (ok (b', t)) same = same_sessions s s0 same

  concluded-IsImported :
      (b : IngestionBatch) (s s0 : CalendarStore)
      (o : Result CalendarFault (Written × CalendarStore))
      → s.store.catalog ≡ s0.store.catalog
      → s.venues ≡ s0.venues
      → write_sessions w v b s ≡ o
      → IsImported s0 (concluded w v b s o)
  unfolding fail_batch
  concluded-IsImported b s s0 (ok (y, s')) same venues h =
      let (venue, found, ((more, grown), all, count), stored) = write_sessions-IsFilled b s h in
      inr (
        refl,
        (more, stored ∙ grown ∙ ap (λ (c : CatalogTables). c.sessions ++ more) same),
        (
          venue,
          subst (λ (vs : List Venue). get_venue_by_code v.manifest.venue_code vs ≡ ok venue) venues
              found,
          subst
              (λ (ss : List TradingSession).
                All (IsWritten w.same_metadata reflexive venue.venue_id ss) v.sessions)
              (sym stored) all,
        ),
        count ∙ omega arith,
      )
  concluded-IsImported b s s0 (err conflict) same venues h =
      failed_as-IsImported b s s0
        (commit (w.faults failing) database (
          map_err batch (
            finalize_batch w.redact (w.current failing) b.ingestion_batch_id (failure w v b)
              s.store.batches)))
        same
  concluded-IsImported b s s0 (err catalog_conflict) same venues h = same_sessions s s0 same
  concluded-IsImported b s s0 (err refused) same venues h = same_sessions s s0 same
  concluded-IsImported b s s0 (err database) same venues h = same_sessions s s0 same
  concluded-IsImported b s s0 (err (batch e)) same venues h = same_sessions s s0 same
  concluded-IsImported b s s0 (err (repository e)) same venues h = same_sessions s s0 same

  audit_sessions-kept :
      (i : ℕ) (s s' : CalendarStore)
      → audit_sessions w v i s ≡ ok s'
      → (s'.store.catalog ≡ s.store.catalog) × (s'.venues ≡ s.venues)
  unfolding audit_sessions
  audit_sessions-kept i s s' h =
      let events = λ (feed : DataFeed). map_err repository (
        insert_sessions w v i feed.feed_id (referenced s.store) v.sessions
          (ensure_month_partition (w.now starting) s.store.raw_events)) in
      let stored : RawEventTable → Result CalendarFault CalendarStore =
        λ t. ok (record s { store = record s.store { raw_events = t } }) in
      let (feed, _, h1) =
        >>=-inv (calendar_feed s) (λ (f : DataFeed). events f >>= stored)
          (commit-inv (w.faults auditing) database
            (calendar_feed s >>= λ (f : DataFeed). events f >>= stored) h) in
      let (t, _, h2) = >>=-inv (events feed) stored h1 in
      let e = ok_injective h2 in
      (
        ap (λ (x : CalendarStore). x.store.catalog) (sym e),
        ap (λ (x : CalendarStore). x.venues) (sym e),
      )

  audited-IsImported :
      (b : IngestionBatch) (s s0 : CalendarStore) (o : Result CalendarFault CalendarStore)
      → s.store.catalog ≡ s0.store.catalog
      → s.venues ≡ s0.venues
      → audit_sessions w v b.ingestion_batch_id s ≡ o
      → IsImported s0 (audited w v b s o)
  audited-IsImported b s s0 (err e) same venues h = same_sessions s s0 same
  audited-IsImported b s s0 (ok s') same venues h =
      let (catalog, kept) = audit_sessions-kept b.ingestion_batch_id s s' h in
      concluded-IsImported b s' s0 (write_sessions w v b s') (catalog ∙ same) (kept ∙ venues) refl

  started-IsImported :
      (s : CalendarStore) (o : Result CalendarFault (IngestionBatchStartResult × BatchTable))
      → IsImported s (started w v s o)
  started-IsImported s (err e) = refl
  started-IsImported s (ok (r, t)) = elim (Bool-cases r.created) [
    | inl created ↦ elim (Bool-cases (w.faults starting)) [
      | inl fault ↦ rw (created, fault) refl
      | inr working ↦
          rw (created, working)
            (audited-IsImported r.batch (with_batches s t) s
              (audit_sessions w v r.batch.ingestion_batch_id (with_batches s t)) refl refl refl)
    ]
    | inr old ↦ elim (Bool-cases (is_running r.batch.status)) [
      | inl busy ↦ rw (old, busy) refl
      | inr closed ↦ rw (old, closed) (inl (refl, refl))
    ]
  ]

  -- Where equal dicts compare as equal: an import that raises leaves the table of sessions as it was.
  -- One that reports a result is a replay that changed nothing; or the old sessions are the start of
  -- the new table, each session of the file is in it as the file gives it, for the venue of the file,
  -- and is counted once, as inserted or unchanged.
  pub import_calendar-IsImported :
      (request : Option Text) (generated : Text) (s : CalendarStore)
      → IsImported s (import_calendar w v request generated s)
  unfolding import_calendar
  import_calendar-IsImported request generated s =
      started-IsImported s (open_batch w v (effective request generated) s)
