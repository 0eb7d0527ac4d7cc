-- ===== src/Ingestion/Service/Counts.antt =====
-- The counters of `_canonicalize` of ingestion/service.py.
use bisfin.Repositories.Bars.Revisions.{append_revision_if_changed, Written}
use bisfin.Repositories.Bars.{
  BarRevisionWriteStatus, BarTables, BarSeries, get_or_create_daily_raw_series,
}
use bisfin.Ingestion.Service.Writing.{
  Writing, reject_row, accept_row, write_row, write_bar, write_rows, required, candidate_of,
  series_metadata, write_or_reject,
}
use bisfin.Repositories.{Referenced}
use bisfin.Base.Result.{ok, ok_injective, >>=-inv, ◌>>=◌, Result, map_err}
use bisfin.Repositories.RawEvents.{RawEvent}
use bisfin.Brsapi.Contracts.{RowValidationResult, ParsedDailyBarCandidate}
use bisfin.Repositories.Catalog.{CatalogTables, SessionResolvedInstrument}
use bisfin.Base.{
  ℕ, ◌+◌, length, ◌≡◌, suc, arith, List, subst, length-append, ◌∷◌, [], ◌∙◌, refl, ltb, Bool-cases,
  inl, inr, some,
}
use bisfin.Ingestion.Service.{Tally, World, Started, writing, Fault, repository, canonicalizing}
use bisfin.Ingestion.Service.Screening.{
  Screening, Screened, reject, accept, resolve_to, record_screened, screen_rows, ResolvedRow,
  screen_row,
}

-- The rows that the first loop settled or passed on.
abbrev screened_size : Screening → ℕ
screened_size s = s.tally.accepted + s.tally.rejected + length s.resolved

abbrev bars_of : Tally → ℕ
bars_of y = y.inserted + y.corrected + y.unchanged

module _ (w : World) (provider received : ℕ) (catalog : CatalogTables) where
  abbrev IsCounted : Screening → Screening → Type 0
  IsCounted s s' = (screened_size s' ≡ suc (screened_size s)) × (bars_of s'.tally ≡ bars_of s.tally)

  record_screened-IsCounted :
      (row : RowValidationResult) (e : RawEvent) (d : Screened) (s s' : Screening)
      → record_screened w provider received catalog row e d s ≡ ok s'
      → IsCounted s s'
  record_screened-IsCounted row e (reject issues) s s' h = ground arith
  record_screened-IsCounted row e (accept issues) s s' h = ground arith
  record_screened-IsCounted row e (resolve_to c q) s s' h =
      ground (arith, length-append s.resolved (resolved_row row e c q ∷ []))
    where
      resolved_row :
          RowValidationResult
          → RawEvent
          → ParsedDailyBarCandidate
          → SessionResolvedInstrument
          → ResolvedRow
      resolved_row row e c q = record { row = row; raw_event = e; candidate = c; resolution = q }

  pub screen_rows-IsCounted :
      (rows : List (RowValidationResult × RawEvent)) (s s' : Screening)
      → screen_rows w provider received catalog rows s ≡ ok s'
      → (screened_size s' ≡ screened_size s + length rows) × (bars_of s'.tally ≡ bars_of s.tally)
  unfolding screen_rows
  screen_rows-IsCounted [] s s' h =
      subst
        (λ (x : Screening).
          (screened_size x ≡ screened_size s + 0) × (bars_of x.tally ≡ bars_of s.tally))
        (ok_injective h) (omega arith, refl)
  screen_rows-IsCounted ((row, e) ∷ rows) s s' h =
      let (d, _, h1) =
        >>=-inv (screen_row w provider received catalog row)
          (λ (d : Screened). record_screened w provider received catalog row e d s >>= λ x.
            screen_rows w provider received catalog rows x)
          h in
      let (x, h2, h3) =
        >>=-inv (record_screened w provider received catalog row e d s)
          (λ (x : Screening). screen_rows w provider received catalog rows x) h1 in
      let (a, b) = record_screened-IsCounted row e d s x h2 in
      let (c, f) = screen_rows-IsCounted rows x s' h3 in (omega arith, f ∙ b)

abbrev pub settled : Tally → ℕ
settled y = y.accepted + y.rejected

-- One more settled row, and a bar for each accepted one.
abbrev IsSettled : ℕ → Tally → Tally → Type 0
IsSettled n y y' =
    (settled y' ≡ settled y + n) × (bars_of y' + y.accepted ≡ bars_of y + y'.accepted)

module _ (w : World) (begun : Started) (timeframe received : ℕ) (refs : Referenced) where
  reject_row-IsSettled :
      (item : ResolvedRow) (s s' : Writing)
      → reject_row w begun timeframe received refs item s ≡ ok s'
      → IsSettled 1 s.tally s'.tally
  reject_row-IsSettled item s s' h = ground arith

  accept_row-IsSettled :
      (item : ResolvedRow) (status : BarRevisionWriteStatus) (bars : BarTables) (s s' : Writing)
      → accept_row w begun timeframe received refs item status bars s ≡ ok s'
      → IsSettled 1 s.tally s'.tally
  accept_row-IsSettled item BarRevisionWriteStatus.inserted bars s s' h = ground arith
  accept_row-IsSettled item BarRevisionWriteStatus.corrected bars s s' h = ground arith
  accept_row-IsSettled item BarRevisionWriteStatus.unchanged bars s s' h = ground arith

  write_bar-IsSettled :
      (item : ResolvedRow) (system opened closed : ℕ) (s s' : Writing)
      → write_bar w begun timeframe received refs item system opened closed s ≡ ok s'
      → IsSettled 1 s.tally s'.tally
  write_bar-IsSettled item system opened closed s s' h =
      let (series, _, h1) =
        >>=-inv
          (map_err repository (
            get_or_create_daily_raw_series (w.current canonicalizing) refs begun.feed.feed_id
              item.resolution.instrument.instrument_id timeframe
              (some (series_metadata begun.provider)) s.bars))
          (λ (x : BarSeries × BarTables). written_after x) h in
      let (written, _, h2) =
        >>=-inv
          (map_err repository (
            append_revision_if_changed w.numeric (w.current canonicalizing) refs
              (candidate_of w begun timeframe received refs opened closed system
                series.0.bar_series_id item.candidate)
              series.1))
          (λ (x : Written). accept_row w begun timeframe received refs item x.0.status x.1 s) h1 in
      accept_row-IsSettled item written.0.status written.1 s s' h2
    where
      written_after : BarSeries × BarTables → Result Fault Writing
      written_after x =
          map_err repository (
            append_revision_if_changed w.numeric (w.current canonicalizing) refs
              (candidate_of w begun timeframe received refs opened closed system x.0.bar_series_id
                item.candidate)
              x.1)
          >>= λ (y : Written). accept_row w begun timeframe received refs item y.0.status y.1 s

  write_or_reject-IsSettled :
      (item : ResolvedRow) (system opened closed : ℕ) (s s' : Writing)
      → write_or_reject w begun timeframe received refs item system opened closed s ≡ ok s'
      → IsSettled 1 s.tally s'.tally
  write_or_reject-IsSettled item system opened closed s s' h =
      elim (Bool-cases (ltb system received)) [
        | inl early ↦ reject_row-IsSettled item s s' (rw early at h)
        | inr later ↦ write_bar-IsSettled item system opened closed s s' (rw later at h)
      ]

  write_row-IsSettled :
      (item : ResolvedRow) (system : ℕ) (s s' : Writing)
      → write_row w begun timeframe received refs item system s ≡ ok s'
      → IsSettled 1 s.tally s'.tally
  unfolding write_row
  write_row-IsSettled item system s s' h =
      let (opened, _, h1) =
        >>=-inv (required item.resolution.trading_session.session_open_ts)
          (λ (o : ℕ). required item.resolution.trading_session.session_close_ts >>= λ (c : ℕ).
            write_or_reject w begun timeframe received refs item system o c s)
          h in
      let (closed, _, h2) =
        >>=-inv (required item.resolution.trading_session.session_close_ts)
          (λ (c : ℕ). write_or_reject w begun timeframe received refs item system opened c s) h1 in
      write_or_reject-IsSettled item system opened closed s s' h2

  pub write_rows-IsSettled :
      (i : ℕ) (items : List ResolvedRow) (s s' : Writing)
      → write_rows w begun timeframe received refs i items s ≡ ok s'
      → IsSettled (length items) s.tally s'.tally
  unfolding write_rows
  write_rows-IsSettled i [] s s' h =
      subst (λ (x : Writing). IsSettled 0 s.tally x.tally) (ok_injective h) (omega arith)
  write_rows-IsSettled i (item ∷ items) s s' h =
      let (x, h1, h2) =
        >>=-inv (write_row w begun timeframe received refs item (w.now (writing i)) s)
          (λ (x : Writing). write_rows w begun timeframe received refs (suc i) items x) h in
      let (a, b) = write_row-IsSettled item (w.now (writing i)) s x h1 in
      let (c, d) = write_rows-IsSettled (suc i) items x s' h2 in omega arith
