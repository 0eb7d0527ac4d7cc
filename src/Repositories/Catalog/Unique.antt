-- ===== src/Repositories/Catalog/Unique.antt =====
-- The resolution of identifiers by repositories/instrument_repository.py: the one row that a query
-- with LIMIT 2 lets through.
use bisfin.Repositories.Catalog.Joins.{pair_of}
use bisfin.Base.Texts.{Text}
use bisfin.Base.{In, ℕ, ◌==◌, ◌≡◌, true}
use bisfin.Repositories.Catalog.{
  SessionResolvedInstrument, is_session_of, CatalogTables, is_identifier,
}

-- The rows among which a bar's instrument is looked for.
abbrev pub IsMatch : ℕ → Text → Text → ℕ → CatalogTables → SessionResolvedInstrument → Type 0
IsMatch provider kind value date t q =
    (In q.identifier t.identifiers × (is_identifier provider kind value q.identifier ≡ true))
    × (In q.instrument t.instruments
        × ((q.instrument.instrument_id == q.identifier.instrument_id) ≡ true))
    × (In q.trading_session t.sessions × (is_session_of date (pair_of q) q.trading_session ≡ true))
