-- ===== src/Lib.antt =====
-- Bisfin imports daily bars of the Tehran market, freezes them in snapshots, and runs a reference
-- backtest over the frozen bars. This library models the import (the parser of the provider's
-- candlesticks, src/bisfin/integrations/brsapi, the service of src/bisfin/ingestion and the
-- repositories that it writes to), the lifecycle of a snapshot, trading calendars,
-- src/bisfin/calendar, and the backtest, src/bisfin/backtest.
--
-- A response of the provider is decoded, its envelope is read (Brsapi/Envelope), each row is validated
-- into a candidate or a list of issues (Brsapi/Fields reads a field, Brsapi/Candidate and Brsapi/Rows
-- are _validate_row of parser.py, Brsapi/Normalization is normalization.py, Brsapi/Contracts
-- contracts.py), and rows for one date are settled (Brsapi/Duplicates, _apply_duplicate_policy).
--
-- An import is audited by a batch in a database table. Ingestion/Batches holds the rows of that table
-- with the statements that insert one, and Ingestion/Transitions the guarded updates, all of
-- src/bisfin/repositories/ingestion_batch_repository.py; the constraints of the table are those of
-- db/postgresql/migrations/0001_core_schema.sql. A call is one transaction, and one that raises leaves
-- the table as it was.
--
-- The repositories of src/bisfin/repositories that an import uses are in Repositories: Bars
-- (bar_writer_repository.py: partitions, whose statements are listed with their locks, series and
-- revisions; Bars/Civil counts days as datetime.date does, apart from the code), RawEvents
-- (raw_event_repository.py: the rows as received, with the outcome of their validation) and Catalog
-- (data_feed_repository.py and instrument_repository.py: the searches of providers, feeds,
-- instruments and sessions). Snapshots (snapshot_repository.py) and SnapshotBars
-- (snapshot_bar_repository.py) hold the lifecycle of a snapshot and the revisions that it may hold. A
-- statement is a function of the tables with what the constraints of the schema refuse.
--
-- Ingestion/Service is src/bisfin/ingestion/service.py. `ingest` starts a batch (Start), lets the client
-- fetch, parses, keeps the raw events (Acquire), checks each row against the catalog (Screening), writes
-- the bars (Writing) and closes the batch (Canonicalize, Finish); Ingest puts these together with the
-- handling of exceptions. A run is a function from the tables to the tables and a result: what the
-- client returns or raises (Fetched), the reading of the clock at each step and the transactions that the
-- database fails (World) are inputs, so that each theorem holds for all of them. A failed transaction
-- leaves the tables as they were. Counts, Totals, Followed, Transits, Ends, Begun, Closed
-- and Replay prove what follows from that.
--
-- A trading calendar is validated by Calendar/Manifest (src/bisfin/calendar/manifest.py): its sessions
-- cover a range of dates, and local times become instants. Repositories/TradingCalendar is the table of
-- sessions (src/bisfin/repositories/trading_calendar_repository.py), and Calendar/Import the method
-- import_calendar (src/bisfin/calendar/importer.py): it opens a batch, keeps the raw sessions (Audit), and
-- writes all sessions and closes the batch in one transaction (Write), with the clock and the faults of
-- the database as inputs; Loop and Atomic prove what that leaves.
--
-- A run goes through these parts. The request is validated (Backtest/Contracts, contracts.py: strategy
-- parameters, rates, the event range, the instruments). The rows of the frozen components are loaded
-- for the three roles of each instrument (Backtest/Loading, _load_selectors of service.py and
-- snapshot_data.py) and grouped by their open time into a selector (Backtest/Selector, selector.py),
-- which answers which revision of each bar is visible at an instant, when decisions fall and at which
-- bar an order can be executed. The strategy (Backtest/Strategy, strategies.py) maps the visible closes to a target. The simulator
-- (Backtest/Engine, engine.py) walks through the instants, fills the orders that are due through the
-- portfolio (Backtest/Accounting, accounting.py), lets the strategy decide, submits orders, and values
-- the positions at the end. Backtest/Trades sums up the closed trades (_summary of service.py).
--
--   Base       tests, lists, integers, a stable sort and results with errors
--   Decimal    Python's decimal.Decimal with 28 digits and ROUND_HALF_EVEN
--   Brsapi     the parser, its Json values, and in Tests the parse of three rows
--   Repositories  bars, raw events, the catalog and snapshots, in Tests two bars, an event and a session,
--              and in SnapshotTests a frozen snapshot
--   Ingestion  batches, their transitions, and in Tests a batch that is started twice; DailyBars the keys
--              and diagnostics of daily_bars.py, Watermark the latest date, Service the import, and in
--              its Tests and RowTests a run without an answer and one of two rows
--   Calendar   the manifest of a calendar and its import, and in both Tests one of two days
--   Backtest   Errors, Contracts, Accounting, Selector, Strategy, Engine, Trades, Loading, one for each file
--   Backtest/Engine   Records, Keys, Events, Fills and Instants hold the parts of engine.py, Engine
--              itself the method simulate; Steps and Booked say what a property must keep for the loop
--              to keep it, Outcome what a result was made of, and Rounds, LongOnly, Decisions,
--              Causality and Reconciled the rest
--   Backtest/Tests    a run of five bars, and the theorems at it; Lag a run with a long lag
--
-- A timestamp is a number of microseconds, a dict an association list in insertion order, and an
-- exception an error value. The object LongOnlyPortfolio is a value that each call returns anew; it is
-- shared by nobody but the simulator, whose local variables are the record Simulation.
--
-- The while loop of simulate runs on fuel: one round for each decision instant and each instant at
-- which a row of the execution data becomes visible, and one more. The loop inserts only instants of
-- the second kind and passes each instant once, so that the fuel never runs out (Engine.Rounds).
--
-- Parameters: SHA-256 of canonical JSON and str(Decimal), in the record Rendering; NFKC, Unicode's
-- digits, jdatetime, the reading of a decimal text and the hash of a row, in the record Libraries; the
-- redaction of secrets and the text of an exception; the rounding of NUMERIC(38,18), `numeric`; the
-- conversions of a time zone, in the record ZoneInfo. The number of decimal digits and the text of a
-- number are found on fuel equal to the number, more than its digits. The order of texts in the database
-- is a parameter of list_components. For a calendar: the hash of a JSON text, and whether the dict read
-- from a JSONB column equals a dict, which the theorem takes to hold of equal dicts. For the loading of
-- an artifact: the lines of a file and the bar of a line, in the record Artifacts.
--
-- Not modelled: the messages of issues and errors, two transactions that overlap (each runs alone, as the
-- advisory locks and unique keys of the schema make them), the other repositories, the command line, the
-- HTTP client, the files of a snapshot and the bootstrap of the catalog, since they are input and output
-- or calls of libraries for the most part; columns that no modelled statement reads; the exponent limits
-- of Decimal, signed zeros, the conversions of pydantic and the limit of 4300 digits of int, which it
-- exceeds with an exception. Decimal.div gives 0 for a zero divisor and last_n gives no value for a
-- window of zero, where Python raises or takes the whole list; a validated strategy has a window of at
-- least one and orders a positive quantity.
pub mod Backtest
pub mod Base
pub mod Brsapi
pub mod Calendar
pub mod Decimal
pub mod Ingestion
pub mod Repositories
