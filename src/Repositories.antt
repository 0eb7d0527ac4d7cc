-- ===== src/Repositories.antt =====
-- The repositories of src/bisfin/repositories for daily bars and snapshots: the errors that their
-- statements raise, and the references that the database checks. An instant is a number of
-- microseconds since the start of day 0, and a date is a number of days.
pub mod Bars
pub mod Catalog
pub mod RawEvents
pub mod Snapshots
pub mod SnapshotBars
pub mod TradingCalendar
mod Tests
mod SnapshotTests
use bisfin.Base.{ℕ, Bool}

-- The errors of db/errors.py, and the `ValueError` of an argument.
pub data RepositoryError : Type 0 where
  value_error entity_not_found integrity_violation database_error : RepositoryError
  invalid_state_transition : RepositoryError

-- The rows of other tables that a foreign key may name.
pub record Referenced : Type 0 where
  pub has_feed : ℕ → Bool
  pub has_instrument : ℕ → Bool
  pub has_batch : ℕ → Bool
