-- ===== src/Calendar.antt =====
-- The import of trading calendars (src/bisfin/calendar).
pub mod Manifest
pub mod Import
mod Tests
