-- ===== src/Calendar/Import/Loop.antt =====
-- The loop over the sessions in transaction C of `import_calendar`.
use bisfin.Calendar.Manifest.{ValidatedCalendarSession}
use bisfin.Repositories.Catalog.{TradingSession}
use bisfin.Repositories.TradingCalendar.{CalendarSessionWriteResult, ensure_session, Ensured}
use bisfin.Brsapi.Json.{JsonObject}
use bisfin.Calendar.Import.{CalendarWorld}
use bisfin.Calendar.Import.Write.{Written, counted, ensure_sessions, session_fault}
use bisfin.Base.{Bool, ℕ, ◌+◌, ◌≡◌, List, true, arith, ap, ◌++◌, sym, ◌∙◌, All, ◌∷◌, length, []}
use mathlib.Core.List.{append-nil, append_assoc}
use bisfin.Repositories.TradingCalendar.Ensured.{
  IsWritten, ensure_session-IsEnsured, get_session-append,
}
use bisfin.Base.Result.{ok, >>=-inv, ok_injective, map_err, map_err-inv}

abbrev pub total : Written → ℕ
total y = y.inserted_open + y.inserted_closed + y.unchanged

counted_sessions :
    (trading : Bool) (r : CalendarSessionWriteResult) (ss : List TradingSession) (y : Written)
    → (counted trading r ss y).sessions ≡ ss
counted_sessions trading r ss y = ground arith

counted_total :
    (trading : Bool) (r : CalendarSessionWriteResult) (ss : List TradingSession) (y : Written)
    → total (counted trading r ss y) ≡ total y + 1
counted_total trading r ss y = ground arith

module _ (w : CalendarWorld) (reflexive : (o : JsonObject) → w.same_metadata o o ≡ true) where
  -- The old sessions stay, the sessions of the file are there, and each is counted once.
  abbrev pub IsComplete : ℕ → List ValidatedCalendarSession → Written → Written → Type 0
  IsComplete venue cs y y' =
      ((more : List TradingSession) × (y'.sessions ≡ y.sessions ++ more))
      × All (IsWritten w.same_metadata reflexive venue y'.sessions) cs
      × (total y' ≡ total y + length cs)

  IsWritten-append :
      (venue : ℕ) (ss ss' more : List TradingSession) (c : ValidatedCalendarSession)
      → ss' ≡ ss ++ more
      → IsWritten w.same_metadata reflexive venue ss c
      → IsWritten w.same_metadata reflexive venue ss' c
  IsWritten-append venue ss ss' more c e (q, found, same) =
      (q, rw e (get_session-append venue c.trading_date ss more q found), same)

  pub ensure_sessions-IsComplete :
      (venue : ℕ) (cs : List ValidatedCalendarSession) (y y' : Written)
      → ensure_sessions w venue cs y ≡ ok y'
      → IsComplete venue cs y y'
  unfolding ensure_sessions
  ensure_sessions-IsComplete venue [] y y' h =
      let e = ok_injective h in
      (
        ([], ap (λ (x : Written). x.sessions) (sym e) ∙ sym (append-nil y.sessions)),
        tt,
        ap total (sym e) ∙ omega arith,
      )
  ensure_sessions-IsComplete venue (c ∷ cs) y y' h =
      let ((r, ss), done, rest) =
        >>=-inv (map_err session_fault (ensure_session w.same_metadata venue c y.sessions))
          (λ (o : Ensured). ensure_sessions w venue cs (counted c.is_trading_day o.0 o.1 y)) h in
      let y1 = counted c.is_trading_day r ss y in
      let ((added, grown), written) =
        ensure_session-IsEnsured w.same_metadata reflexive venue c y.sessions
          (map_err-inv session_fault (ensure_session w.same_metadata venue c y.sessions) done) in
      let ((more, grown'), all, count) = ensure_sessions-IsComplete venue cs y1 y' rest in
      let from : y'.sessions ≡ ss ++ more =
        grown'
        ∙ ap (λ (l : List TradingSession). l ++ more) (counted_sessions c.is_trading_day r ss y) in
      (
        (
          added ++ more,
          from
              ∙ ap (λ (l : List TradingSession). l ++ more) grown
              ∙ append_assoc y.sessions added more,
        ),
        (IsWritten-append venue ss y'.sessions more c from written, all),
        omega (arith, count, counted_total c.is_trading_day r ss y),
      )
