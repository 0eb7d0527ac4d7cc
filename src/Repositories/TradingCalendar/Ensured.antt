-- ===== src/Repositories/TradingCalendar/Ensured.antt =====
-- What `ensure_session` leaves in the table.
use bisfin.Base.Texts.{same_text_refl}
use bisfin.Repositories.Bars.Again.{same_bool_refl, same_option_refl}
use mathlib.Core.List.{append-nil}
use bisfin.Calendar.Manifest.{ValidatedCalendarSession}
use bisfin.Repositories.Catalog.{first, TradingSession, is_regular}
use bisfin.Brsapi.Json.{JsonObject}
use bisfin.Repositories.TradingCalendar.{
  get_session, is_same_session, ensure_session, same_number, expected_session, Ensured, ensured,
  check_session, session_refused,
}
use bisfin.Base.{
  Bool, Option, ℕ, ◌≡◌, List, true, false, refl, some, none, arith, ◌++◌, Bool-cases, ◌∷◌, inr, [],
  inl, subst, sym, not, ==_refl,
}
use bisfin.Base.Result.{ok, ok_injective, raise_if-inv}

pub get_session-append :
    (venue date : ℕ) (ss more : List TradingSession) (q : TradingSession)
    → get_session venue date ss ≡ some q
    → get_session venue date (ss ++ more) ≡ some q
unfolding get_session first
get_session-append venue date [] more q e = absurd (ground arith)
get_session-append venue date (s ∷ ss) more q e =
    ground (arith, get_session-append venue date ss more q)

get_session-new :
    (venue date : ℕ) (ss : List TradingSession) (q : TradingSession)
    → get_session venue date ss ≡ none
    → is_regular venue date q ≡ true
    → get_session venue date (ss ++ q ∷ []) ≡ some q
unfolding get_session first
get_session-new venue date [] q e r = rw r refl
get_session-new venue date (s ∷ ss) q e r = ground (arith, get_session-new venue date ss q)

module _ (same_metadata : JsonObject → JsonObject → Bool)
    (reflexive : (o : JsonObject) → same_metadata o o ≡ true) where
  is_same_session_refl : (s : TradingSession) → is_same_session same_metadata s s ≡ true
  unfolding is_same_session
  is_same_session_refl s =
      rw
        (
          same_bool_refl s.is_trading_day,
          same_option_refl same_number ==_refl s.session_open_ts,
          same_option_refl same_number ==_refl s.session_close_ts,
          same_option_refl same_number ==_refl s.settlement_date,
          reflexive s.metadata,
        )
        refl

  -- The table has the session as the file gives it.
  abbrev pub IsWritten : ℕ → List TradingSession → ValidatedCalendarSession → Type 0
  IsWritten venue ss c =
      (q : TradingSession) × (get_session venue c.trading_date ss ≡ some q)
      × (is_same_session same_metadata q (expected_session venue c) ≡ true)

  expected-is_regular :
      (venue : ℕ) (c : ValidatedCalendarSession)
      → is_regular venue c.trading_date (expected_session venue c) ≡ true
  unfolding expected_session
  expected-is_regular venue c = simp (==_refl, same_text_refl)

  abbrev pub IsEnsured : ℕ → ValidatedCalendarSession → List TradingSession → Ensured → Type 0
  IsEnsured venue c ss (r, ss') =
      ((more : List TradingSession) × (ss' ≡ ss ++ more)) × IsWritten venue ss' c

  ensured-IsEnsured :
      (venue : ℕ) (c : ValidatedCalendarSession) (ss : List TradingSession)
      (o : Option TradingSession) {w : Ensured}
      → get_session venue c.trading_date ss ≡ o
      → ensured same_metadata (expected_session venue c) ss o ≡ ok w
      → IsEnsured venue c ss w
  ensured-IsEnsured venue c ss (some q) {w} e h =
      elim (Bool-cases (is_same_session same_metadata q (expected_session venue c))) [
        | inr differs ↦ absurd (cc (rw differs at h))
        | inl same ↦
            subst (IsEnsured venue c ss) (ok_injective (rw same at h))
              (([], sym (append-nil ss)), (q, e, same))
      ]
  ensured-IsEnsured venue c ss none {w} e h =
      let (_, h1) =
        raise_if-inv (not (check_session (expected_session venue c))) session_refused
          (ok (
            record { session = expected_session venue c; created = true; unchanged = false },
            ss ++ expected_session venue c ∷ [],
          ))
          h in
      subst (IsEnsured venue c ss) (ok_injective h1) (
        (expected_session venue c ∷ [], refl),
        (
          expected_session venue c,
          get_session-new venue c.trading_date ss (expected_session venue c) e
              (expected-is_regular venue c),
          is_same_session_refl (expected_session venue c),
        ),
      )

  pub ensure_session-IsEnsured :
      (venue : ℕ) (c : ValidatedCalendarSession) (ss : List TradingSession) {w : Ensured}
      → ensure_session same_metadata venue c ss ≡ ok w
      → IsEnsured venue c ss w
  unfolding ensure_session
  ensure_session-IsEnsured venue c ss h =
      ensured-IsEnsured venue c ss (get_session venue c.trading_date ss) refl h
