-- ===== src/Calendar/Manifest/Timed.antt =====
-- The times of the sessions in `validate_calendar_manifest` of calendar/manifest.py.
use bisfin.Base.Result.{ok, Result, ok_injective, raise_if, >>=-inv, ◌>>◌}
use bisfin.Base.{
  ℕ, List, ◌≡◌, Option, true, map, some, ◌<◌, All, arith, false, subst, none, ◌∷◌, Bool-cases, leb,
  [], inl, inr, refl,
}
use bisfin.Calendar.Manifest.{
  CalendarSession, ValidatedCalendarSession, validate_session, validate_sessions, ZoneInfo,
  timed_session, CalendarManifestError, as_validated, close_not_after_open, to_utc,
}

-- A trading day has an opening before its closing, in UTC; another day has neither.
pub record IsTimed (v : ValidatedCalendarSession) : Type 0 where
  pub traded :
      v.is_trading_day ≡ true
      → (o : ℕ) × (c : ℕ) × (v.session_open_ts ≡ some o) × (v.session_close_ts ≡ some c) × (o < c)
  pub untraded : v.is_trading_day ≡ false → (v.session_open_ts ≡ none) × (v.session_close_ts ≡ none)

abbrev pub validated_date : ValidatedCalendarSession → ℕ
validated_date v = v.trading_date

abbrev Fits : CalendarSession → ValidatedCalendarSession → Type 0
Fits s v = (v.trading_date ≡ s.trading_date) × IsTimed v

timed_session-Fits :
    (zone : ZoneInfo) (s : CalendarSession) (opens closes : Option ℕ) (v : ValidatedCalendarSession)
    → s.is_trading_day ≡ true
    → timed_session zone s opens closes ≡ ok v
    → Fits s v
timed_session-Fits zone s none closes v d e = absurd (ground arith)
timed_session-Fits zone s (some opens) none v d e = absurd (ground arith)
timed_session-Fits zone s (some opens) (some closes) v d e =
    let (open_ts, e1, h1) = >>=-inv (to_utc zone s.trading_date opens s.open_fold) _ e in
    let (close_ts, e2, h2) = >>=-inv (to_utc zone s.trading_date closes s.close_fold) _ h1 in
    elim (Bool-cases (leb close_ts open_ts)) [
      | inl q ↦ absurd (late open_ts close_ts q h2)
      | inr q ↦ subst (Fits s) (ok_injective (made open_ts close_ts q h2)) (
        refl,
        record {
          traded = λ t. (open_ts, close_ts, refl, refl, ground arith);
          untraded = λ t. absurd (ground arith);
        },
      )
    ]
  where
    Rest : ℕ → ℕ → Result CalendarManifestError ValidatedCalendarSession
    Rest o c = raise_if (leb c o) close_not_after_open >> ok (as_validated s (some o) (some c))

    late : (o c : ℕ) → leb c o ≡ true → Rest o c ≡ ok v → ⊥
    late o c q h = ground arith

    made :
        (o c : ℕ)
        → leb c o ≡ false
        → Rest o c ≡ ok v
        → ◌≡◌ {A = Result CalendarManifestError ValidatedCalendarSession}
            (ok (as_validated s (some o) (some c)))
            (ok v)
    made o c q h = ground arith

validate_session-Fits :
    (zone : ZoneInfo) (s : CalendarSession) (v : ValidatedCalendarSession)
    → validate_session zone s ≡ ok v
    → Fits s v
unfolding validate_session
validate_session-Fits zone s v e = elim (Bool-cases s.is_trading_day) [
  | inl d ↦ timed_session-Fits zone s s.open_local_time s.close_local_time v d (timed d)
  | inr d ↦
      subst (Fits s) (ok_injective (untimed d))
        (refl, record { traded = λ t. absurd (ground arith); untraded = λ t. (refl, refl) })
]
  where
    timed :
        s.is_trading_day ≡ true → timed_session zone s s.open_local_time s.close_local_time ≡ ok v
    timed d = ground arith

    untimed :
        s.is_trading_day ≡ false
        → ◌≡◌ {A = Result CalendarManifestError ValidatedCalendarSession}
            (ok (as_validated s none none))
            (ok v)
    untimed d = ground arith

pub validate_sessions-All :
    (zone : ZoneInfo) (ss : List CalendarSession) (vs : List ValidatedCalendarSession)
    → validate_sessions zone ss ≡ ok vs
    → (map validated_date vs ≡ map (λ s. s.trading_date) ss) × All IsTimed vs
unfolding validate_sessions
validate_sessions-All zone [] vs e =
    subst (λ (x : List ValidatedCalendarSession). (map validated_date x ≡ []) × All IsTimed x)
      (ok_injective e) (refl, tt)
validate_sessions-All zone (s ∷ ss) vs e =
    let (v, e1, h1) = >>=-inv (validate_session zone s) _ e in
    let (rest, e2, h2) = >>=-inv (validate_sessions zone ss) _ h1 in
    let (date, timed) = validate_session-Fits zone s v e1 in
    let (dates, all_timed) = validate_sessions-All zone ss rest e2 in
    subst
      (λ (x : List ValidatedCalendarSession).
        (map validated_date x ≡ map (λ z. z.trading_date) (s ∷ ss)) × All IsTimed x)
      (ok_injective h2) (cons v rest date dates, (timed, all_timed))
  where
    cons :
        (v : ValidatedCalendarSession) (rest : List ValidatedCalendarSession)
        → v.trading_date ≡ s.trading_date
        → map validated_date rest ≡ map (λ z. z.trading_date) ss
        → map validated_date (v ∷ rest) ≡ map (λ z. z.trading_date) (s ∷ ss)
    cons v rest p q = rw (p, q) refl
