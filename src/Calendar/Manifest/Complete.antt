-- ===== src/Calendar/Manifest/Complete.antt =====
-- The sessions of `validate_calendar_manifest` in calendar/manifest.py.
use bisfin.Calendar.Manifest.Sessions.{
  date_of, In-map_date, map_date-inv, collect_dates-inv, sorted-AreDistinct,
  sorted_dates-AreAscending, le_date-IsOrder,
}
use bisfin.Calendar.Manifest.Dates.{all_in_sound, ascending_dates}
use bisfin.Calendar.Manifest.Timed.{validated_date, IsTimed, validate_sessions-All}
use bisfin.Base.Result.{ok, raise_if, >>=-inv}
use bisfin.Base.{
  ℕ, List, ◌≡◌, In, All, map, arith, true, ◌+◌, [], inl, ◌⊎◌, sym, inr, subst, refl, ◌-◌, Bool, not,
  ◌&&◌, ◌∙◌, false,
}
use bisfin.Base.Sort.{sorted, In-sorted, In-sorted_of, sorted-IsSorted}
use bisfin.Calendar.Manifest.{
  collect_dates, dates_from, le_date, CalendarManifest, all_in, validate_calendar_manifest,
  ZoneInfo, ValidatedCalendarSession, incomplete_range,
}

-- The sessions of a calendar that is validated fall on the dates of its range, each once and in
-- order; those of trading days open before they close, and the others have no times.
pub validate_calendar_manifest_complete :
    (zone : ZoneInfo) (m : CalendarManifest) (vs : List ValidatedCalendarSession)
    → validate_calendar_manifest zone m ≡ ok vs
    → (map validated_date vs ≡ dates_from m.date_from (m.date_to + 1 - m.date_from))
      × All IsTimed vs
unfolding validate_calendar_manifest
validate_calendar_manifest_complete zone m vs e =
    let expected = dates_from m.date_from (m.date_to + 1 - m.date_from) in
    let (seen, e1, h1) = >>=-inv (collect_dates m m.sessions []) _ e in
    let (u, e2, h2) =
      >>=-inv (raise_if (not (all_in expected seen && all_in seen expected)) incomplete_range) _
        h1 in
    let (distinct, fresh, sound, complete) = collect_dates-inv m m.sessions [] seen e1 in
    let (dates, timed) = validate_sessions-All zone (sorted le_date m.sessions) vs h2 in
    let (covered, inside) = both (all_in expected seen) (all_in seen expected) e2 in
    (
      dates
          ∙ ascending_dates (map date_of (sorted le_date m.sessions)) m.date_from
              (m.date_to + 1 - m.date_from)
              (sorted_dates-AreAscending (sorted le_date m.sessions)
                (sorted-IsSorted le_date le_date-IsOrder m.sessions)
                (sorted-AreDistinct m.sessions distinct))
              (λ d i. all_in_sound seen expected d inside (complete d (inl (from_sorted d i))))
              (λ d i. to_sorted d (only d (sound d (all_in_sound expected seen d covered i)))),
      timed,
    )
  where
    both : (a b : Bool) → raise_if (not (a && b)) incomplete_range ≡ ok tt → (a ≡ true) × (b ≡ true)
    both true true h = (refl, refl)
    both true false h = absurd (ground arith)
    both false b h = absurd (ground arith)

    only : (d : ℕ) → In d (map date_of m.sessions) ⊎ In d [] → In d (map date_of m.sessions)
    only d (inl i) = i
    only d (inr i) = elim i [ ]

    from_sorted :
        (d : ℕ) → In d (map date_of (sorted le_date m.sessions)) → In d (map date_of m.sessions)
    from_sorted d i =
        let (s, j, q) = map_date-inv d (sorted le_date m.sessions) i in
        subst (λ z. In z (map date_of m.sessions)) (sym q)
          (In-map_date s m.sessions (In-sorted le_date s m.sessions j))

    to_sorted :
        (d : ℕ) → In d (map date_of m.sessions) → In d (map date_of (sorted le_date m.sessions))
    to_sorted d i =
        let (s, j, q) = map_date-inv d m.sessions i in
        subst (λ z. In z (map date_of (sorted le_date m.sessions))) (sym q)
          (In-map_date s (sorted le_date m.sessions) (In-sorted_of le_date s m.sessions j))
