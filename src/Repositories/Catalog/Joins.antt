-- ===== src/Repositories/Catalog/Joins.antt =====
-- The joins of repositories/instrument_repository.py, row by row.
use bisfin.Base.{
  refl, List, In, ℕ, ◌∷◌, inl, ◌++◌, ◌==◌, ◌≡◌, sym, In-append_left, ◌⊎◌, true, subst, ap, inr,
  keep, Bool-cases, In-keep_of, In-append_right, [], In-keep,
}
use bisfin.Repositories.Catalog.{
  ResolvedInstrument, SessionResolvedInstrument, resolve, Instrument, InstrumentIdentifier,
  in_session, resolve_sessions, TradingSession, resolved_with, is_session_of,
}

In-append : {A : Type 0} (a : A) (xs ys : List A) → In a (xs ++ ys) → In a xs ⊎ In a ys
In-append a [] ys h = inr h
In-append a (x ∷ xs) ys (inl e) = inl (inl e)
In-append a (x ∷ xs) ys (inr h) = elim (In-append a xs ys h) [ inl p ↦ inl (inr p) | inr p ↦ inr p ]

-- The pair joins an identifier with an instrument that it names.
abbrev IsJoined : List Instrument → List InstrumentIdentifier → ResolvedInstrument → Type 0
IsJoined xs is r =
    In r.identifier is
    × In r.instrument xs
    × ((r.instrument.instrument_id == r.identifier.instrument_id) ≡ true)

module _ (r : ResolvedInstrument) where
  In-resolved_with :
      (i : InstrumentIdentifier) (xs : List Instrument)
      → In r (resolved_with i xs)
      → (r.identifier ≡ i)
        × In r.instrument xs
        × ((r.instrument.instrument_id == i.instrument_id) ≡ true)
  In-resolved_with i [] h = elim h [ ]
  In-resolved_with i (x ∷ xs) h = elim (Bool-cases (x.instrument_id == i.instrument_id)) [
    | inl same ↦
        let joined = rw same at h in
        elim joined [ inl e ↦ first_joined same e | inr p ↦ later (In-resolved_with i xs p) ]
    | inr other ↦ later (In-resolved_with i xs (rw other at h))
  ]
    where
      later :
          (r.identifier ≡ i)
            × In r.instrument xs
            × ((r.instrument.instrument_id == i.instrument_id) ≡ true)
          → (r.identifier ≡ i)
            × In r.instrument (x ∷ xs)
            × ((r.instrument.instrument_id == i.instrument_id) ≡ true)
      later (a, b, c) = (a, inr b, c)

      first_joined :
          (x.instrument_id == i.instrument_id) ≡ true
          → r ≡ record { instrument = x; identifier = i }
          → (r.identifier ≡ i)
            × In r.instrument (x ∷ xs)
            × ((r.instrument.instrument_id == i.instrument_id) ≡ true)
      first_joined same e = (
        ap (λ (q : ResolvedInstrument). q.identifier) e,
        inl (ap (λ (q : ResolvedInstrument). q.instrument) e),
        subst (λ (y : Instrument). (y.instrument_id == i.instrument_id) ≡ true)
            (sym (ap (λ (q : ResolvedInstrument). q.instrument) e)) same,
      )

  In-resolved_with_of :
      (xs : List Instrument)
      → In r.instrument xs
      → (r.instrument.instrument_id == r.identifier.instrument_id) ≡ true
      → In r (resolved_with r.identifier xs)
  In-resolved_with_of [] h e = elim h [ ]
  In-resolved_with_of (x ∷ xs) (inl same) e = rw (sym same) (rw e (inl refl))
  In-resolved_with_of (x ∷ xs) (inr h) e =
      elim (Bool-cases (x.instrument_id == r.identifier.instrument_id)) [
        | inl named ↦ rw named (inr (In-resolved_with_of xs h e))
        | inr other ↦ rw other (In-resolved_with_of xs h e)
      ]

  pub In-resolve :
      (xs : List Instrument) (is : List InstrumentIdentifier)
      → In r (resolve xs is)
      → IsJoined xs is r
  unfolding resolve
  In-resolve xs [] h = elim h [ ]
  In-resolve xs (i ∷ is) h = elim (In-append r (resolved_with i xs) (resolve xs is) h) [
    | inl p ↦ here (In-resolved_with i xs p)
    | inr p ↦ later (In-resolve xs is p)
  ]
    where
      here :
          (r.identifier ≡ i)
            × In r.instrument xs
            × ((r.instrument.instrument_id == i.instrument_id) ≡ true)
          → IsJoined xs (i ∷ is) r
      here (a, b, c) = (
        inl a,
        b,
        subst (λ (j : InstrumentIdentifier). (r.instrument.instrument_id == j.instrument_id) ≡ true)
            (sym a) c,
      )

      later : IsJoined xs is r → IsJoined xs (i ∷ is) r
      later (a, b, c) = (inr a, b, c)

  pub In-resolve_of :
      (xs : List Instrument) (is : List InstrumentIdentifier)
      → IsJoined xs is r
      → In r (resolve xs is)
  unfolding resolve
  In-resolve_of xs [] (h, b, c) = elim h [ ]
  In-resolve_of xs (i ∷ is) (inl a, b, c) = In-append_left r (resolved_with i xs) (resolve xs is) (
      subst (λ (j : InstrumentIdentifier). In r (resolved_with j xs)) a
        (In-resolved_with_of xs b c))
  In-resolve_of xs (i ∷ is) (inr a, b, c) =
      In-append_right r (resolved_with i xs) (resolve xs is) (In-resolve_of xs is (a, b, c))

abbrev pub pair_of : SessionResolvedInstrument → ResolvedInstrument
pair_of q = record { instrument = q.instrument; identifier = q.identifier }

module _ (q : SessionResolvedInstrument) where
  In-in_session :
      (r : ResolvedInstrument) (ss : List TradingSession)
      → In q (in_session r ss)
      → (pair_of q ≡ r) × In q.trading_session ss
  unfolding in_session
  In-in_session r [] h = elim h [ ]
  In-in_session r (s ∷ ss) (inl e) =
      (ap pair_of e, inl (ap (λ (p : SessionResolvedInstrument). p.trading_session) e))
  In-in_session r (s ∷ ss) (inr h) = let (a, b) = In-in_session r ss h in (a, inr b)

  In-in_session_of :
      (ss : List TradingSession) → In q.trading_session ss → In q (in_session (pair_of q) ss)
  unfolding in_session
  In-in_session_of [] h = elim h [ ]
  In-in_session_of (s ∷ ss) (inl e) = inl (rw (sym e) refl)
  In-in_session_of (s ∷ ss) (inr h) = inr (In-in_session_of ss h)

  abbrev IsInSession : ℕ → List TradingSession → List ResolvedInstrument → Type 0
  IsInSession date ss rs =
      In (pair_of q) rs
      × In q.trading_session ss
      × (is_session_of date (pair_of q) q.trading_session ≡ true)

  pub In-resolve_sessions :
      (date : ℕ) (ss : List TradingSession) (rs : List ResolvedInstrument)
      → In q (resolve_sessions date ss rs)
      → IsInSession date ss rs
  unfolding resolve_sessions
  In-resolve_sessions date ss [] h = elim h [ ]
  In-resolve_sessions date ss (r ∷ rs) h =
      elim (In-append q (in_session r (keep (is_session_of date r) ss))
        (resolve_sessions date ss rs) h) [
          | inl p ↦ here (In-in_session r (keep (is_session_of date r) ss) p)
          | inr p ↦ later (In-resolve_sessions date ss rs p)
        ]
    where
      here :
          (pair_of q ≡ r) × In q.trading_session (keep (is_session_of date r) ss)
          → IsInSession date ss (r ∷ rs)
      here (a, b) =
          let (c, d) = In-keep (is_session_of date r) q.trading_session ss b in
          (
            inl a,
            c,
            subst (λ (p : ResolvedInstrument). is_session_of date p q.trading_session ≡ true)
                (sym a) d,
          )

      later : IsInSession date ss rs → IsInSession date ss (r ∷ rs)
      later (a, b, c) = (inr a, b, c)

  pub In-resolve_sessions_of :
      (date : ℕ) (ss : List TradingSession) (rs : List ResolvedInstrument)
      → IsInSession date ss rs
      → In q (resolve_sessions date ss rs)
  unfolding resolve_sessions
  In-resolve_sessions_of date ss [] (h, b, c) = elim h [ ]
  In-resolve_sessions_of date ss (r ∷ rs) (inl a, b, c) =
      In-append_left q (in_session r (keep (is_session_of date r) ss)) (resolve_sessions date ss rs)
        (subst (λ (p : ResolvedInstrument). In q (in_session p (keep (is_session_of date p) ss))) a
          (In-in_session_of (keep (is_session_of date (pair_of q)) ss)
            (In-keep_of (is_session_of date (pair_of q)) q.trading_session ss b c)))
  In-resolve_sessions_of date ss (r ∷ rs) (inr a, b, c) =
      In-append_right q (in_session r (keep (is_session_of date r) ss))
        (resolve_sessions date ss rs) (In-resolve_sessions_of date ss rs (a, b, c))
