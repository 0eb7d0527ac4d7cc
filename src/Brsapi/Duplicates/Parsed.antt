-- ===== src/Brsapi/Duplicates/Parsed.antt =====
-- The canonical candidates of `parse_unadjusted_daily_candles` in integrations/brsapi/parser.py.
use bisfin.Brsapi.Rows.{validate_row}
use bisfin.Brsapi.Rows.Sound.{IsSoundBar, validate_row-IsSoundBar}
use bisfin.Brsapi.Json.{JsonObject, JsonValue}
use bisfin.Brsapi.Envelope.{Envelope, no_data, candlesticks, parse_candlestick_envelope}
use bisfin.Base.{
  ℕ, List, ◌∷◌, Bool-cases, Bool, ◌≡◌, All, false, ltb, some, [], sym, inr, length, subst, inl, ◌≢◌,
  refl, ◌∙◌, Option-cases, suc, ◌==◌, zero, true, arith,
}
use bisfin.Base.Result.{Result, ok, ok_injective, raise_if, >>=-inv}
use bisfin.Brsapi.Contracts.{
  RowValidationResult, ParseError, ParsedDailyBarCandidate, empty_request_symbol,
}
use bisfin.Base.Texts.{Text}
use bisfin.Brsapi.Duplicates.{
  parse_unadjusted_daily_candles, settle_groups, mark_conflict, settle_group,
  apply_duplicate_policy, canonical_candidates, mark_identical, validate_rows, Key, change_at,
  DailyBarParseResult, as_conflict, parse_rows, as_identical, hashes_of, is_empty_text,
  group_results,
}
use bisfin.Brsapi.Normalization.{Libraries, normalize_brsapi_symbol}

-- Whatever candidate the result has is a sound bar of the requested symbol.
abbrev HasSound : Libraries → Text → RowValidationResult → Type 0
HasSound lib requested r =
    (c : ParsedDailyBarCandidate) → r.candidate ≡ some c → IsSoundBar lib requested c

module _ (lib : Libraries) (requested : Text) where
  abbrev AreSound : List RowValidationResult → Type 0
  AreSound = All (HasSound lib requested)

  change_at-AreSound :
      (i : ℕ) (f : RowValidationResult → RowValidationResult) (rs : List RowValidationResult)
      → ((r : RowValidationResult) → (f r).candidate ≡ r.candidate)
      → AreSound rs
      → AreSound (change_at i f rs)
  change_at-AreSound i f [] same h = tt
  change_at-AreSound zero f (r ∷ rs) same h = ((λ c e. h.0 c (sym (same r) ∙ e)), h.1)
  change_at-AreSound (suc i) f (r ∷ rs) same h = (h.0, change_at-AreSound i f rs same h.1)

  mark_identical-AreSound :
      (first : Bool) (is : List ℕ) (rs : List RowValidationResult)
      → AreSound rs
      → AreSound (mark_identical first is rs)
  unfolding mark_identical
  mark_identical-AreSound first [] rs h = h
  mark_identical-AreSound first (i ∷ is) rs h =
      mark_identical-AreSound false is (change_at i (as_identical first) rs)
        (change_at-AreSound i (as_identical first) rs (λ r. refl) h)

  mark_conflict-AreSound :
      (is : List ℕ) (rs : List RowValidationResult) → AreSound rs → AreSound (mark_conflict is rs)
  unfolding mark_conflict
  mark_conflict-AreSound [] rs h = h
  mark_conflict-AreSound (i ∷ is) rs h =
      mark_conflict-AreSound is (change_at i as_conflict rs)
        (change_at-AreSound i as_conflict rs (λ r. refl) h)

  settle_group-AreSound :
      (is : List ℕ) (rs : List RowValidationResult) → AreSound rs → AreSound (settle_group is rs)
  unfolding settle_group
  settle_group-AreSound is rs h = elim (Bool-cases (ltb (length is) 2)) [
    | inl e ↦ rw e h
    | inr e ↦ elim (Bool-cases (length (hashes_of is rs) == 1)) [
      | inl q ↦ rw (e, q) (mark_identical-AreSound true is rs h)
      | inr q ↦ rw (e, q) (mark_conflict-AreSound is rs h)
    ]
  ]

  settle_groups-AreSound :
      (gs : List (Key × List ℕ)) (rs : List RowValidationResult)
      → AreSound rs
      → AreSound (settle_groups gs rs)
  unfolding settle_groups
  settle_groups-AreSound [] rs h = h
  settle_groups-AreSound ((k, is) ∷ gs) rs h =
      settle_groups-AreSound gs (settle_group is rs) (settle_group-AreSound is rs h)

  validate_rows-AreSound :
      (actual sequence : ℕ) (rows : List JsonObject) (rs : List RowValidationResult)
      → validate_rows lib requested actual sequence rows ≡ ok rs
      → AreSound rs
  unfolding validate_rows
  validate_rows-AreSound actual sequence [] rs e = subst AreSound (ok_injective e) tt
  validate_rows-AreSound actual sequence (row ∷ rows) rs e =
      let (r, er, e1) = >>=-inv (validate_row lib requested actual sequence row) _ e in
      let (rest, e2, e3) = >>=-inv (validate_rows lib requested actual (suc sequence) rows) _ e1 in
      subst AreSound (ok_injective e3) (
        (λ c q. validate_row-IsSoundBar lib requested actual sequence row r c er q),
        validate_rows-AreSound actual (suc sequence) rows rest e2,
      )

  canonical_candidates-All :
      (rs : List RowValidationResult)
      → AreSound rs
      → All (IsSoundBar lib requested) (canonical_candidates rs)
  unfolding canonical_candidates
  canonical_candidates-All [] h = tt
  canonical_candidates-All (r ∷ rs) h = elim (Bool-cases r.include_in_canonicalization) [
    | inr e ↦ rw e (canonical_candidates-All rs h.1)
    | inl e ↦ elim (Option-cases r.candidate) [
      | inl q ↦ rw (e, q) (canonical_candidates-All rs h.1)
      | inr (c, q) ↦ rw (e, q) (h.0 c q, canonical_candidates-All rs h.1)
    ]
  ]

  parse_rows-AreSound :
      (envelope : Envelope) (result : DailyBarParseResult)
      → parse_rows lib requested envelope ≡ ok result
      → AreSound result.rows
  unfolding apply_duplicate_policy
  parse_rows-AreSound (no_data payload) result e =
      subst (λ (x : DailyBarParseResult). AreSound x.rows) (ok_injective e) tt
  parse_rows-AreSound (candlesticks rows) result e =
      let (rs, er, e1) = >>=-inv (validate_rows lib requested (length rows) 1 rows) _ e in
      subst (λ (x : DailyBarParseResult). AreSound x.rows) (ok_injective e1)
        (settle_groups-AreSound (group_results 0 rs []) rs
          (validate_rows-AreSound (length rows) 1 rows rs er))

-- A response that is parsed yields for canonicalization only sound bars of the requested symbol
-- (the date is that of its text, no amount is negative, open and close are between low and high),
-- and that symbol is not empty once it is normalized.
pub parse_unadjusted_daily_candles-IsSoundBar :
    (lib : Libraries) (requested : Text) (payload : Result ParseError JsonValue)
    (result : DailyBarParseResult)
    → parse_unadjusted_daily_candles lib requested payload ≡ ok result
    → (normalize_brsapi_symbol lib requested ≢ [])
      × All
          (IsSoundBar lib (normalize_brsapi_symbol lib requested))
          (canonical_candidates result.rows)
unfolding parse_unadjusted_daily_candles
parse_unadjusted_daily_candles-IsSoundBar lib requested payload result e =
    let symbol = normalize_brsapi_symbol lib requested in
    let (u, e0, e1) = >>=-inv (raise_if (is_empty_text lib symbol) empty_request_symbol) _ e in
    let (decoded, e2, e3) = >>=-inv payload _ e1 in
    let (envelope, e4, e5) = >>=-inv (parse_candlestick_envelope decoded) _ e3 in
    (
      (λ q. absurd (blank symbol q e0)),
      canonical_candidates-All lib symbol result.rows
          (parse_rows-AreSound lib symbol envelope result e5),
    )
  where
    blank : (t : Text) → t ≡ [] → raise_if (is_empty_text lib t) empty_request_symbol ≡ ok tt → ⊥
    blank [] q h = absurd (ground arith)
    blank (c ∷ cs) q h = absurd (ground arith)
