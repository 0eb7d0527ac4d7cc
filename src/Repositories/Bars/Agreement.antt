-- ===== src/Repositories/Bars/Agreement.antt =====
-- `_COMPARISON_FIELDS` of repositories/bar_writer_repository.py, field by field.
use bisfin.Repositories.Bars.Revisions.{same_values, same_option, same_ℤ, same_bool}
use bisfin.Repositories.Bars.{BarRevisionCandidate}
use bisfin.Base.{
  Option, ◌≡◌, some, true, ◌⊎◌, ◌↔◌, arith, inr, refl, inl, none, ◌&&◌, Bool, false, ==_iff, sym,
}
use bisfin.Decimal.{eq}

-- Both are absent, or both are given and compare equal.
abbrev pub BothSame : {A : Type 0} → (A → A → Bool) → Option A → Option A → Type 0
BothSame same x y =
    ((x ≡ none) × (y ≡ none))
    ⊎ ((a : _) × (b : _) × (x ≡ some a) × (y ≡ some b) × (same a b ≡ true))

-- The values of a row agree with those of a candidate, decimals by their numbers.
pub record Agrees (x c : BarRevisionCandidate) : Type 0 where
  pub bar_close_ts : x.bar_close_ts ≡ c.bar_close_ts
  pub trading_date : x.trading_date ≡ c.trading_date
  pub open_price : eq x.open_price c.open_price ≡ true
  pub high_price : eq x.high_price c.high_price ≡ true
  pub low_price : eq x.low_price c.low_price ≡ true
  pub close_price : eq x.close_price c.close_price ≡ true
  pub volume : BothSame eq x.volume c.volume
  pub official_close_price : BothSame eq x.official_close_price c.official_close_price
  pub settlement_price : BothSame eq x.settlement_price c.settlement_price
  pub quote_volume : BothSame eq x.quote_volume c.quote_volume
  pub trade_count : BothSame same_ℤ x.trade_count c.trade_count
  pub vwap : BothSame eq x.vwap c.vwap
  pub open_interest : BothSame eq x.open_interest c.open_interest
  pub is_final : x.is_final ≡ c.is_final
  pub quality_flags : same_ℤ x.quality_flags c.quality_flags ≡ true
  pub previous_close_price : BothSame eq x.previous_close_price c.previous_close_price

same_option-BothSame :
    {A : Type 0}
    → (same : A → A → Bool) (x y : Option A) → (same_option same x y ≡ true) ↔ BothSame same x y
same_option-BothSame same none none = (λ h. inl (refl, refl), λ h. refl)
same_option-BothSame same none (some b) = (λ h. absurd (ground arith), λ h. absurd (ground arith))
same_option-BothSame same (some a) none = (λ h. absurd (ground arith), λ h. absurd (ground arith))
same_option-BothSame same (some a) (some b) = (λ h. inr (a, b, refl, refl, h), ground arith)

same_bool_iff : (a b : Bool) → (same_bool a b ≡ true) ↔ (a ≡ b)
same_bool_iff true b = (λ h. sym h, λ h. sym h)
same_bool_iff false true = (λ h. ground arith, λ h. ground arith)
same_bool_iff false false = (λ h. refl, λ h. refl)

both : (a b : Bool) → (a && b) ≡ true → (a ≡ true) × (b ≡ true)
both true b h = (refl, h)
both false b h = absurd (ground arith)

joined : {a b : Bool} → a ≡ true → b ≡ true → (a && b) ≡ true
joined p q = ground arith

pub same_values-Agrees : (x c : BarRevisionCandidate) → same_values x c ≡ true → Agrees x c
unfolding same_values
same_values-Agrees x c h =
    let (r15, h14) = both _ _ h in
    let (r14, p14) = both _ _ r15 in
    let (r13, p13) = both _ _ r14 in
    let (r12, p12) = both _ _ r13 in
    let (r11, p11) = both _ _ r12 in
    let (r10, p10) = both _ _ r11 in
    let (r9, p9) = both _ _ r10 in
    let (r8, p8) = both _ _ r9 in
    let (r7, p7) = both _ _ r8 in
    let (r6, p6) = both _ _ r7 in
    let (r5, p5) = both _ _ r6 in
    let (r4, p4) = both _ _ r5 in
    let (r3, p3) = both _ _ r4 in
    let (r2, p2) = both _ _ r3 in
    let (p0, p1) = both _ _ r2 in
    record {
      bar_close_ts = (==_iff x.bar_close_ts c.bar_close_ts).0 p0;
      trading_date = (==_iff x.trading_date c.trading_date).0 p1;
      open_price = p2;
      high_price = p3;
      low_price = p4;
      close_price = p5;
      volume = (same_option-BothSame eq x.volume c.volume).0 p6;
      official_close_price =
          (same_option-BothSame eq x.official_close_price c.official_close_price).0 p7;
      settlement_price = (same_option-BothSame eq x.settlement_price c.settlement_price).0 p8;
      quote_volume = (same_option-BothSame eq x.quote_volume c.quote_volume).0 p9;
      trade_count = (same_option-BothSame same_ℤ x.trade_count c.trade_count).0 p10;
      vwap = (same_option-BothSame eq x.vwap c.vwap).0 p11;
      open_interest = (same_option-BothSame eq x.open_interest c.open_interest).0 p12;
      is_final = (same_bool_iff x.is_final c.is_final).0 p13;
      quality_flags = p14;
      previous_close_price =
          (same_option-BothSame eq x.previous_close_price c.previous_close_price).0 h14;
    }

pub Agrees-same_values : (x c : BarRevisionCandidate) → Agrees x c → same_values x c ≡ true
unfolding same_values
Agrees-same_values x c h =
    let a0 = ((==_iff x.bar_close_ts c.bar_close_ts).1 h.bar_close_ts) in
    let a1 = joined a0 ((==_iff x.trading_date c.trading_date).1 h.trading_date) in
    let a2 = joined a1 h.open_price in
    let a3 = joined a2 h.high_price in
    let a4 = joined a3 h.low_price in
    let a5 = joined a4 h.close_price in
    let a6 = joined a5 ((same_option-BothSame eq x.volume c.volume).1 h.volume) in
    let a7 = joined a6 (
      (same_option-BothSame eq x.official_close_price c.official_close_price).1
        h.official_close_price) in
    let a8 =
      joined a7
        ((same_option-BothSame eq x.settlement_price c.settlement_price).1 h.settlement_price) in
    let a9 = joined a8 ((same_option-BothSame eq x.quote_volume c.quote_volume).1 h.quote_volume) in
    let a10 =
      joined a9 ((same_option-BothSame same_ℤ x.trade_count c.trade_count).1 h.trade_count) in
    let a11 = joined a10 ((same_option-BothSame eq x.vwap c.vwap).1 h.vwap) in
    let a12 =
      joined a11 ((same_option-BothSame eq x.open_interest c.open_interest).1 h.open_interest) in
    let a13 = joined a12 ((same_bool_iff x.is_final c.is_final).1 h.is_final) in
    let a14 = joined a13 h.quality_flags in
    let a15 = joined a14 (
      (same_option-BothSame eq x.previous_close_price c.previous_close_price).1
        h.previous_close_price) in
    a15
