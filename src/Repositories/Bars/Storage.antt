-- ===== src/Repositories/Bars/Storage.antt =====
-- The values of a candidate as the table `market.bar_revision` keeps them.
use bisfin.Base.Optional.{◌>>=◌, >>=-some-inv}
use bisfin.Repositories.Bars.{BarRevisionCandidate}
use bisfin.Base.{Option, some, none, ◌≡◌, arith, ◌⊎◌, inl, inr, refl, sym, subst, some_injective}
use bisfin.Decimal.{Decimal}

-- A decimal as NUMERIC(38,18) keeps it, none where it overflows.
module _ (numeric : Decimal → Option Decimal) where
  abbrev numeric_option : Option Decimal → Option (Option Decimal)
  numeric_option none = some none
  numeric_option (some d) = numeric d >>= λ n. some (some n)

  unfoldable pub stored : BarRevisionCandidate → Option BarRevisionCandidate
  stored c = do
    open_price ← numeric c.open_price
    high_price ← numeric c.high_price
    low_price ← numeric c.low_price
    close_price ← numeric c.close_price
    official ← numeric_option c.official_close_price
    settlement ← numeric_option c.settlement_price
    volume ← numeric_option c.volume
    quote_volume ← numeric_option c.quote_volume
    vwap ← numeric_option c.vwap
    open_interest ← numeric_option c.open_interest
    previous ← numeric_option c.previous_close_price
    some (record c {
      open_price = open_price;
      high_price = high_price;
      low_price = low_price;
      close_price = close_price;
      official_close_price = official;
      settlement_price = settlement;
      volume = volume;
      quote_volume = quote_volume;
      vwap = vwap;
      open_interest = open_interest;
      previous_close_price = previous;
    })

-- The conversion changes no key of a candidate.
pub stored-SameKeys :
    (numeric : Decimal → Option Decimal) (c c' : BarRevisionCandidate)
    → stored numeric c ≡ some c'
    → (c'.bar_series_id ≡ c.bar_series_id) × (c'.bar_open_ts ≡ c.bar_open_ts)
unfolding stored
stored-SameKeys numeric c c' h = ground arith

-- Both are absent, or the second one is what the conversion keeps of the first one.
abbrev pub KeepsOption : (Decimal → Option Decimal) → Option Decimal → Option Decimal → Type 0
KeepsOption numeric x y =
    ((x ≡ none) × (y ≡ none))
    ⊎ ((a : Decimal) × (b : Decimal) × (x ≡ some a) × (y ≡ some b) × (numeric a ≡ some b))

-- The values that a row keeps of a candidate: each decimal converted, all else as it was.
pub record IsStored (numeric : Decimal → Option Decimal) (c v : BarRevisionCandidate) : Type 0 where
  pub open_price : numeric c.open_price ≡ some v.open_price
  pub high_price : numeric c.high_price ≡ some v.high_price
  pub low_price : numeric c.low_price ≡ some v.low_price
  pub close_price : numeric c.close_price ≡ some v.close_price
  pub official_close_price : KeepsOption numeric c.official_close_price v.official_close_price
  pub settlement_price : KeepsOption numeric c.settlement_price v.settlement_price
  pub volume : KeepsOption numeric c.volume v.volume
  pub quote_volume : KeepsOption numeric c.quote_volume v.quote_volume
  pub vwap : KeepsOption numeric c.vwap v.vwap
  pub open_interest : KeepsOption numeric c.open_interest v.open_interest
  pub previous_close_price : KeepsOption numeric c.previous_close_price v.previous_close_price
  pub bar_open_ts : v.bar_open_ts ≡ c.bar_open_ts
  pub bar_series_id : v.bar_series_id ≡ c.bar_series_id
  pub available_at : v.available_at ≡ c.available_at
  pub system_available_at : v.system_available_at ≡ c.system_available_at
  pub bar_close_ts : v.bar_close_ts ≡ c.bar_close_ts
  pub trading_date : v.trading_date ≡ c.trading_date
  pub trade_count : v.trade_count ≡ c.trade_count
  pub is_final : v.is_final ≡ c.is_final
  pub quality_flags : v.quality_flags ≡ c.quality_flags
  pub ingestion_batch_id : v.ingestion_batch_id ≡ c.ingestion_batch_id

numeric_option-KeepsOption :
    (numeric : Decimal → Option Decimal) (x y : Option Decimal)
    → numeric_option numeric x ≡ some y
    → KeepsOption numeric x y
numeric_option-KeepsOption numeric none y h = inl (refl, sym (some_injective h))
numeric_option-KeepsOption numeric (some a) y h =
    let (b, e, same) = >>=-some-inv (numeric a) _ h in
    inr (a, b, refl, sym (some_injective same), e)

pub stored-IsStored :
    (numeric : Decimal → Option Decimal) (c : BarRevisionCandidate) {v : BarRevisionCandidate}
    → stored numeric c ≡ some v
    → IsStored numeric c v
unfolding stored
stored-IsStored numeric c h =
    let (n0, e0, h0) = >>=-some-inv (numeric c.open_price) _ h in
    let (n1, e1, h1) = >>=-some-inv (numeric c.high_price) _ h0 in
    let (n2, e2, h2) = >>=-some-inv (numeric c.low_price) _ h1 in
    let (n3, e3, h3) = >>=-some-inv (numeric c.close_price) _ h2 in
    let (n4, e4, h4) = >>=-some-inv (numeric_option numeric c.official_close_price) _ h3 in
    let (n5, e5, h5) = >>=-some-inv (numeric_option numeric c.settlement_price) _ h4 in
    let (n6, e6, h6) = >>=-some-inv (numeric_option numeric c.volume) _ h5 in
    let (n7, e7, h7) = >>=-some-inv (numeric_option numeric c.quote_volume) _ h6 in
    let (n8, e8, h8) = >>=-some-inv (numeric_option numeric c.vwap) _ h7 in
    let (n9, e9, h9) = >>=-some-inv (numeric_option numeric c.open_interest) _ h8 in
    let (n10, e10, h10) = >>=-some-inv (numeric_option numeric c.previous_close_price) _ h9 in
    subst (IsStored numeric c) (some_injective h10) record {
      open_price = e0;
      high_price = e1;
      low_price = e2;
      close_price = e3;
      official_close_price = numeric_option-KeepsOption numeric c.official_close_price n4 e4;
      settlement_price = numeric_option-KeepsOption numeric c.settlement_price n5 e5;
      volume = numeric_option-KeepsOption numeric c.volume n6 e6;
      quote_volume = numeric_option-KeepsOption numeric c.quote_volume n7 e7;
      vwap = numeric_option-KeepsOption numeric c.vwap n8 e8;
      open_interest = numeric_option-KeepsOption numeric c.open_interest n9 e9;
      previous_close_price = numeric_option-KeepsOption numeric c.previous_close_price n10 e10;
      bar_open_ts = refl;
      bar_series_id = refl;
      available_at = refl;
      system_available_at = refl;
      bar_close_ts = refl;
      trading_date = refl;
      trade_count = refl;
      is_final = refl;
      quality_flags = refl;
      ingestion_batch_id = refl;
    }
