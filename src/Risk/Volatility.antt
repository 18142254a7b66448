-- ===== src/Risk/Volatility.antt =====
-- core/risk_engine.py: the average true range by Wilder's smoothing, and the coefficient taken from two
-- of them. numpy's `mean` is an argument.
pub mod Range
use quantamental_engine.Base.{
  ℕ, ◌+◌, ◌-◌, ◌≤◌, String, Bool, true, false, ◌&&◌, ◌||◌, not, Option, none, some, List, [], ◌∷◌,
  ◌==◌, string_eq, contains, if◌then◌else◌, or_else, ltb, leb, length, is_empty, filter, map, zero,
  suc, drop,
}
use quantamental_engine.Float.{Float, nought, one, fle, flt, feq, fmax, fmin, fabs, truthy}
use quantamental_engine.Gate.{Reading, Logged, Reason, evaluate, lower_in}
use quantamental_engine.Contract.{Decimals, ContractSpec, ValidationResult, validate_and_snap_size}
use quantamental_engine.Position.{Position}
use quantamental_engine.Portfolio.{sector_net, sum}

-- the columns of a candle that are read
pub record Candle {ℓ} (F : Type ℓ) : Type ℓ where
  pub high : F
  pub low : F
  pub close : F

module _ {ℓ} {A : Type ℓ} where
  -- `xs[:n]`, `xs[n:]`
  abbrev pub take : ℕ → List A → List A
  take zero xs = []
  take (suc n) [] = []
  take (suc n) (x ∷ xs) = x ∷ take n xs

module _ {ℓ} {F : Type ℓ} ⦃f : Float F⦄ where
  -- the range of a candle after the close before it
  abbrev pub true_range : F → Candle F → F
  true_range close c =
      fmax (f.sub c.high c.low) (fmax (fabs (f.sub c.high close)) (fabs (f.sub c.low close)))

  unfoldable pub true_ranges : F → List (Candle F) → List F
  true_ranges close [] = []
  true_ranges close (c ∷ cs) = true_range close c ∷ true_ranges c.close cs

  -- `tr`: one entry less than there are candles
  abbrev pub ranges : List (Candle F) → List F
  ranges [] = []
  ranges (c ∷ cs) = true_ranges c.close cs

  unfoldable pub smooth : F → F → List F → F
  smooth alpha atr [] = atr
  smooth alpha atr (t ∷ ts) = smooth alpha (f.add (f.mul atr (f.sub one alpha)) (f.mul t alpha)) ts

  module _ (mean : List F → F) where
    unfoldable pub wilder_atr : List (Candle F) → ℕ → Option F
    unfolding true_ranges smooth
    wilder_atr ohlcv period =
        let tr = ranges ohlcv in
        if ltb (length ohlcv) (period + 1)
        then none
        else some (smooth (f.div one (f.lit period 0)) (mean (take period tr)) (drop period tr))

pub data AtrCategory : Type 0 where
  unknown too_volatile volatile normal not_volatile : AtrCategory

pub record AtrCoefficient {ℓ} (F : Type ℓ) : Type ℓ where
  pub atr_c : Option F
  pub category : AtrCategory
  pub atr14 : Option F
  pub atr100 : Option F

abbrev pub atr_short_period : ℕ
atr_short_period = 14

abbrev pub atr_long_period : ℕ
atr_long_period = 100

module _ {ℓ} {F : Type ℓ} ⦃f : Float F⦄ where
  abbrev pub no_coefficient : AtrCoefficient F
  no_coefficient = record { atr_c = none; category = unknown; atr14 = none; atr100 = none }

  abbrev pub category_of : F → AtrCategory
  category_of raw_ratio =
      let atr_c = fmin raw_ratio one in
      if flt atr_c (f.lit 2 1)
      then too_volatile
      else if flt atr_c (f.lit 6 1)
      then volatile
      else if fle one raw_ratio
      then not_volatile
      else normal

  -- by the two averages
  unfoldable pub coefficient_of : Option F → Option F → AtrCoefficient F
  coefficient_of (some atr14) (some atr100) =
      let raw_ratio = f.div atr100 atr14 in
      if feq atr14 nought then no_coefficient else record {
        atr_c = some (fmin raw_ratio one);
        category = category_of raw_ratio;
        atr14 = some atr14;
        atr100 = some atr100;
      }
  coefficient_of _ _ = no_coefficient

  -- `ohlcv` is what the cache holds for the symbol, empty if nothing.
  unfoldable pub calculate_atr_coefficient : (List F → F) → List (Candle F) → AtrCoefficient F
  unfolding wilder_atr coefficient_of
  calculate_atr_coefficient mean ohlcv =
      if ltb (length ohlcv) (atr_long_period + 1)
      then no_coefficient
      else coefficient_of (wilder_atr mean ohlcv atr_short_period)
          (wilder_atr mean ohlcv atr_long_period)
