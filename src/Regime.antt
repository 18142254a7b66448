-- ===== src/Regime.antt =====
-- core/regime_classifier.py: the rules that classify the market, the search for the value of a date,
-- and the stability of a label. A date is an ISO text; only the order of dates matters to the search,
-- so that it takes the test `<=` of their texts.
pub mod Search
pub mod Labels
mod Tests
use quantamental_engine.Base.{
  ℕ, zero, suc, ◌+◌, ◌-◌, ◌/◌, String, Bool, true, false, ◌&&◌, ◌||◌, not, Option, none, some, List,
  [], ◌∷◌, ◌==◌, string_eq, if◌then◌else◌, or_else, is_some, leb, length,
}
use quantamental_engine.Base.Text.{text_le}
use quantamental_engine.Float.{Float, nought, flt, fle}

pub data Regime : Type 0 where
  risk_on_trending risk_on_choppy neutral risk_off_defensive risk_off_panic : Regime

-- the thresholds, with the defaults of `t.get(...)` filled in
pub record RegimeThresholds {ℓ} (F : Type ℓ) : Type ℓ where
  pub vix_panic : F
  pub hy_spread_panic : F
  pub funding_panic : F
  pub hy_spread_defensive : F
  pub vix_defensive : F
  pub hy_spread_neutral : F
  pub hy_spread_risk_on : F
  pub vix_risk_on : F
  pub rvol_ratio_trending : F
  pub vix_choppy : F
  pub rvol_ratio_choppy : F

pub record Signals {ℓ} (F : Type ℓ) : Type ℓ where
  pub vix_close : Option F
  pub hy_spread : Option F
  pub btc_rvol_ratio : Option F
  pub agg_oi_change : Option F
  pub avg_funding : Option F

module _ {ℓ} {F : Type ℓ} ⦃f : Float F⦄ where
  -- `x is not None and x > y`, and its kin
  abbrev pub above : Option F → F → Bool
  above none y = false
  above (some x) y = flt y x

  abbrev pub below : Option F → F → Bool
  below none y = false
  below (some x) y = flt x y

  abbrev pub at_least : Option F → F → Bool
  at_least none y = false
  at_least (some x) y = fle y x

  -- Whether the mode is "full", after "auto" has been resolved.
  abbrev pub is_full : String → Signals F → Bool
  is_full mode s =
      if mode == "auto" then is_some s.agg_oi_change || is_some s.avg_funding else mode == "full"

  -- the branch of `vix > vix_panic`
  unfoldable pub panic_regime : RegimeThresholds F → Bool → Signals F → Regime
  panic_regime t full s =
      if above s.hy_spread t.hy_spread_panic
      then risk_off_panic
      else if full && below s.avg_funding t.funding_panic
      then risk_off_panic
      else if above s.hy_spread t.hy_spread_defensive
      then risk_off_panic
      else risk_off_defensive

  -- the branches from the credit gate on
  unfoldable pub calm_regime : RegimeThresholds F → Bool → Signals F → Regime
  calm_regime t full s =
      let hy_allows_risk_on = not (is_some s.hy_spread) || below s.hy_spread t.hy_spread_risk_on in
      let is_low_vix = below s.vix_close t.vix_risk_on in
      let is_vol_compressed = below s.btc_rvol_ratio t.rvol_ratio_trending in
      let is_leverage_expanding = above s.agg_oi_change nought && above s.avg_funding nought in
      let is_moderate_vix = below s.vix_close t.vix_choppy in
      let is_vol_elevated = above s.btc_rvol_ratio t.rvol_ratio_choppy in
      if not hy_allows_risk_on
      then neutral
      else if full && is_low_vix && is_vol_compressed && is_leverage_expanding
      then risk_on_trending
      else if full && is_low_vix && is_leverage_expanding
      then risk_on_trending
      else if not full && is_low_vix && is_vol_compressed
      then risk_on_trending
      else if is_moderate_vix && is_vol_elevated
      then risk_on_choppy
      else neutral

  unfoldable pub classify_regime : RegimeThresholds F → String → Signals F → Regime
  unfolding panic_regime calm_regime
  classify_regime t mode s =
      let full = is_full mode s in
      if above s.vix_close t.vix_panic
      then panic_regime t full s
      else if above s.vix_close t.vix_defensive
      then risk_off_defensive
      else if above s.hy_spread t.hy_spread_defensive
      then risk_off_defensive
      else if at_least s.hy_spread t.hy_spread_neutral
      then neutral
      else calm_regime t full s

-- a row of a series
pub record Entry {ℓ} (F : Type ℓ) : Type ℓ where
  pub date : String
  pub value : F

module _ {ℓ} {F : Type ℓ} where
  -- `series[i]`
  abbrev pub get_elem? : List (Entry F) → ℕ → Option (Entry F)
  get_elem? [] i = none
  get_elem? (e ∷ es) zero = some e
  get_elem? (e ∷ es) (suc i) = get_elem? es i

  -- The loop. `hi` is one more than in the code, so that it stays a natural number: the loop runs while
  -- lo < hi, and mid = (lo + hi - 1) // 2. An index out of range would raise, and gives `none`.
  unfoldable pub search : ℕ → List (Entry F) → String → ℕ → ℕ → Option F → Option (Option F)
  search zero series target lo hi result = if leb hi lo then some result else none
  search (suc fuel) series target lo hi result =
      let mid = (lo + hi - 1) / 2 in
      if leb hi lo then some result else elim (get_elem? series mid) [
        | none ↦ none
        | some e ↦
            let right = search fuel series target (mid + 1) hi (some e.value) in
            let left = search fuel series target lo mid result in
            if text_le e.date target then right else left
      ]

  -- The outer option is `none` if the loop ran out of fuel or left the list.
  unfoldable pub lookup_nearest : List (Entry F) → String → Option (Option F)
  unfolding search
  lookup_nearest series target = search (length series) series target 0 (length series) none

-- `_compute_stability`: the count of the labels at the front that equal the label
unfoldable pub stability : String → List String → ℕ
stability label [] = 0
stability label (l ∷ ls) = let rest = stability label ls in if l == label then rest + 1 else 0

abbrev pub confidence : ℕ → String
confidence count = if leb 10 count then "high" else if leb 5 count then "medium" else "low"
