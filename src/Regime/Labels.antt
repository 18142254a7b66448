-- ===== src/Regime/Labels.antt =====
-- What the labels rest on.
use quantamental_engine.Base.{
  String, Bool, true, false, ◌&&◌, ◌||◌, not, Option, string_eq, is_some, ◌≡◌, arith,
}
use quantamental_engine.Float.{Float}
use quantamental_engine.Regime.{
  Regime, risk_on_trending, risk_on_choppy, risk_off_panic, RegimeThresholds, Signals, above, below,
  at_least, is_full, classify_regime, panic_regime, calm_regime,
}

abbrev pub is_risk_on : Regime → Bool
is_risk_on risk_on_trending = true
is_risk_on risk_on_choppy = true
is_risk_on _ = false

abbrev pub is_trending : Regime → Bool
is_trending risk_on_trending = true
is_trending _ = false

abbrev pub is_panic : Regime → Bool
is_panic risk_off_panic = true
is_panic _ = false

module _ {ℓ} {F : Type ℓ} ⦃f : Float F⦄ (t : RegimeThresholds F) where
  -- A label that is risk-on, in whatever mode, rests on a known VIX below one of the two gates and not
  -- above the defensive line, and on a credit spread that is missing or below its own gate and that is
  -- neither above the defensive line nor at or above the neutral floor.
  pub risk_on_guarded :
      (mode : String) (s : Signals F)
      → is_risk_on (classify_regime t mode s) ≡ true
      → ((below s.vix_close t.vix_risk_on || below s.vix_close t.vix_choppy) ≡ true)
        × (above s.vix_close t.vix_panic ≡ false)
        × (above s.vix_close t.vix_defensive ≡ false)
        × (above s.hy_spread t.hy_spread_defensive ≡ false)
        × (at_least s.hy_spread t.hy_spread_neutral ≡ false)
        × ((not (is_some s.hy_spread) || below s.hy_spread t.hy_spread_risk_on) ≡ true)
  unfolding classify_regime panic_regime calm_regime
  risk_on_guarded mode s h = ground arith

  -- Panic is called exactly if the VIX is above its panic line and the credit spread confirms it at
  -- either of its two lines, or in full mode a funding rate below the panic line does.
  pub panic_lem :
      (mode : String) (s : Signals F)
      → is_panic (classify_regime t mode s) ≡ (
          above s.vix_close t.vix_panic
          && (above s.hy_spread t.hy_spread_panic
              || above s.hy_spread t.hy_spread_defensive
              || (is_full mode s && below s.avg_funding t.funding_panic)))
  unfolding classify_regime panic_regime calm_regime
  panic_lem mode s = ground arith

  -- In full mode, whether the label is trending does not depend on the volatility ratio: the test that
  -- asks for compressed volatility is followed by one that does not.
  pub trending_without_vol :
      (s : Signals F) (r r' : Option F)
      → is_trending (classify_regime t "full" (record s { btc_rvol_ratio = r }))
        ≡ is_trending (classify_regime t "full" (record s { btc_rvol_ratio = r' }))
  unfolding classify_regime panic_regime calm_regime
  trending_without_vol s r r' = ground arith
