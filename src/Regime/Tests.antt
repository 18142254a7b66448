-- ===== src/Regime/Tests.antt =====
-- The classifier and the search at concrete inputs, in thousandths.
use quantamental_engine.Base.{none, some, List, [], ◌∷◌, string_eq, ◌≡◌, refl}
use quantamental_engine.Base.Int.{ℤ, pos, negsuc}
use quantamental_engine.Base.Text.{text_le}
use quantamental_engine.Float.Fixed.{fixed, literal}
use quantamental_engine.Regime.{
  risk_on_trending, risk_on_choppy, risk_off_panic, RegimeThresholds, Signals, classify_regime,
  panic_regime, calm_regime, Entry, search, lookup_nearest, stability, confidence,
}
use quantamental_engine.Regime.Search.{latest, lookup_nearest_lem}

abbrev thresholds : RegimeThresholds ℤ
thresholds = record {
  vix_panic = pos 30000;
  hy_spread_panic = pos 5000;
  funding_panic = negsuc 9;
  hy_spread_defensive = pos 4500;
  vix_defensive = pos 25000;
  hy_spread_neutral = pos 4000;
  hy_spread_risk_on = pos 3500;
  vix_risk_on = pos 20000;
  rvol_ratio_trending = pos 1200;
  vix_choppy = pos 22000;
  rvol_ratio_choppy = pos 1300;
}

-- low VIX, narrow spreads, volatility elevated
abbrev mixed : Signals ℤ
mixed = record {
  vix_close = some (pos 15000);
  hy_spread = some (pos 3000);
  btc_rvol_ratio = some (pos 1500);
  agg_oi_change = none;
  avg_funding = none;
}

abbrev expanding : Signals ℤ
expanding = record mixed { agg_oi_change = some (pos 20); avg_funding = some (pos 1) }

abbrev crisis : Signals ℤ
crisis = record mixed { vix_close = some (pos 41000); hy_spread = some (pos 4700) }

mixed_choppy : classify_regime thresholds "auto" mixed ≡ risk_on_choppy
unfolding classify_regime calm_regime literal
mixed_choppy = refl

expanding_trending : classify_regime thresholds "auto" expanding ≡ risk_on_trending
unfolding classify_regime calm_regime literal
expanding_trending = refl

crisis_panics : classify_regime thresholds "macro_only" crisis ≡ risk_off_panic
unfolding classify_regime panic_regime
crisis_panics = refl

stability_run :
    confidence (stability "neutral" ("neutral" ∷ "neutral" ∷ "risk_on_choppy" ∷ [])) ≡ "low"
unfolding stability
stability_run = refl

abbrev series : List (Entry ℤ)
series =
    record { date = "2024-01-02"; value = pos 13 }
    ∷ record { date = "2024-01-05"; value = pos 17 }
    ∷ record { date = "2024-02-01"; value = pos 21 }
    ∷ []

lookup_run : lookup_nearest series "2024-01-31" ≡ some (some (pos 17))
unfolding lookup_nearest search text_le
lookup_run = refl

lookup_nearest_lem_example :
    lookup_nearest series "2024-01-31" ≡ some (latest "2024-01-31" series none)
unfolding text_le
lookup_nearest_lem_example =
    lookup_nearest_lem series "2024-01-31" ((refl, (refl, tt)), ((refl, tt), (tt, tt)))
