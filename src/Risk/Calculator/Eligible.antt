-- ===== src/Risk/Calculator/Eligible.antt =====
-- When the calculator lets a position be entered.
use quantamental_engine.Base.{
  none, [], ◌∷◌, refl, ◌∙◌, ap, map, if◌then◌else◌, Bool-cases, inl, inr, ◌<◌, String, Bool, true,
  false, ◌&&◌, ◌||◌, not, Option, List, string_eq, or_else, length, ◌≡◌, ◌↔◌, arith,
}
use quantamental_engine.Float.{Float, ◌≼◌, ◌≺◌, nought, one, fabs, flt, fle, feq}
use quantamental_engine.Gate.{Logged, evaluate}
use quantamental_engine.Contract.{Decimals, ContractSpec}
use quantamental_engine.Risk.Volatility.{calculate_atr_coefficient}
use quantamental_engine.Risk.Size.{
  Desk, is_too_volatile, stop_distance, size_chain, sized, calculate_position_size,
}
use quantamental_engine.Position.{Position}
use quantamental_engine.Portfolio.{sector_net, sum, ratio}
use quantamental_engine.Portfolio.Figures.{get, total_from, nets_of, get-sector_net}
use quantamental_engine.Risk.Calculator.{
  sector_get, get_sector, get_correlated_exposure, Request, side_for, output_of, output_with,
  run_risk_calculator, equity_of, check_correlated_limit,
}

module _ {ℓ} {F : Type ℓ} ⦃f : Float F⦄ where
  sector_get-get :
      (key : String) (d : List (String × F)) → sector_get key d ≡ or_else (get key d) nought
  unfolding get
  sector_get-get key [] = refl
  sector_get-get key ((k, v) ∷ d) = ground (arith, sector_get-get key d)

  -- the sum of the signed values of the positions in the sector of a symbol, zero where there are none
  abbrev pub sector_value : String → List (Position F) → F
  sector_value ticker positions =
      or_else (total_from none (nets_of (get_sector ticker) positions)) nought

  sector_get-positions :
      (ticker : String) (positions : List (Position F))
      → sector_get (get_sector ticker) (get_correlated_exposure positions)
        ≡ sector_value ticker positions
  unfolding get_correlated_exposure get
  sector_get-positions ticker positions =
      sector_get-get (get_sector ticker) (sector_net positions [])
      ∙ ap (λ o. or_else o nought) (get-sector_net (get_sector ticker) positions [])

module _ {ℓ} {F : Type ℓ} ⦃f : Float F⦄ (desk : Desk F) where
  -- the exposure with a new position of a value
  abbrev pub exposure_with : F → F
  exposure_with value =
      ratio (f.add (sum (map (λ p. fabs p.position_value_usdt) desk.positions)) value)
        (equity_of desk)

  -- the net value of the sector with a new position of a value, taken absolutely
  abbrev pub sector_with : Request F → F → F
  sector_with q value = fabs (
      f.add (sector_value q.ticker desk.positions)
        (f.mul value (if flt q.average q.sl_price then f.neg one else one)))

  check-sector_with :
      (q : Request F) (size : F)
      → check_correlated_limit desk q.ticker size q.average (side_for q) (equity_of desk) ≡ (
        flt
            (f.mul desk.max_correlated_exposure (equity_of desk))
            (sector_with q (f.mul size q.average)),
        sector_with q (f.mul size q.average),
      )
  unfolding check_correlated_limit
  check-sector_with q size =
      rw (sector_get-positions q.ticker desk.positions)
        (elim (Bool-cases (flt q.average q.sl_price)) [
          | inl short ↦ rw short refl
          | inr long ↦ rw long refl
        ])

module _ {ℓ} {F : Type ℓ} ⦃f : Float F⦄ (mean : List F → F) (desk : Desk F) where
  -- the gates of the sizing
  abbrev pub sizing_gates : String → F → F → Logged → Bool
  sizing_gates ticker average sl_price log =
      (evaluate desk.reading log).0.0
      && or_else desk.orders_capable true
      && not (fle average nought || fle sl_price nought)
      && not (feq (stop_distance mean desk average sl_price) nought)
      && not (is_too_volatile (calculate_atr_coefficient mean (desk.ohlcv_cache ticker)))

  eligible-sizing_gates :
      (calc_id ticker : String) (average sl_price equity : F) (side : String) (log : Logged)
      → (calculate_position_size mean desk calc_id ticker average sl_price equity side
          log).0.eligible
        ≡ sizing_gates ticker average sl_price log
  unfolding calculate_position_size sized size_chain
  eligible-sizing_gates calc_id ticker average sl_price equity side log = ground arith

  module _ {D : Type ℓ} ⦃d : Float D⦄ (c : Decimals F D) (spec : Option (ContractSpec D)) where
    -- The calculator calls a position eligible exactly if the engine is ready, the adapter can place
    -- orders or cannot be had, both prices are positive and the stop away from the entry, the symbol is not
    -- too volatile, there is room for one more position, and with the value of the new one, its size times
    -- its entry price, two limits hold: that of the exposure, which is the sum of the absolute values of
    -- all positions and the new one over the equity, and that of the net value of its sector, which is
    -- the sum of the signed values of the sector's positions and the new one, counted negative if its
    -- stop is above its entry, taken absolutely, against the limit times the equity.
    pub eligible_lem :
        (calc_id : String) (q : Request F) (log : Logged)
        → let out = (run_risk_calculator c mean desk spec calc_id q log).0 in
          (out.eligible ≡ true) ↔ (
            ((evaluate desk.reading log).0.0 ≡ true)
            × (or_else desk.orders_capable true ≡ true)
            × (nought ≺ q.average)
            × (nought ≺ q.sl_price)
            × (feq (stop_distance mean desk q.average q.sl_price) nought ≡ false)
            × (is_too_volatile (calculate_atr_coefficient mean (desk.ohlcv_cache q.ticker)) ≡ false)
            × (length desk.positions < desk.max_position_count)
            × (exposure_with desk (f.mul out.size q.average) ≼ desk.max_exposure)
            × (sector_with desk q (f.mul out.size q.average)
                ≼ f.mul desk.max_correlated_exposure (equity_of desk)))
    unfolding run_risk_calculator output_of output_with
    eligible_lem calc_id q log = ground (
      arith,
      check-sector_with desk q (run_risk_calculator c mean desk spec calc_id q log).0.size,
      eligible-sizing_gates calc_id q.ticker q.average q.sl_price (equity_of desk) (side_for q) log,
    )
