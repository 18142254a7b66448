-- ===== src/Risk/Calculator.antt =====
-- core/risk_engine.py, run_risk_calculator, with the sectors of config.py that it counts exposure by.
pub mod Eligible
pub mod Unblocked
use quantamental_engine.Base.{
  ℕ, ◌+◌, ◌-◌, ◌≤◌, String, Bool, true, false, ◌&&◌, ◌||◌, not, Option, none, some, List, [], ◌∷◌,
  ◌==◌, string_eq, contains, if◌then◌else◌, or_else, ltb, leb, length, is_empty, filter, map, zero,
  suc, drop,
}
use quantamental_engine.Float.{Float, nought, one, fle, flt, feq, fmax, fmin, fabs, truthy}
use quantamental_engine.Gate.{Reading, Logged, Reason, evaluate, lower_in}
use quantamental_engine.Contract.{Decimals, ContractSpec, ValidationResult, validate_and_snap_size}
use quantamental_engine.Position.{Position}
use quantamental_engine.Portfolio.{sector_net, sum}
use quantamental_engine.Risk.Volatility.{
  Candle, AtrCategory, unknown, too_volatile, volatile, normal, not_volatile, AtrCoefficient,
  no_coefficient, calculate_atr_coefficient,
}
use quantamental_engine.Risk.Book.{OrderBook, calculate_slippage, calculate_one_percent_depth}
use quantamental_engine.Risk.Size.{Sizing, CurrentRegime, Desk, calculate_position_size}

-- config.py
abbrev pub big_two_crypto : List String
big_two_crypto = "BTCUSDT" ∷ "ETHUSDT" ∷ []

abbrev pub top_twenty_alts : List String
top_twenty_alts =
    "BNBUSDT" ∷ "XRPUSDT" ∷ "SOLUSDT" ∷ "ADAUSDT" ∷ "DOGEUSDT" ∷ "AVAXUSDT" ∷ "TRXUSDT" ∷ "DOTUSDT"
    ∷ "LINKUSDT" ∷ "MATICUSDT" ∷ "LTCUSDT" ∷ "BCHUSDT" ∷ "ATOMUSDT" ∷ "UNIUSDT" ∷ "ICPUSDT"
    ∷ "FILUSDT" ∷ "HBARUSDT" ∷ "APTUSDT" ∷ "ARBUSDT" ∷ "OPUSDT" ∷ "NEARUSDT" ∷ "INJUSDT" ∷ "SUIUSDT"
    ∷ "SEIUSDT" ∷ "TIAUSDT" ∷ []

abbrev pub commodities : List String
commodities = "XAUUSDT" ∷ "XAGUSDT" ∷ []

-- for symbols of ASCII
unfoldable pub get_sector : String → String
get_sector symbol =
    if lower_in symbol big_two_crypto
    then "big_two_crypto"
    else if lower_in symbol top_twenty_alts
    then "top_twenty_alts"
    else if lower_in symbol commodities
    then "commodities"
    else "other_alts"

module _ {ℓ} {F : Type ℓ} ⦃f : Float F⦄ where
  abbrev pub sector_get : String → List (String × F) → F
  sector_get key [] = nought
  sector_get key ((k, v) ∷ d) = let rest = sector_get key d in if k == key then v else rest

  unfoldable pub get_correlated_exposure : List (Position F) → List (String × F)
  get_correlated_exposure positions = sector_net positions []

  -- (exceeds_limit, new_sector_exposure_abs)
  unfoldable pub check_correlated_limit : Desk F → String → F → F → String → F → Bool × F
  unfolding get_correlated_exposure
  check_correlated_limit desk symbol size average side total_equity =
      let max_corr = f.mul desk.max_correlated_exposure total_equity in
      let existing_net = sector_get (get_sector symbol) (get_correlated_exposure desk.positions) in
      let sign = if side == "long" then one else f.neg one in
      let new_net_abs = fabs (f.add existing_net (f.mul (f.mul size average) sign)) in
      (flt max_corr new_net_abs, new_net_abs)

pub record Request {ℓ} (F : Type ℓ) : Type ℓ where
  pub ticker : String
  pub average : F
  pub sl_price : F
  pub tp_price : F
  pub tp_amount_pct : F
  pub sl_amount_pct : F
  pub order_type : String
  pub apply_regime_multiplier : Bool

-- The output, apart from the inputs it repeats and the columns that `sizing` holds.
pub record Output {ℓ} (F : Type ℓ) : Type ℓ where
  pub sizing : Sizing F
  pub side : String
  pub one_percent_depth : F
  pub best_bid : F
  pub best_ask : F
  pub regime_label : String
  pub regime_multiplier : F
  pub regime_stale : Bool
  pub size_raw : F
  pub size : F
  pub notional : F
  pub tp_usdt : F
  pub sl_usdt : F
  pub est_slippage_usdt : F
  pub est_profit : F
  pub est_loss : F
  pub est_r : F
  pub est_exposure : F
  pub correlated_exposure : List (String × F)
  pub new_sector_exposure : F
  pub exceeds_corr_limit : Bool
  pub at_max_positions : Bool
  pub at_max_exposure : Bool
  pub eligible : Bool
  pub equity_stale : Bool
  pub total_equity : F
  pub fee_rate : F

module _ {ℓ} {F : Type ℓ} ⦃f : Float F⦄ where
  abbrev pub best_of : List (F × F) → F
  best_of [] = nought
  best_of ((price, qty) ∷ ls) = price

  abbrev pub asks_of : Option (OrderBook F) → List (F × F)
  asks_of none = []
  asks_of (some ob) = ob.asks

  abbrev pub bids_of : Option (OrderBook F) → List (F × F)
  bids_of none = []
  bids_of (some ob) = ob.bids

  -- (label, multiplier, stale): a stale regime, or none, counts as neutral in size
  abbrev pub regime_of : Option (CurrentRegime F) → Bool → String × F × Bool
  regime_of none apply = ("neutral", one, true)
  regime_of (some r) apply =
      (r.label, (if apply && not r.is_stale then r.multiplier else one), r.is_stale)

  abbrev pub is_equity_stale : Desk F → Bool
  is_equity_stale desk = elim desk.account_applied [
    | none ↦ desk.ws_is_stale
    | some applied ↦ not (flt nought applied && flt (f.sub desk.monotonic applied) (f.lit 30 0))
  ]

  abbrev pub equity_of : Desk F → F
  equity_of desk = if flt nought desk.reading.total_equity then desk.reading.total_equity else one

  abbrev pub side_for : Request F → String
  side_for q = if flt q.average q.sl_price then "short" else "long"

  -- the size before the contract check
  abbrev pub wanted_size : Desk F → Request F → Sizing F → F
  wanted_size desk q sizing =
      f.mul sizing.size (regime_of desk.current_regime q.apply_regime_multiplier).1

  -- the output for the sizing and the final size
  unfoldable pub output_with : Desk F → Request F → String → Sizing F → F → Output F
  output_with desk q side sizing size =
      let total_equity = equity_of desk in
      let (regime_label, regime_mult, regime_stale) =
        regime_of desk.current_regime q.apply_regime_multiplier in
      let est_size = f.mul size q.average in
      let hundred = f.lit 100 0 in
      let tp_amount = f.mul est_size (f.div q.tp_amount_pct hundred) in
      let sl_amount = f.mul est_size (f.div q.sl_amount_pct hundred) in
      let two = f.lit 2 0 in
      let tp_usdt =
        if flt nought q.average && flt nought q.tp_price
        then f.mul
            (fabs
              (if side == "long" then f.sub q.tp_price q.average else f.sub q.average q.tp_price))
            (f.div tp_amount q.average)
        else nought in
      let sl_usdt =
        if flt nought q.average
        then f.mul
            (fabs
              (if side == "long" then f.sub q.average q.sl_price else f.sub q.sl_price q.average))
            (f.div sl_amount q.average)
        else nought in
      let est_slip_usdt = f.mul sizing.est_slippage est_size in
      let fee_rate =
        if q.order_type == "market" || q.order_type == "stop"
        then desk.taker_fee
        else desk.maker_fee in
      let fee_cost = f.mul (f.mul two fee_rate) est_size in
      let est_profit = f.sub (f.sub tp_usdt fee_cost) (f.mul two est_slip_usdt) in
      let est_loss = f.add (f.add sl_usdt fee_cost) (f.mul two est_slip_usdt) in
      let total_notional = sum (map (λ p. fabs p.position_value_usdt) desk.positions) in
      let est_exposure =
        if flt nought total_equity
        then f.div (f.add total_notional est_size) total_equity
        else nought in
      let (exceeds_corr, new_sect_exp) =
        check_correlated_limit desk q.ticker size q.average side total_equity in
      let at_max_positions = leb desk.max_position_count (length desk.positions) in
      let at_max_exposure = flt desk.max_exposure est_exposure in
      let ob = desk.orderbook_cache q.ticker in
      record {
        sizing = sizing;
        side = side;
        one_percent_depth = calculate_one_percent_depth ob q.average;
        best_bid = best_of (bids_of ob);
        best_ask = best_of (asks_of ob);
        regime_label = regime_label;
        regime_multiplier = regime_mult;
        regime_stale = regime_stale;
        size_raw = sizing.size;
        size = size;
        notional = est_size;
        tp_usdt = tp_usdt;
        sl_usdt = sl_usdt;
        est_slippage_usdt = est_slip_usdt;
        est_profit = est_profit;
        est_loss = est_loss;
        est_r = if flt nought est_loss then f.div est_profit est_loss else nought;
        est_exposure = est_exposure;
        correlated_exposure = get_correlated_exposure desk.positions;
        new_sector_exposure = new_sect_exp;
        exceeds_corr_limit = exceeds_corr;
        at_max_positions = at_max_positions;
        at_max_exposure = at_max_exposure;
        eligible =
            sizing.eligible && not at_max_positions && not at_max_exposure && not exceeds_corr;
        equity_stale = is_equity_stale desk;
        total_equity = total_equity;
        fee_rate = fee_rate;
      }

  module _ {D : Type ℓ} ⦃d : Float D⦄ (c : Decimals F D) where
    -- The size once the contract check has answered. Where the answer is not valid, the code assigns to
    -- `result`, a name that the function does not define: the NameError is caught by the handler around
    -- the check, and nothing is changed.
    unfoldable pub after_validation : F → ValidationResult D → F
    after_validation size vr = elim vr.snapped_size [
      | none ↦ size
      | some q ↦ if vr.valid && not (feq (c.to_float q) size) then c.to_float q else size
    ]

    module _ (mean : List F → F) (desk : Desk F) (spec : Option (ContractSpec D)) where
      unfoldable pub output_of : Request F → String → Sizing F → Output F
      unfolding after_validation output_with
      output_of q side sizing =
          let wanted = wanted_size desk q sizing in
          output_with desk q side sizing
            (after_validation wanted (validate_and_snap_size c spec wanted sizing.est_fill_price))

      unfoldable pub run_risk_calculator : String → Request F → Logged → Output F × Logged
      unfolding output_of
      run_risk_calculator calc_id q log =
          let side = side_for q in
          let (sizing, log') =
            calculate_position_size mean desk calc_id q.ticker q.average q.sl_price (equity_of desk)
              side log in
          (output_of q side sizing, log')
