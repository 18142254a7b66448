-- ===== src/Risk/Size.antt =====
-- core/risk_engine.py, calculate_position_size: its gates and the chain of steps. What it reads of
-- `app_state` is `Desk`.
pub mod Budget
use quantamental_engine.Base.{
  ℕ, ◌+◌, ◌-◌, ◌≤◌, String, Bool, true, false, ◌&&◌, ◌||◌, not, Option, none, some, List, [], ◌∷◌,
  ◌==◌, string_eq, contains, if◌then◌else◌, or_else, ltb, leb, length, is_empty, filter, map, zero,
  suc, drop,
}
use quantamental_engine.Float.{Float, nought, one, fle, flt, feq, fmax, fmin, fabs, truthy}
use quantamental_engine.Gate.{Reading, Logged, Reason, evaluate, lower_in}
use quantamental_engine.Contract.{Decimals, ContractSpec, ValidationResult, validate_and_snap_size}
use quantamental_engine.Position.{Position}
use quantamental_engine.Portfolio.{sector_net, sum}
use quantamental_engine.Risk.Volatility.{
  Candle, AtrCategory, unknown, too_volatile, volatile, normal, not_volatile, AtrCoefficient,
  no_coefficient, calculate_atr_coefficient,
}
use quantamental_engine.Risk.Book.{OrderBook, calculate_slippage, calculate_one_percent_depth}

-- why a size is refused
pub data Refusal {ℓ} (F : Type ℓ) : Type ℓ where
  engine_not_ready : Option (Reason F) → Refusal F
  no_order_capability invalid_price zero_risk_distance excessive_volatility : Refusal F

pub record Sizing {ℓ} (F : Type ℓ) : Type ℓ where
  pub calc_id : String
  pub coefficient : AtrCoefficient F
  pub risk_usdt : F
  pub base_size : F
  pub est_fill_price : F
  pub est_slippage : F
  pub effective_entry : F
  pub size : F
  pub eligible : Bool
  pub ineligible_reason : Option (Refusal F)

-- `app_state.current_regime`, with its `is_stale`
pub record CurrentRegime {ℓ} (F : Type ℓ) : Type ℓ where
  pub label : String
  pub multiplier : F
  pub is_stale : Bool

-- What the calculator reads. `orders_capable` is `none` where the adapter cannot be had;
-- `account_applied` is the time of the cache's last account update, `none` without a cache.
pub record Desk {ℓ} (F : Type ℓ) : Type ℓ where
  pub reading : Reading F
  pub orders_capable : Option Bool
  pub ohlcv_cache : String → List (Candle F)
  pub orderbook_cache : String → Option (OrderBook F)
  pub positions : List (Position F)
  pub individual_risk_per_trade : F
  pub max_correlated_exposure : F
  pub max_position_count : ℕ
  pub max_exposure : F
  pub current_regime : Option (CurrentRegime F)
  pub account_applied : Option F
  pub monotonic : F
  pub ws_is_stale : Bool
  pub maker_fee : F
  pub taker_fee : F

module _ {ℓ} {F : Type ℓ} ⦃f : Float F⦄ where
  -- the result as it stands before the gates
  abbrev pub new_sizing : String → Sizing F
  new_sizing calc_id = record {
    calc_id = calc_id;
    coefficient = no_coefficient;
    risk_usdt = nought;
    base_size = nought;
    est_fill_price = nought;
    est_slippage = nought;
    effective_entry = one;
    size = nought;
    eligible = true;
    ineligible_reason = none;
  }

  abbrev pub refused : String → Refusal F → Sizing F
  refused calc_id why = record (new_sizing calc_id) {
    eligible = false;
    ineligible_reason = some why;
  }

  -- The coefficient that the size is taken by: none for a symbol that is too volatile, and full where it
  -- is not known.
  abbrev pub applied_coefficient : AtrCoefficient F → F
  applied_coefficient k = elim k.category [ too_volatile ↦ nought | _ ↦ or_else k.atr_c one ]

  abbrev pub is_too_volatile : AtrCoefficient F → Bool
  is_too_volatile k = elim k.category [ too_volatile ↦ true | _ ↦ false ]

  -- steps 1 to 8, past the gates: `k` is the coefficient, `slip` what `calculate_slippage` gives
  unfoldable pub size_chain : String → AtrCoefficient F → F → F → F → F × F → Sizing F
  size_chain calc_id k risk_usdt base_size average slip =
      let volatile_ = is_too_volatile k in
      let est_size = f.mul base_size (f.sub one slip.0) in
      record {
        calc_id = calc_id;
        coefficient = k;
        risk_usdt = risk_usdt;
        base_size = base_size;
        est_fill_price = slip.1;
        est_slippage = slip.0;
        effective_entry = f.sub one slip.0;
        size =
            if volatile_
            then nought
            else if flt nought average
            then f.div est_size average
            else nought;
        eligible = not volatile_;
        ineligible_reason = if volatile_ then some excessive_volatility else none;
      }

  module _ (mean : List F → F) (desk : Desk F) where
    -- `sl_pct`
    abbrev pub stop_distance : F → F → F
    stop_distance average sl_price = f.div (fabs (f.sub sl_price average)) average

    abbrev pub risk_of : F → F
    risk_of total_equity = f.mul desk.individual_risk_per_trade total_equity

    abbrev pub base_of : AtrCoefficient F → F → F → F
    base_of k risk_usdt sl_pct = f.div (f.mul (applied_coefficient k) risk_usdt) sl_pct

    unfoldable pub sized : String → String → F → F → F → String → Sizing F
    unfolding size_chain
    sized calc_id symbol average sl_price total_equity side =
        let k = calculate_atr_coefficient mean (desk.ohlcv_cache symbol) in
        let base_size = base_of k (risk_of total_equity) (stop_distance average sl_price) in
        size_chain calc_id k (risk_of total_equity) base_size average
          (calculate_slippage (desk.orderbook_cache symbol) side base_size average)

    unfoldable pub calculate_position_size :
        String → String → F → F → F → String → Logged → Sizing F × Logged
    unfolding sized
    calculate_position_size calc_id symbol average sl_price total_equity side log =
        let ((ready, reason), log') = evaluate desk.reading log in
        let capable = or_else desk.orders_capable true in
        let answer =
          if not ready
          then refused calc_id (engine_not_ready reason)
          else if not capable
          then refused calc_id no_order_capability
          else if fle average nought || fle sl_price nought
          then refused calc_id invalid_price
          else if feq (stop_distance average sl_price) nought
          then refused calc_id zero_risk_distance
          else sized calc_id symbol average sl_price total_equity side in
        (answer, log')
