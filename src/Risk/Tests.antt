-- ===== src/Risk/Tests.antt =====
-- The calculator at a concrete desk, in thousandths: an equity of 10,000, one percent at risk, a long
-- entry at 100 with its stop at 98.
use quantamental_engine.Base.{
  ℕ, ◌<◌, true, false, none, some, List, [], ◌∷◌, ◌++◌, filter, ◌≡◌, refl, arith, All, or_else,
  length, ◌↔◌,
}
use quantamental_engine.Base.Int.{ℤ, pos, quot, ◌*ℤ◌, ◌+ℤ◌, ◌-ℤ◌}
use quantamental_engine.Float.{◌≼◌, ◌≺◌, nought, feq}
use quantamental_engine.Float.Fixed.{
  fixed, fixed-IsMonotone, fixed-IsArithmetic, literal, times, divide,
}
use quantamental_engine.Drawdown.{ok}
use quantamental_engine.Gate.{evaluate}
use quantamental_engine.Gate.Tests.{settings, logged}
use quantamental_engine.Contract.{ContractSpec, validate_and_snap_size}
use quantamental_engine.Contract.Fixed.{decimals, whole_div}
use quantamental_engine.Contract.Tests.{lots}
use quantamental_engine.Portfolio.{sum_from, sector_net}
use quantamental_engine.Risk.Volatility.{calculate_atr_coefficient}
use quantamental_engine.Risk.Volatility.Range.{IsMean}
use quantamental_engine.Risk.Book.{OrderBook, walk, calculate_slippage, new_walk, is_valid_level}
use quantamental_engine.Risk.Book.Walking.{walk_lem}
use quantamental_engine.Risk.Size.{
  Desk, calculate_position_size, is_too_volatile, stop_distance, risk_of,
}
use quantamental_engine.Risk.Size.Budget.{IsWithin, calculate_position_size_lem}
use quantamental_engine.Risk.Calculator.{
  Request, run_risk_calculator, check_correlated_limit, equity_of,
}
use quantamental_engine.Risk.Calculator.Eligible.{exposure_with, sector_with, eligible_lem}
use quantamental_engine.Risk.Calculator.Unblocked.{invalid_unblocked}

total : List ℤ → ℤ
total [] = pos 0
total (x ∷ xs) = x +ℤ total xs

mean : List ℤ → ℤ
mean xs = quot (total xs) (length xs)

total_nonneg : (xs : List ℤ) → All (λ x. nought ≼ x) xs → nought ≼ total xs
unfolding total literal
total_nonneg [] h = refl
total_nonneg (x ∷ xs) h = fixed-IsArithmetic.add_nonneg x (total xs) h.0 (total_nonneg xs h.1)

quot_nonneg : (z : ℤ) (k : ℕ) → nought ≼ z → nought ≼ quot z k
unfolding quot literal
quot_nonneg z k h = ground arith

mean-IsMean : IsMean mean
unfolding mean
mean-IsMean xs h = quot_nonneg (total xs) (length xs) (total_nonneg xs h)

abbrev book : OrderBook ℤ
book = record {
  asks = (pos 100000, pos 30000) ∷ (pos 100500, pos 0) ∷ (pos 101000, pos 100000) ∷ [];
  bids = (pos 99900, pos 30000) ∷ [];
}

abbrev desk : Desk ℤ
desk = record {
  reading = record {
    dd_state = ok;
    drawdown = pos 0;
    dd_manually_unblocked = [];
    settings = λ _. some settings;
    is_initializing = false;
    total_equity = pos 10000000;
    seconds_since_update = pos 5000;
    active_account_id = 1;
  };
  orders_capable = some true;
  ohlcv_cache = λ _. [];
  orderbook_cache = λ _. some book;
  positions = [];
  individual_risk_per_trade = pos 10;
  max_correlated_exposure = pos 1000;
  max_position_count = 3;
  max_exposure = pos 2000;
  current_regime = none;
  account_applied = some (pos 90000);
  monotonic = pos 100000;
  ws_is_stale = false;
  maker_fee = pos 0;
  taker_fee = pos 1;
}

abbrev request : Request ℤ
request = record {
  ticker = "SOLUSDT";
  average = pos 100000;
  sl_price = pos 98000;
  tp_price = pos 106000;
  tp_amount_pct = pos 100000;
  sl_amount_pct = pos 100000;
  order_type = "market";
  apply_regime_multiplier = true;
}

-- at least 100 contracts
abbrev large_lots : ContractSpec ℤ
large_lots = record lots { min_qty = pos 100000 }

size_snapped :
    (run_risk_calculator decimals mean desk (some lots) "id" request logged).0.size ≡ pos 49800
unfolding run_risk_calculator validate_and_snap_size literal times quot ◌*ℤ◌ whole_div
    calculate_position_size evaluate divide ◌-ℤ◌ calculate_atr_coefficient calculate_slippage ◌+ℤ◌
size_snapped = refl

-- The exchange would refuse the size, and the calculator calls it eligible.
eligible_anyway :
    (run_risk_calculator decimals mean desk (some large_lots) "id" request logged).0.eligible ≡ true
unfolding run_risk_calculator validate_and_snap_size literal times quot ◌*ℤ◌ whole_div
    calculate_position_size evaluate divide ◌-ℤ◌ calculate_atr_coefficient calculate_slippage ◌+ℤ◌
    sum_from check_correlated_limit sector_net
eligible_anyway = refl

-- The budget is spent on the first three levels, one of which has no quantity.
walk_lem_example :
    walk (book.asks ++ (pos 102000, pos 7000) ∷ []) (new_walk (pos 5000000))
    ≡ walk (filter is_valid_level book.asks) (new_walk (pos 5000000))
unfolding walk literal times quot ◌*ℤ◌ ◌-ℤ◌ ◌+ℤ◌ divide
walk_lem_example =
    walk_lem book.asks ((pos 102000, pos 7000) ∷ []) (new_walk (pos 5000000)) refl refl

calculate_position_size_lem_example :
    IsWithin
      (risk_of mean desk (pos 10000000))
      (stop_distance mean desk (pos 100000) (pos 98000))
      (pos 100000)
      (calculate_position_size mean desk "id" "SOLUSDT"
        (pos 100000)
        (pos 98000)
        (pos 10000000)
        "long"
        logged).0
unfolding literal
calculate_position_size_lem_example =
    calculate_position_size_lem fixed-IsMonotone mean mean-IsMean desk refl "id" "SOLUSDT"
      (pos 100000) (pos 98000) (pos 10000000) "long" logged refl

eligible_lem_example :
    let out = (run_risk_calculator decimals mean desk (some lots) "id" request logged).0 in
    (out.eligible ≡ true) ↔ (
      ((evaluate desk.reading logged).0.0 ≡ true)
      × (or_else desk.orders_capable true ≡ true)
      × (nought ≺ request.average)
      × (nought ≺ request.sl_price)
      × (feq (stop_distance mean desk request.average request.sl_price) nought ≡ false)
      × (is_too_volatile (calculate_atr_coefficient mean (desk.ohlcv_cache request.ticker)) ≡ false)
      × (length desk.positions < desk.max_position_count)
      × (exposure_with desk (fixed.mul out.size request.average) ≼ desk.max_exposure)
      × (sector_with desk request (fixed.mul out.size request.average)
          ≼ fixed.mul desk.max_correlated_exposure (equity_of desk)))
eligible_lem_example = eligible_lem mean desk decimals (some lots) "id" request logged

-- no step: the size as it is
abbrev any_size : ContractSpec ℤ
any_size = record lots { lot_step = pos 0 }

invalid_unblocked_example :
    run_risk_calculator decimals mean desk (some large_lots) "id" request logged
    ≡ run_risk_calculator decimals mean desk (some any_size) "id" request logged
unfolding run_risk_calculator validate_and_snap_size literal times quot ◌*ℤ◌ whole_div
    calculate_position_size evaluate divide ◌-ℤ◌ calculate_atr_coefficient calculate_slippage ◌+ℤ◌
invalid_unblocked_example =
    invalid_unblocked decimals mean desk "id" request logged (some large_lots) (some any_size) refl
      (refl, (pos 49850, refl, refl))
