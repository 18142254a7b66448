-- ===== src/RateLimit.antt =====
-- `WeightTracker` of core/rate_limit/weight_tracker.py. A fraction of the budget is a pair of numbers,
-- and a threshold is in hundredths: true division rounds to the nearest double, so that it compares
-- with such a threshold as the exact fraction does while weights stay below 10 ^ 12. A handler takes
-- each reading of the clock as an argument.
pub mod Budget
mod Tests
use quantamental_engine.Base.{
  ℕ, ◌+◌, ◌-◌, ◌*◌, ◌/◌, max, String, Bool, true, false, not, Option, none, some, ◌==◌, nat_eq,
  string_eq, if◌then◌else◌, leb, ltb, List, [], ◌∷◌,
}

pub record WeightBudget : Type 0 where
  pub current_weight : ℕ
  pub window_start_ms : ℕ

pub record WeightTracker : Type 0 where
  pub max_weight : ℕ
  pub window_seconds : ℕ
  pub cost_map : Option (String → Option ℕ)
  pub budget : WeightBudget

-- numerator and denominator
abbrev pub Fraction : Type 0
Fraction = ℕ × ℕ

pub record ReserveResult : Type 0 where
  pub ok : Bool
  pub throttled : Bool
  pub blocked : Bool
  pub delay_ms : ℕ
  pub current_pct : Fraction
  pub priority : String

-- (throttle_pct, block_pct) in hundredths
unfoldable pub priority_thresholds : String → ℕ × ℕ
priority_thresholds priority =
    if priority == "urgent"
    then (95, 101)
    else if priority == "normal"
    then (85, 95)
    else if priority == "background"
    then (70, 85)
    else (85, 95)

-- `int(base_delay * multiplier)`
unfoldable pub scaled_delay : String → ℕ → ℕ
scaled_delay priority base_delay =
    if priority == "urgent"
    then base_delay / 4
    else if priority == "background"
    then base_delay * 2
    else base_delay

unfoldable pub binance_weights : String → Option ℕ
binance_weights endpoint =
    if endpoint == "fetch_account"
    then some 5
    else if endpoint == "fetch_positions"
    then some 5
    else if endpoint == "fetch_open_orders"
    then some 40
    else if endpoint == "fetch_income"
    then some 30
    else if endpoint == "fetch_ohlcv"
    then some 5
    else if endpoint == "fetch_orderbook"
    then some 10
    else if endpoint == "fetch_mark_price"
    then some 1
    else if endpoint == "fetch_server_time"
    then some 1
    else if endpoint == "fetch_user_trades"
    then some 5
    else if endpoint == "fetch_exchange_trades"
    then some 5
    else if endpoint == "load_markets"
    then some 40
    else if endpoint == "fetch_funding_rates"
    then some 1
    else if endpoint == "fetch_price_extremes"
    then some 5
    else none

unfoldable pub estimate_cost : String → WeightTracker → ℕ
estimate_cost endpoint t = elim t.cost_map [
  | some costs ↦ elim (costs endpoint) [ some cost ↦ cost | none ↦ 1 ]
  | none ↦ elim (binance_weights endpoint) [ some cost ↦ cost | none ↦ 1 ]
]

-- `now - window_start_ms >= window_seconds * 1000`
unfoldable pub maybe_reset_window : ℕ → WeightTracker → WeightTracker
maybe_reset_window now t =
    if leb (t.budget.window_start_ms + t.window_seconds * 1000) now
    then record t { budget = record { current_weight = 0; window_start_ms = now } }
    else t

abbrev pub spent : WeightTracker → ℕ → WeightTracker
spent t weight = record t {
  budget = record { current_weight = weight; window_start_ms = t.budget.window_start_ms };
}

-- `w / max_weight if max_weight > 0 else 1.0`
abbrev pub fraction : ℕ → ℕ → Fraction
fraction weight max_weight = if ltb 0 max_weight then (weight, max_weight) else (1, 1)

-- a fraction against a threshold in hundredths: `pct >= t`
abbrev pub reaches : Fraction → ℕ → Bool
reaches pct t = leb (t * pct.1) (100 * pct.0)

-- The window as `reserve` finds it after its first two steps.
unfoldable pub opened : ℕ → ℕ → WeightTracker → WeightTracker
unfolding maybe_reset_window
opened reset_ms start_ms t =
    let u = maybe_reset_window reset_ms t in
    if u.budget.window_start_ms == 0
    then record u {
      budget = record { current_weight = u.budget.current_weight; window_start_ms = start_ms };
    }
    else u

unfoldable pub reserve : ℕ → ℕ → ℕ → ℕ → String → WeightTracker → ReserveResult × WeightTracker
unfolding opened priority_thresholds scaled_delay
reserve reset_ms start_ms delay_now cost priority t =
    let u = opened reset_ms start_ms t in
    let projected = u.budget.current_weight + cost in
    let pct = fraction projected u.max_weight in
    let (throttle_t, block_t) = priority_thresholds priority in
    let remaining = u.budget.window_start_ms + u.window_seconds * 1000 - delay_now in
    if reaches pct block_t
    then (
      record {
        ok = false;
        throttled = false;
        blocked = true;
        delay_ms = 0;
        current_pct = pct;
        priority = priority;
      },
      u,
    )
    else if reaches pct throttle_t
    then (
      record {
        ok = true;
        throttled = true;
        blocked = false;
        delay_ms = scaled_delay priority (max (remaining / 2) 500);
        current_pct = pct;
        priority = priority;
      },
      spent u projected,
    )
    else (
      record {
        ok = true;
        throttled = false;
        blocked = false;
        delay_ms = 0;
        current_pct = pct;
        priority = priority;
      },
      spent u projected,
    )

unfoldable pub reconcile : ℕ → ℕ → WeightTracker → WeightTracker
reconcile used_weight reset_time_ms t =
    let start = if not (reset_time_ms == 0) then reset_time_ms else t.budget.window_start_ms in
    record t { budget = record { current_weight = used_weight; window_start_ms = start } }

-- `current_pct()`, whose default is 0.0
unfoldable pub current_pct : ℕ → WeightTracker → Fraction × WeightTracker
unfolding maybe_reset_window
current_pct now t =
    let u = maybe_reset_window now t in
    ((if ltb 0 u.max_weight then (u.budget.current_weight, u.max_weight) else (0, 1)), u)
