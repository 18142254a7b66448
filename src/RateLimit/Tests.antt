-- ===== src/RateLimit/Tests.antt =====
-- The weight tracker at concrete inputs.
use quantamental_engine.Base.{
  ℕ, ◌+◌, ◌*◌, ◌&&◌, String, true, none, [], ◌∷◌, ◌≡◌, refl, arith, if◌then◌else◌, ltb, leb,
}
use quantamental_engine.RateLimit.{
  WeightTracker, priority_thresholds, reserve, opened, maybe_reset_window, scaled_delay,
  estimate_cost, binance_weights, reconcile, current_pct,
}
use quantamental_engine.RateLimit.Budget.{Request, send, run, IsBelow, reserve_lem, run-IsBelow}

abbrev tracker : WeightTracker
tracker = record {
  max_weight = 1200;
  window_seconds = 60;
  cost_map = none;
  budget = record { current_weight = 900; window_start_ms = 100000 };
}

abbrev request : String → ℕ → Request
request priority cost = record {
  reset_ms = 110000;
  start_ms = 110000;
  delay_now = 110000;
  cost = cost;
  priority = priority;
}

-- 900 + 120 of 1200 is 85 %: throttled for normal traffic, and refused for background traffic.
reserve_runs :
    let (answer, after) = send (request "normal" 120) tracker in
    (answer.ok ≡ true)
    × (answer.throttled ≡ true)
    × (answer.delay_ms ≡ 25000)
    × (after.budget.current_weight ≡ 1020)
    × ((send (request "background" 120) tracker).0.blocked ≡ true)
    × ((send (request "urgent" 330) tracker).0.blocked ≡ true)
unfolding reserve opened maybe_reset_window priority_thresholds scaled_delay
reserve_runs = (refl, refl, refl, refl, refl, refl)

estimate_runs :
    (estimate_cost "fetch_income" tracker ≡ 30) × (estimate_cost "fetch_depth" tracker ≡ 1)
unfolding estimate_cost binance_weights
estimate_runs = (refl, refl)

reconcile_runs :
    ((reconcile 1100 0 tracker).budget.window_start_ms ≡ 100000)
    × ((current_pct 160000 (reconcile 1100 0 tracker)).0 ≡ (0, 1200))
unfolding reconcile current_pct maybe_reset_window
reconcile_runs = (refl, refl)

reserve_lem_example :
    let u = opened 110000 110000 tracker in
    let projected = u.budget.current_weight + 120 in
    let (throttle_t, block_t) = priority_thresholds "normal" in
    let (answer, after) = send (request "normal" 120) tracker in
    (answer.ok ≡ ltb (100 * projected) (block_t * tracker.max_weight))
    × (after.budget.current_weight ≡ (if answer.ok then projected else u.budget.current_weight))
    × (answer.throttled ≡ (answer.ok && leb (throttle_t * tracker.max_weight) (100 * projected)))
    × (after.max_weight ≡ tracker.max_weight)
reserve_lem_example = reserve_lem (request "normal" 120) tracker (omega arith)

run-IsBelow_example :
    IsBelow 95
      (run (request "background" 100 ∷ request "normal" 150 ∷ request "normal" 200 ∷ []) tracker)
unfolding priority_thresholds
run-IsBelow_example =
    run-IsBelow 95 (request "background" 100 ∷ request "normal" 150 ∷ request "normal" 200 ∷ [])
      tracker (omega arith, (omega arith, (omega arith, tt))) (omega arith)
