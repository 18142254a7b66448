-- ===== src/State/Tests.antt =====
-- The state at concrete inputs, in thousandths.
use quantamental_engine.Base.{
  String, none, some, Option, [], ◌∷◌, ◌==◌, string_eq, if◌then◌else◌, ◌≡◌, refl,
}
use quantamental_engine.Base.Int.{ℤ, pos}
use quantamental_engine.Float.Fixed.{fixed, literal}
use quantamental_engine.Drawdown.{ok, limit}
use quantamental_engine.State.{
  new_account, new_portfolio, restore_from_snapshot, perform_bod_reset, Snapshot,
}
use quantamental_engine.State.Params.{
  Value, number, other, not_a_number, not_less, validate_params, param_bounds, check_all,
  check_bounds, check_value, check_pair, compare_values,
}

-- An exposure that is no number, and thresholds in the wrong order.
abbrev params : String → Option (Value ℤ)
params key =
    if key == "max_exposure"
    then some other
    else if key == "max_dd_warning_pct"
    then some (number (pos 900))
    else if key == "max_dd_limit_pct"
    then some (number (pos 800))
    else none

validate_runs :
    validate_params params
    ≡ not_a_number "max_exposure"
      ∷ not_less "max_dd_warning_pct" (pos 900) "max_dd_limit_pct" (pos 800)
      ∷ []
unfolding validate_params param_bounds check_all check_bounds check_value check_pair compare_values
    literal
validate_runs = refl

abbrev snapshot : Snapshot ℤ
snapshot = record {
  total_equity = some (pos 900);
  balance_usdt = none;
  bod_equity = none;
  sow_equity = none;
  max_total_equity = some (pos 1000);
  min_total_equity = none;
  drawdown = some (pos 100);
  dd_state = some limit;
  weekly_pnl_state = none;
}

restore_runs :
    let (a, p) = restore_from_snapshot snapshot (new_account, new_portfolio) in
    (p.dd_baseline_equity ≡ pos 900) × (p.dd_state ≡ limit) × (p.weekly_pnl_state ≡ ok)
unfolding restore_from_snapshot new_account new_portfolio literal
restore_runs = (refl, refl, refl)

reset_runs :
    let (a, p) =
      perform_bod_reset "2026-01-05" 0
        (restore_from_snapshot snapshot (new_account, new_portfolio)) in
    (a.sow_equity ≡ pos 900) × (a.max_total_equity ≡ pos 900) × (p.dd_state ≡ limit)
unfolding perform_bod_reset restore_from_snapshot new_account new_portfolio literal
reset_runs = (refl, refl, refl)
