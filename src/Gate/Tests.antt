-- ===== src/Gate/Tests.antt =====
-- The gates at concrete inputs.
use quantamental_engine.Base.{false, ◌||◌, none, some, [], ◌≡◌}
use quantamental_engine.Base.Int.{ℤ, pos}
use quantamental_engine.Float.Fixed.{fixed}
use quantamental_engine.Drawdown.{limit}
use quantamental_engine.Orders.Row.{OrderDict}
use quantamental_engine.Orders.Tests.{blank}
use quantamental_engine.Gate.{AccountSettings, Reading, Logged, check_dd_gate_for_order}
use quantamental_engine.Gate.Entries.{
  reduces_exposure, open_to_entries, check_dd_gate_for_order_lem,
}

abbrev pub settings : AccountSettings ℤ
settings = record {
  account_id = 1;
  timezone = "UTC";
  dd_rolling_window_days = 30;
  dd_warning_threshold = some (pos 40);
  dd_limit_threshold = some (pos 80);
  dd_recovery_threshold = pos 500;
  dd_enforcement_mode = "advisory";
  weekly_pnl_warning_threshold = none;
  weekly_pnl_limit_threshold = none;
  weekly_pnl_enforcement_mode = "advisory";
  strategy_preset = none;
  analytics_default_period = "monthly";
  week_start_dow = 1;
}

-- At the limit, in advisory mode.
abbrev reading : Reading ℤ
reading = record {
  dd_state = limit;
  drawdown = pos 100;
  dd_manually_unblocked = [];
  settings = λ _. some settings;
  is_initializing = false;
  total_equity = pos 1000;
  seconds_since_update = pos 5000;
  active_account_id = 1;
}

abbrev pub logged : Logged
logged = record { dd_would_have_blocked_logged = []; events = [] }

abbrev pub entry : OrderDict ℤ
entry = record blank { order_type = some "limit" }

check_dd_gate_for_order_lem_example :
    (check_dd_gate_for_order 1 entry reading logged).0.0
    ≡ (reduces_exposure entry || open_to_entries 1 reading)
check_dd_gate_for_order_lem_example = check_dd_gate_for_order_lem 1 entry reading logged
