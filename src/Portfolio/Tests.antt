-- ===== src/Portfolio/Tests.antt =====
-- The recalculation at concrete inputs, in thousandths: an account that was at its limit.
use quantamental_engine.Base.{
  ℕ, String, false, none, some, [], ◌∷◌, ◌≡◌, refl, ◌⊎◌, contains, nat_eq,
}
use quantamental_engine.Base.Int.{ℤ, pos, ◌-ℤ◌, ◌*ℤ◌, quot}
use quantamental_engine.Float.Fixed.{fixed, fixed-IsOrdered, literal, times, divide}
use quantamental_engine.Position.{Position, fresh}
use quantamental_engine.Drawdown.{warning, limit, dd_state_from_drawdown}
use quantamental_engine.State.{new_account, new_portfolio}
use quantamental_engine.App.{App, Thresholds, no_version}
use quantamental_engine.Gate.{AccountSettings, check_dd_gate_for_order, is_new_entry}
use quantamental_engine.Gate.Tests.{settings, entry, logged}
use quantamental_engine.Portfolio.{Tables, recalculate_portfolio, fetch_rolling_peak_equity}
use quantamental_engine.Portfolio.Episodes.{
  current_dd, reading_of, recalculate_portfolio-blocks, release_clears, restart_forgets,
}

abbrev thresholds : Thresholds ℤ
thresholds = record {
  max_w_loss_percent = pos 50;
  weekly_loss_limit_pct = pos 950;
  weekly_loss_warning_pct = pos 800;
  max_dd_percent = pos 100;
  max_dd_limit_pct = pos 950;
  max_dd_warning_pct = pos 800;
}

abbrev enforced : AccountSettings ℤ
enforced = record settings { dd_enforcement_mode = "enforced" }

-- The window has seen 1000.
abbrev pub tables : Tables ℤ
tables = record {
  settings = λ _. some enforced;
  has_gaps = λ _ _. false;
  max_equity = λ _ _. some (some (pos 1000000));
}

abbrev coin : String → String → ℕ → Position ℤ
coin sector direction value = record fresh {
  sector = sector;
  direction = direction;
  position_value_usdt = pos value;
}

abbrev pub app_at : ℕ → App ℤ
app_at equity = record {
  positions = coin "L1" "LONG" 500 ∷ coin "Meme" "SHORT" 40 ∷ coin "L1" "SHORT" 200 ∷ [];
  positions_version = no_version;
  account_version = no_version;
  account_state = record new_account { total_equity = pos equity; balance_usdt = pos equity };
  portfolio = new_portfolio;
  params = thresholds;
  active_account_id = 1;
  mark_price_cache = λ _. none;
  dd_episode_peaks = λ _. some (pos 100);
  dd_previous_states = λ _. some limit;
  dd_would_have_blocked_logged = [];
  dd_manually_unblocked = [];
}

-- The drawdown is 0.06: below the limit, and above the recovery level 0.05 of the episode's 0.1.
recalculate_portfolio-blocks_example :
    (check_dd_gate_for_order 1 entry
      (reading_of tables false (pos 5000) (recalculate_portfolio tables (app_at 940000)))
      logged).0.0
    ≡ false
unfolding is_new_entry new_account fetch_rolling_peak_equity literal times divide quot ◌-ℤ◌ ◌*ℤ◌
recalculate_portfolio-blocks_example =
    recalculate_portfolio-blocks tables (app_at 940000) enforced (pos 40) (pos 80) (pos 100)
      (pos 5000) false entry logged fixed-IsOrdered (refl, refl, refl) refl refl refl refl refl refl
      refl

release_clears_example :
    let after =
      recalculate_portfolio tables (record (app_at 960000) { dd_manually_unblocked = 1 ∷ [] }) in
    (after.portfolio.dd_state ≡ limit)
    ⊎ ((contains 1 after.dd_manually_unblocked ≡ false)
        × (contains 1 after.dd_would_have_blocked_logged ≡ false))
release_clears_example =
    release_clears tables (record (app_at 960000) { dd_manually_unblocked = 1 ∷ [] }) enforced
      (pos 40) (pos 80) (refl, refl, refl) refl

abbrev restarted : App ℤ
restarted = record (app_at 940000) { dd_previous_states = λ _. none; dd_episode_peaks = λ _. none }

restart_forgets_example :
    (recalculate_portfolio tables restarted).portfolio.dd_state
    ≡ dd_state_from_drawdown (current_dd tables enforced restarted) (pos 40) (pos 80)
restart_forgets_example =
    restart_forgets tables restarted enforced (pos 40) (pos 80) (refl, refl, refl) refl

-- That is a warning, where the engine that kept running holds the limit.
restarted_state :
    dd_state_from_drawdown (current_dd tables enforced restarted) (pos 40) (pos 80) ≡ warning
unfolding dd_state_from_drawdown new_account fetch_rolling_peak_equity literal divide quot ◌-ℤ◌ ◌*ℤ◌
restarted_state = refl
