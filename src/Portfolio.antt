-- ===== src/Portfolio.antt =====
-- `DataCache._do_recalculate_portfolio` of core/data_cache.py: the figures of the portfolio, and the
-- rolling drawdown with its state. A sum is the plain left fold. What the tables hold is an argument:
-- the settings, whether the window has gaps, and the highest equity of the window.
pub mod Branches
pub mod Episodes
pub mod Figures
pub mod Tests
use quantamental_engine.Base.{
  ℕ, String, Bool, true, false, ◌&&◌, not, Option, none, some, List, [], ◌∷◌, ◌==◌, nat_eq,
  string_eq, if◌then◌else◌, or_else, map,
}
use quantamental_engine.Float.{Float, nought, one, fle, flt, fmax, fmin, fabs}
use quantamental_engine.Position.{Position}
use quantamental_engine.Drawdown.{DdState, ok, warning, limit, dd_state_beq, dd_state_with_recovery}
use quantamental_engine.State.{AccountState, PortfolioStats}
use quantamental_engine.Gate.{AccountSettings}
use quantamental_engine.App.{App, Thresholds, put, discard}

-- What the database answers.
pub record Tables {ℓ} (F : Type ℓ) : Type ℓ where
  -- `get_account_settings`; `none` where it raises
  pub settings : ℕ → Option (AccountSettings F)
  -- `detect_gaps(...)` finds one
  pub has_gaps : ℕ → ℕ → Bool
  -- SELECT MAX(total_equity): the outer `none` where the account has no database, the inner where
  -- there are no rows or the query fails
  pub max_equity : ℕ → ℕ → Option (Option F)

module _ {ℓ} {F : Type ℓ} ⦃f : Float F⦄ where
  -- the left fold of `sum`
  unfoldable pub sum_from : F → List F → F
  sum_from total [] = total
  sum_from total (x ∷ xs) = sum_from (f.add total x) xs

  abbrev pub sum : List F → F
  sum = sum_from nought

  unfoldable pub fetch_rolling_peak_equity : Option (Option F) → F → F
  fetch_rolling_peak_equity none current_equity = current_equity
  fetch_rolling_peak_equity (some row) current_equity = fmax (or_else row nought) current_equity

  abbrev pub net_value : Position F → F
  net_value p = if p.direction == "LONG" then p.position_value_usdt else f.neg p.position_value_usdt

  -- `d[key] = d.get(key, 0.0) + net` on a dictionary in insertion order
  unfoldable pub add_to : String → F → List (String × F) → List (String × F)
  add_to key net [] = (key, f.add nought net) ∷ []
  add_to key net ((k, v) ∷ d) =
      let rest = add_to key net d in if k == key then (k, f.add v net) ∷ d else (k, v) ∷ rest

  unfoldable pub sector_net : List (Position F) → List (String × F) → List (String × F)
  unfolding add_to
  sector_net [] d = d
  sector_net (p ∷ ps) d = sector_net ps (add_to p.sector (net_value p) d)

  -- `x / y if y > 0 else 0`
  abbrev pub ratio : F → F → F
  ratio x y = if flt nought y then f.div x y else nought

  -- The figures, up to the state of the weekly loss.
  unfoldable pub figures : App F → App F
  unfolding sum_from sector_net
  figures app =
      let acc = app.account_state in
      let pf = app.portfolio in
      let prm = app.params in
      let pos = app.positions in
      let total_equity = acc.total_equity in
      let bod_eq = if flt nought acc.bod_equity then acc.bod_equity else total_equity in
      let daily_pnl = f.sub total_equity bod_eq in
      let sow_eq = if flt nought acc.sow_equity then acc.sow_equity else total_equity in
      let weekly_pnl = f.sub total_equity sow_eq in
      let weekly_pct = ratio weekly_pnl sow_eq in
      let max_eq = fmax acc.max_total_equity total_equity in
      let weekly_loss_pct = f.neg weekly_pct in
      let w_ratio = ratio weekly_loss_pct prm.max_w_loss_percent in
      record app {
        account_state = record acc {
          total_tp_usdt = sum (map (λ p. p.individual_tp_usdt) pos);
          total_sl_usdt = sum (map (λ p. p.individual_sl_usdt) pos);
          daily_pnl = daily_pnl;
          daily_pnl_percent = ratio daily_pnl bod_eq;
          max_total_equity = max_eq;
          min_total_equity =
              if flt nought acc.min_total_equity
              then fmin acc.min_total_equity total_equity
              else total_equity;
        };
        portfolio = record pf {
          total_exposure = ratio (sum (map (λ p. fabs p.position_value_usdt) pos)) total_equity;
          total_correlated_exposure = sector_net pos [];
          total_weekly_pnl = weekly_pnl;
          total_weekly_pnl_percent = weekly_pct;
          drawdown = ratio (f.sub max_eq total_equity) max_eq;
          weekly_pnl_state =
              if flt nought weekly_loss_pct && fle prm.weekly_loss_limit_pct w_ratio
              then limit
              else if flt nought weekly_loss_pct && fle prm.weekly_loss_warning_pct w_ratio
              then warning
              else ok;
        };
      }

  -- The fallback of `except Exception`.
  unfoldable pub legacy_dd_state : App F → DdState
  legacy_dd_state app =
      let dd_ratio = ratio app.portfolio.drawdown app.params.max_dd_percent in
      if fle app.params.max_dd_limit_pct dd_ratio
      then limit
      else if fle app.params.max_dd_warning_pct dd_ratio
      then warning
      else ok

  abbrev pub rolling_dd : F → F → F
  rolling_dd rolling_peak total_equity =
      fmax (ratio (f.sub rolling_peak total_equity) rolling_peak) nought

  -- The rolling drawdown under given thresholds, and the episode that it belongs to.
  unfoldable pub rolling : Tables F → AccountSettings F → F → F → App F → App F
  unfolding fetch_rolling_peak_equity
  rolling tables s warn_t limit_t app =
      let aid = app.active_account_id in
      let days = s.dd_rolling_window_days in
      let total_equity = app.account_state.total_equity in
      let rolling_peak = fetch_rolling_peak_equity (tables.max_equity aid days) total_equity in
      let dd = rolling_dd rolling_peak total_equity in
      let prev_state = or_else (app.dd_previous_states aid) ok in
      let ep_peak = or_else (app.dd_episode_peaks aid) dd in
      let (new_state, new_ep_peak) =
        dd_state_with_recovery prev_state dd ep_peak warn_t limit_t s.dd_recovery_threshold in
      let leaves_limit = dd_state_beq prev_state limit && not (dd_state_beq new_state limit) in
      record app {
        portfolio = record app.portfolio {
          dd_degraded = tables.has_gaps aid days;
          drawdown = dd;
          dd_state = new_state;
        };
        dd_episode_peaks = put aid new_ep_peak app.dd_episode_peaks;
        dd_previous_states = put aid new_state app.dd_previous_states;
        dd_would_have_blocked_logged =
            if leaves_limit
            then discard aid app.dd_would_have_blocked_logged
            else app.dd_would_have_blocked_logged;
        dd_manually_unblocked =
            if leaves_limit
            then discard aid app.dd_manually_unblocked
            else app.dd_manually_unblocked;
      }

  abbrev pub with_dd_state : DdState → App F → App F
  with_dd_state s app = record app { portfolio = record app.portfolio { dd_state = s } }

  -- `if warn_t is not None and limit_t is not None`
  unfoldable pub dd_by_thresholds :
      Tables F → AccountSettings F → Option F → Option F → App F → App F
  unfolding rolling
  dd_by_thresholds tables s (some warn_t) (some limit_t) app = rolling tables s warn_t limit_t app
  dd_by_thresholds tables s (some _) none app = with_dd_state ok app
  dd_by_thresholds tables s none _ app = with_dd_state ok app

  unfoldable pub dd_by_settings : Tables F → Option (AccountSettings F) → App F → App F
  unfolding legacy_dd_state dd_by_thresholds
  dd_by_settings tables none app = with_dd_state (legacy_dd_state app) app
  dd_by_settings tables (some s) app =
      dd_by_thresholds tables s s.dd_warning_threshold s.dd_limit_threshold app

  unfoldable pub recalculate_portfolio : Tables F → App F → App F
  unfolding figures dd_by_settings
  recalculate_portfolio tables app =
      dd_by_settings tables (tables.settings app.active_account_id) (figures app)
