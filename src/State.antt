-- ===== src/State.antt =====
-- core/state.py: the account, the portfolio, the parameters and their checks, and the writes of
-- `AppState` that restore them from a snapshot and reset them at the beginning of a day.
pub mod Params
mod Tests
use quantamental_engine.Base.{
  ℕ, String, Bool, true, false, Option, none, some, List, [], ◌∷◌, ◌==◌, nat_eq, string_eq,
  if◌then◌else◌, or_else,
}
use quantamental_engine.Float.{Float, nought, flt}
use quantamental_engine.Drawdown.{DdState, ok}

pub record AccountState {ℓ} (F : Type ℓ) : Type ℓ where
  pub balance_usdt : F
  pub available_margin : F
  pub total_equity : F
  pub total_unrealized : F
  pub total_realized : F
  pub total_position_value : F
  pub total_margin_used : F
  pub total_margin_ratio : F
  pub total_tp_usdt : F
  pub total_sl_usdt : F
  pub daily_unrealized : F
  pub daily_realized : F
  pub daily_pnl : F
  pub daily_pnl_percent : F
  pub bod_equity : F
  pub sow_equity : F
  pub bod_timestamp : String
  pub sow_timestamp : String
  pub max_total_equity : F
  pub min_total_equity : F
  pub cashflows : F

pub record PortfolioStats {ℓ} (F : Type ℓ) : Type ℓ where
  pub total_exposure : F
  pub total_weekly_pnl : F
  pub total_weekly_pnl_percent : F
  -- the dictionary of sectors
  pub total_correlated_exposure : List (String × F)
  pub drawdown : F
  pub dd_baseline_equity : F
  pub dd_degraded : Bool
  pub weekly_pnl_state : DdState
  pub dd_state : DdState

module _ {ℓ} {F : Type ℓ} ⦃f : Float F⦄ where
  unfoldable pub new_account : AccountState F
  new_account = record {
    balance_usdt = nought;
    available_margin = nought;
    total_equity = nought;
    total_unrealized = nought;
    total_realized = nought;
    total_position_value = nought;
    total_margin_used = nought;
    total_margin_ratio = nought;
    total_tp_usdt = nought;
    total_sl_usdt = nought;
    daily_unrealized = nought;
    daily_realized = nought;
    daily_pnl = nought;
    daily_pnl_percent = nought;
    bod_equity = nought;
    sow_equity = nought;
    bod_timestamp = "";
    sow_timestamp = "";
    max_total_equity = nought;
    min_total_equity = nought;
    cashflows = nought;
  }

  unfoldable pub new_portfolio : PortfolioStats F
  new_portfolio = record {
    total_exposure = nought;
    total_weekly_pnl = nought;
    total_weekly_pnl_percent = nought;
    total_correlated_exposure = [];
    drawdown = nought;
    dd_baseline_equity = nought;
    dd_degraded = false;
    weekly_pnl_state = ok;
    dd_state = ok;
  }

-- The row that the engine restores itself from; a key may be missing.
pub record Snapshot {ℓ} (F : Type ℓ) : Type ℓ where
  pub total_equity : Option F
  pub balance_usdt : Option F
  pub bod_equity : Option F
  pub sow_equity : Option F
  pub max_total_equity : Option F
  pub min_total_equity : Option F
  pub drawdown : Option F
  pub dd_state : Option DdState
  pub weekly_pnl_state : Option DdState

module _ {ℓ} {F : Type ℓ} ⦃f : Float F⦄ where
  unfoldable pub restore_from_snapshot :
      Snapshot F → AccountState F × PortfolioStats F → AccountState F × PortfolioStats F
  restore_from_snapshot s (a, p) =
      let total_equity = or_else s.total_equity nought in
      let bod_equity = or_else s.bod_equity nought in
      (
        record a {
          total_equity = total_equity;
          balance_usdt = or_else s.balance_usdt nought;
          bod_equity = bod_equity;
          sow_equity = or_else s.sow_equity nought;
          max_total_equity = or_else s.max_total_equity nought;
          min_total_equity = or_else s.min_total_equity nought;
        },
        record p {
          dd_baseline_equity = if flt nought bod_equity then bod_equity else total_equity;
          drawdown = or_else s.drawdown nought;
          dd_state = or_else s.dd_state ok;
          weekly_pnl_state = or_else s.weekly_pnl_state ok;
        },
      )

  -- `now` is the time of the account's zone, as a text, and `weekday` its day, Monday being 0.
  unfoldable pub perform_bod_reset :
      String → ℕ → AccountState F × PortfolioStats F → AccountState F × PortfolioStats F
  perform_bod_reset now weekday (a, p) =
      let a' = record a {
        bod_equity = a.total_equity;
        bod_timestamp = now;
        max_total_equity = a.total_equity;
        min_total_equity = a.total_equity;
        daily_realized = nought;
        daily_unrealized = nought;
        daily_pnl = nought;
        daily_pnl_percent = nought;
      } in
      let p' = record p { dd_baseline_equity = a.total_equity } in
      if weekday == 0
      then (
        record a' { sow_equity = a.total_equity; sow_timestamp = now },
        record p' {
          total_weekly_pnl = nought;
          total_weekly_pnl_percent = nought;
          weekly_pnl_state = ok;
        },
      )
      else (a', p')
