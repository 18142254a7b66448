-- ===== src/Drawdown.antt =====
-- core/dd_state.py: the rolling drawdown of an equity series, and the state machine that the
-- drawdown drives. A timestamp is a number of microseconds.
pub mod Rolling
pub mod Recovery
mod Tests
use quantamental_engine.Base.{
  ℕ, ◌+◌, ◌*◌, Bool, true, false, List, [], ◌∷◌, ◌++◌, ◌&&◌, if◌then◌else◌, leb,
}
use quantamental_engine.Float.{Float, nought, one, fle, flt, fmax}

-- the literal type `DDState`
pub data DdState : Type 0 where
  ok warning limit : DdState

abbrev pub dd_state_beq : DdState → DdState → Bool
dd_state_beq ok ok = true
dd_state_beq warning warning = true
dd_state_beq limit limit = true
dd_state_beq _ _ = false

abbrev pub day : ℕ
day = 86400 * 1000000

-- `ts >= now - timedelta(days=window_days)`
abbrev pub in_window : ℕ → ℕ → ℕ → Bool
in_window now window_days ts = leb now (ts + window_days * day)

module _ {ℓ} {F : Type ℓ} ⦃f : Float F⦄ where
  -- the loop over the series
  unfoldable pub peak_of : ℕ → ℕ → List (ℕ × F) → F → F
  peak_of now window_days [] peak = peak
  peak_of now window_days ((ts, eq) ∷ series) peak =
      peak_of now window_days series (if in_window now window_days ts then fmax peak eq else peak)

  -- (drawdown_pct, peak_equity)
  unfoldable pub compute_rolling_drawdown : List (ℕ × F) → F → ℕ → ℕ → F × F
  unfolding peak_of
  compute_rolling_drawdown equity_series current_equity window_days now =
      let peak = peak_of now window_days equity_series current_equity in
      if fle peak nought
      then (nought, nought)
      else (fmax (f.div (f.sub peak current_equity) peak) nought, peak)

  unfoldable pub dd_state_from_drawdown : F → F → F → DdState
  dd_state_from_drawdown drawdown_pct warning_threshold limit_threshold =
      if fle limit_threshold drawdown_pct
      then limit
      else if fle warning_threshold drawdown_pct
      then warning
      else ok

  -- (new_state, updated_episode_peak_dd)
  unfoldable pub dd_state_with_recovery : DdState → F → F → F → F → F → DdState × F
  unfolding dd_state_from_drawdown
  dd_state_with_recovery previous_state drawdown_pct episode_peak_dd warning_threshold
        limit_threshold recovery_threshold =
      let peak = fmax episode_peak_dd drawdown_pct in
      if dd_state_beq previous_state limit && flt nought peak
      then (if fle drawdown_pct (f.mul peak (f.sub one recovery_threshold))
          then (ok, nought)
          else (limit, peak))
      else let new_state = dd_state_from_drawdown drawdown_pct warning_threshold limit_threshold in
        (new_state, (if dd_state_beq new_state ok then nought else peak))

-- The variables that the closure of `derive_dd_evaluator` keeps.
pub record Evaluator {ℓ} (F : Type ℓ) : Type ℓ where
  pub episode_peak_dd : F
  pub equity_history : List (ℕ × F)

module _ {ℓ} {F : Type ℓ} ⦃f : Float F⦄ where
  unfoldable pub derive_dd_evaluator : Evaluator F
  derive_dd_evaluator = record { episode_peak_dd = nought; equity_history = [] }

  -- One call of the closure, with the reading of the clock.
  unfoldable pub evaluator : F → F → F → DdState → F → ℕ → Evaluator F → DdState × Evaluator F
  unfolding compute_rolling_drawdown dd_state_with_recovery
  evaluator warning_threshold limit_threshold recovery_threshold current_state equity now e =
      let equity_history = e.equity_history ++ ((now, equity) ∷ []) in
      let (dd_pct, _) = compute_rolling_drawdown equity_history equity 9999 now in
      let (new_state, episode_peak_dd) =
        dd_state_with_recovery current_state dd_pct e.episode_peak_dd warning_threshold
          limit_threshold recovery_threshold in
      (new_state, record { episode_peak_dd = episode_peak_dd; equity_history = equity_history })
