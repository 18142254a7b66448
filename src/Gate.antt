-- ===== src/Gate.antt =====
-- Whether a new entry is allowed: core/dd_gate.py, the gates of `ReadyStateEvaluator` in
-- core/monitoring.py, and `check_dd_gate_for_order` of core/order_manager.py. Reasons are data in
-- place of formatted texts; order types are ASCII.
pub mod Entries
pub mod Shadow
pub mod Tests
use quantamental_engine.Base.{
  ℕ, String, Bool, true, false, ◌&&◌, ◌||◌, not, Option, none, some, List, [], ◌∷◌, ◌++◌, ◌==◌,
  nat_eq, string_eq, contains, if◌then◌else◌, or_else, map, any,
}
use quantamental_engine.Float.{Float, nought, fle, flt, truthy}
use quantamental_engine.Drawdown.{DdState, limit, dd_state_beq}
use quantamental_engine.Orders.Row.{OrderDict}
use quantamental_engine.Orders.Store.{lower_codes}

-- the row that `get_account_settings` reads
pub record AccountSettings {ℓ} (F : Type ℓ) : Type ℓ where
  pub account_id : ℕ
  pub timezone : String
  pub dd_rolling_window_days : ℕ
  pub dd_warning_threshold : Option F
  pub dd_limit_threshold : Option F
  pub dd_recovery_threshold : F
  pub dd_enforcement_mode : String
  pub weekly_pnl_warning_threshold : Option F
  pub weekly_pnl_limit_threshold : Option F
  pub weekly_pnl_enforcement_mode : String
  pub strategy_preset : Option String
  pub analytics_default_period : String
  pub week_start_dow : ℕ

pub data Reason {ℓ} (F : Type ℓ) : Type ℓ where
  engine_initializing account_data_not_loaded : Reason F
  exchange_data_offline : F → Reason F
  dd_gate_settings_unreadable : Reason F
  -- the drawdown and the threshold
  dd_state_limit : F → F → Reason F

-- What the gates read of `app_state`; `settings` is `none` where reading the settings raises.
pub record Reading {ℓ} (F : Type ℓ) : Type ℓ where
  pub dd_state : DdState
  pub drawdown : F
  pub dd_manually_unblocked : List ℕ
  pub settings : ℕ → Option (AccountSettings F)
  pub is_initializing : Bool
  pub total_equity : F
  pub seconds_since_update : F
  pub active_account_id : ℕ

pub data Event : Type 0 where
  calculator_blocked would_have_blocked_dd : ℕ → Event

-- What the gates write: the set that keeps a shadow event from being logged twice, and the event log.
pub record Logged : Type 0 where
  pub dd_would_have_blocked_logged : List ℕ
  pub events : List Event

abbrev pub modification_types : List String
modification_types =
    "stop_loss" ∷ "take_profit" ∷ "trailing_stop" ∷ "stop_loss_limit" ∷ "take_profit_limit"
    ∷ "stop_market" ∷ "take_profit_market" ∷ []

abbrev codes_eq : List ℕ → List ℕ → Bool
codes_eq [] [] = true
codes_eq (x ∷ xs) (y ∷ ys) = x == y && codes_eq xs ys
codes_eq _ _ = false

-- `text.lower() in texts` for texts in lower case
abbrev pub lower_in : String → List String → Bool
lower_in text texts = any (λ t. codes_eq (lower_codes text) (lower_codes t)) texts

abbrev pub log_event : Event → Logged → Logged
log_event e l = record l { events = l.events ++ (e ∷ []) }

module _ {ℓ} {F : Type ℓ} ⦃f : Float F⦄ where
  unfoldable pub dd_gate_allows_new_entry : ℕ → Reading F → Bool × Option (Reason F)
  dd_gate_allows_new_entry account_id r =
      if not (dd_state_beq r.dd_state limit)
      then (true, none)
      else if contains account_id r.dd_manually_unblocked
      then (true, none)
      else elim (r.settings account_id) [
        | none ↦ (false, some dd_gate_settings_unreadable)
        | some s ↦
            if not (s.dd_enforcement_mode == "enforced")
            then (true, none)
            else (false, some (dd_state_limit r.drawdown (or_else s.dd_limit_threshold nought)))
      ]

  unfoldable pub is_new_entry : OrderDict F → Bool
  is_new_entry o =
      if or_else o.reduce_only false
      then false
      else if or_else o.close_position false
      then false
      else if lower_in (or_else o.order_type "") modification_types
      then false
      else true

  unfoldable pub check_dd_gate_for_order :
      ℕ → OrderDict F → Reading F → Logged → (Bool × Option (Reason F)) × Logged
  unfolding is_new_entry dd_gate_allows_new_entry
  check_dd_gate_for_order account_id o r l =
      if not (is_new_entry o)
      then ((true, none), l)
      else let answer = dd_gate_allows_new_entry account_id r in
        (answer, (if not answer.0 then log_event (calculator_blocked account_id) l else l))

  unfoldable pub check_dd_gate : Reading F → Logged → (Bool × Option (Reason F)) × Logged
  unfolding dd_gate_allows_new_entry
  check_dd_gate r l =
      if not (dd_state_beq r.dd_state limit)
      then ((true, none), l)
      else let aid = r.active_account_id in
        let answer = dd_gate_allows_new_entry aid r in
        if not answer.0
        then ((false, answer.1), log_event (calculator_blocked aid) l)
        else if not (contains aid r.dd_manually_unblocked)
            && not (contains aid l.dd_would_have_blocked_logged)
        then (
          (true, none),
          record {
            dd_would_have_blocked_logged = aid ∷ l.dd_would_have_blocked_logged;
            events = l.events ++ (would_have_blocked_dd aid ∷ []);
          },
        )
        else ((true, none), l)

  -- (ready, reason)
  unfoldable pub evaluate : Reading F → Logged → (Bool × Option (Reason F)) × Logged
  unfolding check_dd_gate
  evaluate r l =
      if r.is_initializing
      then ((false, some engine_initializing), l)
      else if fle r.total_equity nought
      then ((false, some account_data_not_loaded), l)
      else if flt (f.lit 60 0) r.seconds_since_update
      then ((false, some (exchange_data_offline r.seconds_since_update)), l)
      else check_dd_gate r l
