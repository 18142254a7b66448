-- ===== src/Gate/Entries.antt =====
-- Which orders the gates let through.
use quantamental_engine.Base.{
  ℕ, Bool, true, false, ◌&&◌, ◌||◌, not, Option, none, some, ◌==◌, nat_eq, string_eq, contains,
  or_else, ◌≡◌, arith,
}
use quantamental_engine.Float.{Float, nought, flt, fle}
use quantamental_engine.Drawdown.{limit, dd_state_beq}
use quantamental_engine.Orders.Row.{OrderDict}
use quantamental_engine.Gate.{
  AccountSettings, Reading, Logged, dd_gate_allows_new_entry, is_new_entry, lower_in,
  modification_types, check_dd_gate_for_order, check_dd_gate, evaluate,
}

module _ {ℓ} {F : Type ℓ} ⦃f : Float F⦄ where
  abbrev pub is_advisory : Option (AccountSettings F) → Bool
  is_advisory none = false
  is_advisory (some s) = not (s.dd_enforcement_mode == "enforced")

  -- Nothing but a readable advisory mode or a manual override lets an entry through at the limit.
  abbrev pub open_to_entries : ℕ → Reading F → Bool
  open_to_entries account_id r =
      not (dd_state_beq r.dd_state limit)
      || contains account_id r.dd_manually_unblocked
      || is_advisory (r.settings account_id)

  abbrev pub reduces_exposure : OrderDict F → Bool
  reduces_exposure o =
      or_else o.reduce_only false
      || or_else o.close_position false
      || lower_in (or_else o.order_type "") modification_types

  -- An order passes the drawdown gate exactly if it reduces exposure (a reduce-only or closing order,
  -- or one of the seven stop and take-profit types), or the account is open to entries: not at its
  -- limit, manually unblocked, or with readable settings whose mode is not "enforced". Unreadable
  -- settings block.
  pub check_dd_gate_for_order_lem :
      (account_id : ℕ) (o : OrderDict F) (r : Reading F) (l : Logged)
      → (check_dd_gate_for_order account_id o r l).0.0
        ≡ (reduces_exposure o || open_to_entries account_id r)
  unfolding check_dd_gate_for_order is_new_entry dd_gate_allows_new_entry
  check_dd_gate_for_order_lem account_id o r l = ground arith

  -- The calculator is ready exactly if the engine has started, the equity is positive, the data is at
  -- most sixty seconds old, and the order gate would let a new entry of the active account through.
  pub evaluate-check_dd_gate_for_order :
      (r : Reading F) (l : Logged) (o : OrderDict F)
      → is_new_entry o ≡ true
      → (evaluate r l).0.0 ≡ (
          not r.is_initializing
          && not (fle r.total_equity nought)
          && not (flt (f.lit 60 0) r.seconds_since_update)
          && (check_dd_gate_for_order r.active_account_id o r l).0.0)
  unfolding evaluate check_dd_gate check_dd_gate_for_order dd_gate_allows_new_entry
  evaluate-check_dd_gate_for_order r l o h = ground arith
