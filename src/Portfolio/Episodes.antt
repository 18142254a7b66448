-- ===== src/Portfolio/Episodes.antt =====
-- What the recalculation does to a block on new entries: how it holds, what a release clears, and what
-- a restart forgets.
use quantamental_engine.Base.{
  ℕ, Bool, true, false, ◌&&◌, not, Option, none, some, List, [], ◌∷◌, nat_eq, string_eq, contains,
  if◌then◌else◌, or_else, ◌≡◌, refl, ◌∙◌, ap, arith, ◌⊎◌, inl, inr, Bool-cases,
}
use quantamental_engine.Float.{Float, IsOrdered, ◌≺◌, nought, one, fmax}
use quantamental_engine.Float.Order.{le-fmax_left, lt-of_lt-le}
use quantamental_engine.Drawdown.{
  DdState, ok, limit, dd_state_beq, dd_state_with_recovery, dd_state_from_drawdown,
}
use quantamental_engine.App.{App, discard}
use quantamental_engine.Orders.Row.{OrderDict}
use quantamental_engine.Gate.{
  AccountSettings, Reading, Logged, check_dd_gate_for_order, is_new_entry, dd_gate_allows_new_entry,
}
use quantamental_engine.Portfolio.{
  Tables, rolling, rolling_dd, fetch_rolling_peak_equity, recalculate_portfolio, figures,
}
use quantamental_engine.Portfolio.Branches.{IsConfigured, recalculate_portfolio-configured}

contains-discard : (x : ℕ) (xs : List ℕ) → contains x (discard x xs) ≡ false
contains-discard x [] = refl
contains-discard x (y ∷ ys) = ground (arith, contains-discard x ys)

limit_of : (s : DdState) → dd_state_beq s limit ≡ true → s ≡ limit
limit_of s h = ground arith

-- Whether the episode ends with this state.
abbrev pub leaves_limit : Option DdState → DdState → Bool
leaves_limit prev new_state =
    dd_state_beq (or_else prev ok) limit && not (dd_state_beq new_state limit)

module _ {ℓ} {F : Type ℓ} ⦃f : Float F⦄ where
  -- The rolling drawdown that the recalculation evaluates.
  abbrev pub current_dd : Tables F → AccountSettings F → App F → F
  current_dd tables s app =
      let equity = app.account_state.total_equity in
      rolling_dd
        (fetch_rolling_peak_equity
          (tables.max_equity app.active_account_id s.dd_rolling_window_days) equity)
        equity

  -- What the order gate reads once the portfolio has been recalculated.
  abbrev pub reading_of : Tables F → Bool → F → App F → Reading F
  reading_of tables is_initializing stale_s app = record {
    dd_state = app.portfolio.dd_state;
    drawdown = app.portfolio.drawdown;
    dd_manually_unblocked = app.dd_manually_unblocked;
    settings = tables.settings;
    is_initializing = is_initializing;
    total_equity = app.account_state.total_equity;
    seconds_since_update = stale_s;
    active_account_id = app.active_account_id;
  }

  -- The state and the episode peak that the machine moves to from what is kept of the account.
  abbrev pub next_state : Tables F → AccountSettings F → F → F → App F → DdState × F
  next_state tables s warn_t limit_t app =
      let dd = current_dd tables s app in
      dd_state_with_recovery (or_else (app.dd_previous_states app.active_account_id) ok) dd
        (or_else (app.dd_episode_peaks app.active_account_id) dd) warn_t limit_t
        s.dd_recovery_threshold

  recalculate-next_state :
      (tables : Tables F) (app : App F) (s : AccountSettings F) (warn_t limit_t : F)
      → IsConfigured tables app s warn_t limit_t
      → (recalculate_portfolio tables app).portfolio.dd_state
        ≡ (next_state tables s warn_t limit_t app).0
  unfolding rolling figures
  recalculate-next_state tables app s warn_t limit_t h =
      ap (λ a. a.portfolio.dd_state)
        (recalculate_portfolio-configured tables app s warn_t limit_t h)

  held_state :
      (prev : Option DdState) (ep : Option F) (dd warn_t limit_t recov_t peak : F)
      → IsOrdered F
      → prev ≡ some limit
      → ep ≡ some peak
      → nought ≺ peak
      → f.mul (fmax peak dd) (f.sub one recov_t) ≺ dd
      → (dd_state_with_recovery (or_else prev ok) dd (or_else ep dd) warn_t limit_t recov_t).0
        ≡ limit
  unfolding dd_state_with_recovery
  held_state prev ep dd warn_t limit_t recov_t peak laws p e pos held =
      rw (p, e)
        (ground
          (arith, lt-of_lt-le laws nought peak (fmax peak dd) pos (le-fmax_left laws peak dd)))

  recalculate-unblocked :
      (tables : Tables F) (app : App F) (s : AccountSettings F) (warn_t limit_t : F)
      → IsConfigured tables app s warn_t limit_t
      → let aid = app.active_account_id in
        (recalculate_portfolio tables app).dd_manually_unblocked ≡ (
          if leaves_limit (app.dd_previous_states aid) (next_state tables s warn_t limit_t app).0
          then discard aid app.dd_manually_unblocked
          else app.dd_manually_unblocked)
  unfolding rolling figures
  recalculate-unblocked tables app s warn_t limit_t h =
      ap (λ a. a.dd_manually_unblocked)
        (recalculate_portfolio-configured tables app s warn_t limit_t h)

  recalculate-logged :
      (tables : Tables F) (app : App F) (s : AccountSettings F) (warn_t limit_t : F)
      → IsConfigured tables app s warn_t limit_t
      → let aid = app.active_account_id in
        (recalculate_portfolio tables app).dd_would_have_blocked_logged ≡ (
          if leaves_limit (app.dd_previous_states aid) (next_state tables s warn_t limit_t app).0
          then discard aid app.dd_would_have_blocked_logged
          else app.dd_would_have_blocked_logged)
  unfolding rolling figures
  recalculate-logged tables app s warn_t limit_t h =
      ap (λ a. a.dd_would_have_blocked_logged)
        (recalculate_portfolio-configured tables app s warn_t limit_t h)

  gate_refuses :
      (aid : ℕ) (o : OrderDict F) (r : Reading F) (l : Logged) (s : AccountSettings F)
      → r.dd_state ≡ limit
      → contains aid r.dd_manually_unblocked ≡ false
      → r.settings aid ≡ some s
      → s.dd_enforcement_mode ≡ "enforced"
      → is_new_entry o ≡ true
      → (check_dd_gate_for_order aid o r l).0.0 ≡ false
  unfolding check_dd_gate_for_order dd_gate_allows_new_entry
  gate_refuses aid o r l s state unblocked read mode entry =
      rw (entry, state, unblocked, read, mode) refl

  -- An account with both thresholds that was at its limit, with a positive episode peak, and whose
  -- drawdown has not come down to the recovery level of its episode stays blocked: after a
  -- recalculation the order gate refuses every new entry, given that the settings enforce the limit
  -- and the account is not manually unblocked.
  pub recalculate_portfolio-blocks :
      (tables : Tables F) (app : App F) (s : AccountSettings F) (warn_t limit_t peak stale_s : F)
      (starting : Bool) (o : OrderDict F) (l : Logged)
      → IsOrdered F
      → IsConfigured tables app s warn_t limit_t
      → s.dd_enforcement_mode ≡ "enforced"
      → contains app.active_account_id app.dd_manually_unblocked ≡ false
      → app.dd_previous_states app.active_account_id ≡ some limit
      → app.dd_episode_peaks app.active_account_id ≡ some peak
      → nought ≺ peak
      → f.mul (fmax peak (current_dd tables s app)) (f.sub one s.dd_recovery_threshold)
        ≺ current_dd tables s app
      → is_new_entry o ≡ true
      → (check_dd_gate_for_order app.active_account_id o
          (reading_of tables starting stale_s (recalculate_portfolio tables app))
          l).0.0
        ≡ false
  recalculate_portfolio-blocks tables app s warn_t limit_t peak stale_s starting o l laws conf mode
        unblocked prev ep pos held entry =
      let dd = current_dd tables s app in
      let same =
        held_state _ _ dd warn_t limit_t s.dd_recovery_threshold peak laws prev ep pos held in
      let state = recalculate-next_state tables app s warn_t limit_t conf ∙ same in
      let kept = recalculate-unblocked tables app s warn_t limit_t conf ∙ rw (same, prev) refl in
      gate_refuses app.active_account_id o
        (reading_of tables starting stale_s (recalculate_portfolio tables app)) l s state
        (rw kept unblocked) conf.0 mode entry

  -- When an account with both thresholds that was at its limit is recalculated, either it is at its
  -- limit still, or the manual override and the mark of the logged shadow event are both gone: an
  -- override does not outlive the episode that it was given for.
  pub release_clears :
      (tables : Tables F) (app : App F) (s : AccountSettings F) (warn_t limit_t : F)
      → IsConfigured tables app s warn_t limit_t
      → app.dd_previous_states app.active_account_id ≡ some limit
      → let after = recalculate_portfolio tables app in
        (after.portfolio.dd_state ≡ limit)
        ⊎ ((contains app.active_account_id after.dd_manually_unblocked ≡ false)
            × (contains app.active_account_id after.dd_would_have_blocked_logged ≡ false))
  release_clears tables app s warn_t limit_t conf prev =
      let aid = app.active_account_id in
      let state = recalculate-next_state tables app s warn_t limit_t conf in
      elim (Bool-cases (dd_state_beq (next_state tables s warn_t limit_t app).0 limit)) [
        | inl stays ↦ inl (state ∙ limit_of _ stays)
        | inr leaves ↦ inr (
          ap (contains aid)
                (recalculate-unblocked tables app s warn_t limit_t conf ∙ rw (leaves, prev) refl)
              ∙ contains-discard aid app.dd_manually_unblocked,
          ap (contains aid)
                (recalculate-logged tables app s warn_t limit_t conf ∙ rw (leaves, prev) refl)
              ∙ contains-discard aid app.dd_would_have_blocked_logged,
        )
      ]

  -- For an account with both thresholds and without a previous state, as after a restart, the
  -- recalculation goes by the thresholds alone, whatever state the portfolio holds: neither the
  -- restored state nor the stickiness of the limit has a part in it.
  pub restart_forgets :
      (tables : Tables F) (app : App F) (s : AccountSettings F) (warn_t limit_t : F)
      → IsConfigured tables app s warn_t limit_t
      → app.dd_previous_states app.active_account_id ≡ none
      → (recalculate_portfolio tables app).portfolio.dd_state
        ≡ dd_state_from_drawdown (current_dd tables s app) warn_t limit_t
  unfolding dd_state_with_recovery
  restart_forgets tables app s warn_t limit_t conf prev =
      recalculate-next_state tables app s warn_t limit_t conf ∙ rw prev refl
