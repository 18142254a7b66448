-- ===== src/Cache/Account.antt =====
-- The account state: its own version, the REST snapshot, the platform's state, and the equities of the
-- beginning of the day and of the week.
use quantamental_engine.Base.{
  ℕ, ◌+◌, ◌<◌, String, Bool, true, false, not, Option, some, List, ◌==◌, nat_eq, string_eq,
  if◌then◌else◌, or_else, ◌≡◌, refl, sym, subst,
}
use quantamental_engine.Float.{Float, nought, feq, fmax}
use quantamental_engine.App.{App, UpdateSource, rest, platform, source_eq}
use quantamental_engine.State.{AccountState}
use quantamental_engine.Portfolio.{Tables, recalculate_portfolio, figures, rolling}
use quantamental_engine.Portfolio.Branches.{by_branches}
use quantamental_engine.Cache.{should_accept, advance}
use quantamental_engine.Cache.Source.{IsLive, should_accept_lem}
use quantamental_engine.Cache.Incremental.{
  NormalizedPosition, apply_position_update_incremental, apply_balances,
}

pub record NormalizedAccount {ℓ} (F : Type ℓ) : Type ℓ where
  pub total_equity : F
  pub available_margin : F
  pub unrealized_pnl : F
  pub initial_margin : F
  pub maint_margin : F

module _ {ℓ} {F : Type ℓ} ⦃f : Float F⦄ where
  -- the account that a REST snapshot leaves, and the baseline of the drawdown
  unfoldable pub rest_account : NormalizedAccount F → AccountState F → F → AccountState F × F
  rest_account na acc baseline =
      let acc' = record acc {
        total_equity = na.total_equity;
        available_margin = na.available_margin;
        total_unrealized = na.unrealized_pnl;
        total_margin_used = na.initial_margin;
        total_margin_ratio = na.maint_margin;
        balance_usdt = na.total_equity;
        sow_equity = if feq acc.sow_equity nought then na.total_equity else acc.sow_equity;
      } in
      if feq acc.bod_equity nought
      then (
        record acc' {
          bod_equity = na.total_equity;
          max_total_equity = na.total_equity;
          min_total_equity = na.total_equity;
        },
        na.total_equity,
      )
      else (acc', baseline)

  unfoldable pub apply_account_update_rest :
      Tables F → ℕ → NormalizedAccount F → ℕ → App F → Bool × App F
  unfolding should_accept rest_account
  apply_account_update_rest tables now_ms na ts_ms app =
      let ts = if ts_ms == 0 then now_ms else ts_ms in
      let (acc, baseline) = rest_account na app.account_state app.portfolio.dd_baseline_equity in
      if not (should_accept app.account_version rest ts) then (false, app) else (
        true,
        recalculate_portfolio tables (record app {
          account_state = acc;
          portfolio = record app.portfolio { dd_baseline_equity = baseline };
          account_version = advance rest ts app.account_version;
        }),
      )

  unfoldable pub apply_account_update_platform :
      Tables F → ℕ → F → F → F → F → F → ℕ → App F → App F
  apply_account_update_platform tables now_ms balance total_equity unrealized_pnl available_margin
        margin_ratio ts_ms app =
      let ts = if ts_ms == 0 then now_ms else ts_ms in
      recalculate_portfolio tables (record app {
        account_state = record app.account_state {
          balance_usdt = balance;
          total_equity = total_equity;
          total_unrealized = unrealized_pnl;
          available_margin = available_margin;
          total_margin_used = fmax nought (f.sub total_equity available_margin);
          total_margin_ratio = margin_ratio;
        };
        account_version = advance platform ts app.account_version;
      })

  unfoldable pub apply_bod_sow_equity :
      Tables F → Option F → Option String → Option F → Option String → App F → App F
  apply_bod_sow_equity tables bod_equity bod_timestamp sow_equity sow_timestamp app =
      let acc = app.account_state in
      recalculate_portfolio tables (record app {
        account_state = record acc {
          bod_equity = or_else bod_equity acc.bod_equity;
          bod_timestamp =
              if acc.bod_timestamp == "" then or_else bod_timestamp "" else acc.bod_timestamp;
          sow_equity = or_else sow_equity acc.sow_equity;
          sow_timestamp =
              if acc.sow_timestamp == "" then or_else sow_timestamp "" else acc.sow_timestamp;
        };
      })

  recalculate-account_version :
      (tables : Tables F) (app : App F)
      → (recalculate_portfolio tables app).account_version ≡ app.account_version
  unfolding figures rolling
  recalculate-account_version tables app =
      by_branches (λ after. after.account_version ≡ app.account_version) tables app refl refl
        (λ s w l. refl)

  rest_refused :
      (tables : Tables F) (now_ms : ℕ) (na : NormalizedAccount F) (ts_ms : ℕ) (app : App F)
      → IsLive app.account_version.source
      → (if ts_ms == 0 then now_ms else ts_ms) < app.account_version.timestamp_ms + 5000
      → apply_account_update_rest tables now_ms na ts_ms app ≡ (false, app)
  unfolding apply_account_update_rest
  rest_refused tables now_ms na ts_ms app live h =
      rw ((should_accept_lem app.account_version rest _).1 (refl, live, h)) refl

  message-account_version :
      (tables : Tables F) (get_sector : String → String) (now_iso : String) (now_ms : ℕ)
      (source : UpdateSource) (nps : List (NormalizedPosition F)) (wallet : Option F) (ts_ms : ℕ)
      (app : App F)
      → (apply_position_update_incremental tables get_sector now_iso now_ms source nps
          (some wallet)
          ts_ms
          app).1.account_version
        ≡ advance source (if ts_ms == 0 then now_ms else ts_ms) app.account_version
  unfolding apply_position_update_incremental apply_balances
  message-account_version tables get_sector now_iso now_ms source nps wallet ts_ms app =
      recalculate-account_version tables _

  -- After a message of the user stream or the platform that carries a balance, a REST snapshot of the
  -- account whose stamp is less than five seconds later is refused and changes nothing, so that it does
  -- not write an older balance over a newer one.
  pub message_protects_account :
      (tables : Tables F) (get_sector : String → String) (now_iso : String) (now_ms : ℕ)
      (source : UpdateSource) (nps : List (NormalizedPosition F)) (wallet : Option F) (ts_ms : ℕ)
      (app : App F) (rest_now_ms : ℕ) (na : NormalizedAccount F) (rest_ts_ms : ℕ)
      → IsLive source
      → (if rest_ts_ms == 0 then rest_now_ms else rest_ts_ms)
        < (if ts_ms == 0 then now_ms else ts_ms) + 5000
      → let after =
          (apply_position_update_incremental tables get_sector now_iso now_ms source nps
            (some wallet)
            ts_ms
            app).1 in
        apply_account_update_rest tables rest_now_ms na rest_ts_ms after ≡ (false, after)
  message_protects_account tables get_sector now_iso now_ms source nps wallet ts_ms app rest_now_ms
        na rest_ts_ms live h =
      let version =
        message-account_version tables get_sector now_iso now_ms source nps wallet ts_ms app in
      rest_refused tables rest_now_ms na rest_ts_ms _
        (subst (λ v. IsLive v.source) (sym version) live)
        (subst (λ v. (if rest_ts_ms == 0 then rest_now_ms else rest_ts_ms) < v.timestamp_ms + 5000)
          (sym version) h)
