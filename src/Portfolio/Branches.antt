-- ===== src/Portfolio/Branches.antt =====
-- The branches of the recalculation: unreadable settings, thresholds that are not set, and thresholds.
use quantamental_engine.Base.{Option, none, some, ◌≡◌, ap, ◌∙◌}
use quantamental_engine.Float.{Float}
use quantamental_engine.Drawdown.{ok}
use quantamental_engine.App.{App}
use quantamental_engine.Gate.{AccountSettings}
use quantamental_engine.Portfolio.{
  Tables, figures, legacy_dd_state, with_dd_state, rolling, recalculate_portfolio, dd_by_settings,
  dd_by_thresholds,
}

module _ {ℓ} {F : Type ℓ} ⦃f : Float F⦄ where
  -- the settings of the active account, with both thresholds
  abbrev pub IsConfigured : Tables F → App F → AccountSettings F → F → F → Type ℓ
  IsConfigured tables app s warn_t limit_t =
      (tables.settings app.active_account_id ≡ some s)
      × (s.dd_warning_threshold ≡ some warn_t)
      × (s.dd_limit_threshold ≡ some limit_t)

  pub recalculate_portfolio-configured :
      (tables : Tables F) (app : App F) (s : AccountSettings F) (warn_t limit_t : F)
      → IsConfigured tables app s warn_t limit_t
      → recalculate_portfolio tables app ≡ rolling tables s warn_t limit_t (figures app)
  unfolding recalculate_portfolio dd_by_settings dd_by_thresholds
  recalculate_portfolio-configured tables app s warn_t limit_t (h, w, l) =
      ap (λ o. dd_by_settings tables o (figures app)) h
      ∙ ap (λ o. dd_by_thresholds tables s o s.dd_limit_threshold (figures app)) w
      ∙ ap (λ o. dd_by_thresholds tables s (some warn_t) o (figures app)) l

module _ {ℓ κ} {F : Type ℓ} ⦃f : Float F⦄ where
  thresholds_branches :
      (P : App F → Type κ) (tables : Tables F) (s : AccountSettings F) (app : App F)
      (w l : Option F)
      → P (with_dd_state ok app)
      → ((warn_t limit_t : F) → P (rolling tables s warn_t limit_t app))
      → P (dd_by_thresholds tables s w l app)
  unfolding dd_by_thresholds
  thresholds_branches P tables s app (some w) (some l) unset set = set w l
  thresholds_branches P tables s app (some w) none unset set = unset
  thresholds_branches P tables s app none l unset set = unset

  settings_branches :
      (P : App F → Type κ) (tables : Tables F) (app : App F) (o : Option (AccountSettings F))
      → P (with_dd_state (legacy_dd_state app) app)
      → P (with_dd_state ok app)
      → ((s : AccountSettings F) (warn_t limit_t : F) → P (rolling tables s warn_t limit_t app))
      → P (dd_by_settings tables o app)
  unfolding dd_by_settings
  settings_branches P tables app none legacy unset set = legacy
  settings_branches P tables app (some s) legacy unset set =
      thresholds_branches P tables s app s.dd_warning_threshold s.dd_limit_threshold unset (set s)

  -- What each branch makes true, the recalculation makes true.
  pub by_branches :
      (P : App F → Type κ) (tables : Tables F) (app : App F)
      → P (with_dd_state (legacy_dd_state (figures app)) (figures app))
      → P (with_dd_state ok (figures app))
      → ((s : AccountSettings F) (warn_t limit_t : F)
          → P (rolling tables s warn_t limit_t (figures app)))
      → P (recalculate_portfolio tables app)
  unfolding recalculate_portfolio
  by_branches P tables app = settings_branches P tables (figures app) _
