-- ===== src/Monitoring/Unheard.antt =====
-- A service that nothing reports rate limits to.
use native.Mathlib.Nat.{le_trans}
use quantamental_engine.Base.{
  ℕ, ◌+◌, ◌-◌, ◌≤◌, String, Bool, true, false, ◌&&◌, not, Option, none, some, List, [], ◌∷◌, ◌++◌,
  ◌==◌, string_eq, if◌then◌else◌, or_else, ltb, length, map, ◌≡◌, refl, ◌∙◌, arith, Bool-cases, inl,
  inr, ◌%◌, nat_eq,
}
use quantamental_engine.Float.{Float, flt}
use quantamental_engine.Monitoring.{
  MonitoringEvent, Service, Readings, event_buffer_max, new_event, emit, is_active, watch,
  check_regime_freshness, check_plugin_connection, check_rate_limit_frequency,
  check_news_feed_health, check_reconciler_health, check_db_health, cycle,
}
use quantamental_engine.Monitoring.Ring.{trim_lem}
use quantamental_engine.Monitoring.Counts.{
  active_count, active_count-drop, active_count-emit, active_count-resolve,
}
use quantamental_engine.Monitoring.Alerts.{round, run}

and_false : {a : Bool} (b : Bool) → a ≡ false → (a && b) ≡ false
and_false b h = ground arith

and_comm_false : (a : Bool) → (a && false) ≡ false
and_comm_false a = ground arith

module _ (kind : String) where
  -- A check that is not the alert's own, or finds nothing, opens none.
  watch_count :
      (now : ℕ) (k severity : String) (bad : Bool) (es : List MonitoringEvent)
      → ((k == kind) && bad) ≡ false
      → active_count kind (watch now k severity bad es) ≤ active_count kind es
  unfolding watch emit
  watch_count now k severity false es h = active_count-resolve kind now k es
  watch_count now k severity true es h =
      let es' = es ++ (new_event now k severity ∷ []) in
      elim (Bool-cases (is_active k es)) [
        | inl on ↦ rw on (omega arith)
        | inr off ↦
            rw (off, trim_lem es')
              (ground (
                arith,
                active_count-drop kind (length es' - event_buffer_max) es',
                active_count-emit kind es now k severity,
              ))
      ]

  plugin_count :
      (now : ℕ) (connected : Option Bool) (s : Service)
      → ("plugin_disconnected" == kind) ≡ false
      → active_count kind (check_plugin_connection now connected s).events
        ≤ active_count kind s.events
  unfolding check_plugin_connection watch
  plugin_count now none s h = omega arith
  plugin_count now (some true) s h = active_count-resolve kind now "plugin_disconnected" s.events
  plugin_count now (some false) s h = elim (Bool-cases s.ever_plugin_connected) [
    | inl ever ↦
        rw ever (watch_count now "plugin_disconnected" "warning" true s.events (and_false _ h))
    | inr never ↦ rw never (omega arith)
  ]

  reconciler_count :
      (now : ℕ) (pending : Option ℕ) (s : Service)
      → ("reconciler_backlog" == kind) ≡ false
      → active_count kind (check_reconciler_health now pending s).events
        ≤ active_count kind s.events
  unfolding check_reconciler_health
  reconciler_count now none s h = omega arith
  reconciler_count now (some n) s h =
      watch_count now "reconciler_backlog" "warning" (ltb 20 n) s.events (and_false _ h)

  plugin-timestamps :
      (now : ℕ) (connected : Option Bool) (s : Service)
      → (check_plugin_connection now connected s).rate_limit_timestamps ≡ s.rate_limit_timestamps
  unfolding check_plugin_connection
  plugin-timestamps now none s = refl
  plugin-timestamps now (some true) s = refl
  plugin-timestamps now (some false) s = ground arith

  if_count :
      (b : Bool) (s t : Service) {n : ℕ}
      → active_count kind s.events ≤ n
      → active_count kind t.events ≤ n
      → active_count kind (if b then s else t).events ≤ n
  if_count true s t h k = h
  if_count false s t h k = k

  -- the kind is that of none of the checks but the two of rate limits
  abbrev IsRateLimitKind : Type 0
  IsRateLimitKind =
      (("regime_stale" == kind) ≡ false)
      × (("plugin_disconnected" == kind) ≡ false)
      × (("news_stale" == kind) ≡ false)
      × (("reconciler_backlog" == kind) ≡ false)
      × (("db_unreachable" == kind) ≡ false)

  regime_count :
      (now : ℕ) (stale : Option Bool) (s : Service)
      → ("regime_stale" == kind) ≡ false
      → active_count kind (check_regime_freshness now stale s).events ≤ active_count kind s.events
  unfolding check_regime_freshness
  regime_count now stale s h =
      watch_count now "regime_stale" "warning" (or_else stale true) s.events (and_false _ h)

  db_count :
      (now : ℕ) (answers : Bool) (s : Service)
      → ("db_unreachable" == kind) ≡ false
      → active_count kind (check_db_health now answers s).events ≤ active_count kind s.events
  unfolding check_db_health
  db_count now answers s h =
      watch_count now "db_unreachable" "critical" (not answers) s.events (and_false _ h)

  rate_count :
      (now : ℕ) (s : Service)
      → s.rate_limit_timestamps ≡ []
      → active_count kind (check_rate_limit_frequency now s).events ≤ active_count kind s.events
  unfolding check_rate_limit_frequency
  rate_count now s h = rw h (
      le_trans
        (watch_count now "rate_limit_burst" "warning" false
          (watch now "rate_limit_ban" "critical" false s.events) (and_comm_false _))
        (watch_count now "rate_limit_ban" "critical" false s.events (and_comm_false _)))

  module _ {ℓ} {F : Type ℓ} ⦃f : Float F⦄ where
    news_count :
        (now : ℕ) (age : Option F) (s : Service)
        → ("news_stale" == kind) ≡ false
        → active_count kind (check_news_feed_health now age s).events ≤ active_count kind s.events
    unfolding check_news_feed_health
    news_count now none s h = omega arith
    news_count now (some a) s h =
        watch_count now "news_stale" "info" (flt (f.lit 60 0) a) s.events (and_false _ h)

    cycle_count-le :
        (r : Readings F) (s : Service)
        → IsRateLimitKind
        → s.rate_limit_timestamps ≡ []
        → active_count kind (cycle r s).0.events ≤ active_count kind s.events
    unfolding cycle check_regime_freshness
    cycle_count-le r s (regime, plugin, news, reconciler, db) k =
        let s0 = record s { cycle_count = s.cycle_count + 1 } in
        let s1 = check_regime_freshness r.now r.regime_is_stale s0 in
        let s2 = check_plugin_connection r.now r.plugin_connected s1 in
        let s3 = check_rate_limit_frequency r.now s2 in
        let s4 = check_news_feed_health r.now r.news_age_minutes s3 in
        let fifth = s0.cycle_count % 5 == 0 in
        let s5 = if fifth then check_reconciler_health r.now r.pending_rows s4 else s4 in
        let c1 = regime_count r.now r.regime_is_stale s0 regime in
        let c2 = plugin_count r.now r.plugin_connected s1 plugin in
        let c3 = rate_count r.now s2 (plugin-timestamps r.now r.plugin_connected s1 ∙ k) in
        let c4 = news_count r.now r.news_age_minutes s3 news in
        let c5 : active_count kind s5.events ≤ active_count kind s4.events =
          if_count fifth (check_reconciler_health r.now r.pending_rows s4) s4
            (reconciler_count r.now r.pending_rows s4 reconciler) (omega arith) in
        let c6 = db_count r.now r.db_answers s5 db in
        if_count (s0.cycle_count % 2 == 0) (check_db_health r.now r.db_answers s5) s5 (omega arith)
          (omega arith)

    cycle-timestamps :
        (r : Readings F) (s : Service)
        → s.rate_limit_timestamps ≡ []
        → (cycle r s).0.rate_limit_timestamps ≡ []
    unfolding cycle check_rate_limit_frequency check_news_feed_health check_reconciler_health
        check_db_health check_regime_freshness check_plugin_connection
    cycle-timestamps r s k = ground arith

    -- As long as no rate limit is recorded, neither of its two alerts is ever opened, whatever the rounds
    -- read: their events that are not resolved do not become more.
    pub unheard :
        (rs : List (Readings F)) (s : Service)
        → IsRateLimitKind
        → s.rate_limit_timestamps ≡ []
        → active_count kind (run (map round rs) s).events ≤ active_count kind s.events
    unfolding run
    unheard [] s h k = omega arith
    unheard (r ∷ rs) s h k =
        omega (arith, cycle_count-le r s h k, unheard rs (cycle r s).0 h (cycle-timestamps r s k))
