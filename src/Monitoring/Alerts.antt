-- ===== src/Monitoring/Alerts.antt =====
-- However the service runs, no alert is open twice.
use quantamental_engine.Base.{
  ℕ, ◌+◌, Bool, true, false, not, Option, none, some, List, [], ◌∷◌, ◌==◌, string_eq, if◌then◌else◌,
  or_else, ltb, leb, length, any, filter, Bool-cases, inl, inr, ◌%◌, nat_eq,
}
use quantamental_engine.Float.{Float, flt}
use quantamental_engine.Monitoring.{
  Service, Readings, emit_once, watch, check_regime_freshness, check_plugin_connection,
  record_rate_limit_event, in_burst, is_ban, check_rate_limit_frequency, check_news_feed_health,
  check_reconciler_health, check_db_health, cycle,
}
use quantamental_engine.Monitoring.Counts.{IsTidy, watch-IsTidy, resolve-IsTidy}

plugin-IsTidy :
    (now : ℕ) (connected : Option Bool) (s : Service)
    → IsTidy s.events
    → IsTidy (check_plugin_connection now connected s).events
unfolding check_plugin_connection watch
plugin-IsTidy now none s t = t
plugin-IsTidy now (some true) s t = resolve-IsTidy now "plugin_disconnected" s.events t
plugin-IsTidy now (some false) s t = elim (Bool-cases s.ever_plugin_connected) [
  | inl ever ↦ rw ever (watched t)
  | inr never ↦ rw never t
]
  where
    watched : IsTidy s.events → IsTidy (emit_once now "plugin_disconnected" "warning" s.events)
    watched t = watch-IsTidy now "plugin_disconnected" "warning" true s.events t

regime-IsTidy :
    (now : ℕ) (stale : Option Bool) (s : Service)
    → IsTidy s.events
    → IsTidy (check_regime_freshness now stale s).events
unfolding check_regime_freshness
regime-IsTidy now stale s t =
    watch-IsTidy now "regime_stale" "warning" (or_else stale true) s.events t

rate_limit-IsTidy :
    (now : ℕ) (s : Service) → IsTidy s.events → IsTidy (check_rate_limit_frequency now s).events
unfolding check_rate_limit_frequency
rate_limit-IsTidy now s t =
    let recent = filter (in_burst now) s.rate_limit_timestamps in
    watch-IsTidy now "rate_limit_burst" "warning" (leb 5 (length recent))
      (watch now "rate_limit_ban" "critical" (any is_ban recent) s.events)
      (watch-IsTidy now "rate_limit_ban" "critical" (any is_ban recent) s.events t)

db-IsTidy :
    (now : ℕ) (answers : Bool) (s : Service)
    → IsTidy s.events
    → IsTidy (check_db_health now answers s).events
unfolding check_db_health
db-IsTidy now answers s t = watch-IsTidy now "db_unreachable" "critical" (not answers) s.events t

if-IsTidy :
    (b : Bool) (s t : Service)
    → IsTidy s.events
    → IsTidy t.events
    → IsTidy (if b then s else t).events
if-IsTidy true s t h k = h
if-IsTidy false s t h k = k

reconciler-IsTidy :
    (now : ℕ) (pending : Option ℕ) (s : Service)
    → IsTidy s.events
    → IsTidy (check_reconciler_health now pending s).events
unfolding check_reconciler_health
reconciler-IsTidy now none s t = t
reconciler-IsTidy now (some n) s t =
    watch-IsTidy now "reconciler_backlog" "warning" (ltb 20 n) s.events t

-- a round, or a rate limit that is recorded between two rounds
pub data Happening {ℓ} (F : Type ℓ) : Type ℓ where
  round : Readings F → Happening F
  rate_limited : ℕ → Bool → Happening F

module _ {ℓ} {F : Type ℓ} ⦃f : Float F⦄ where
  news-IsTidy :
      (now : ℕ) (age : Option F) (s : Service)
      → IsTidy s.events
      → IsTidy (check_news_feed_health now age s).events
  unfolding check_news_feed_health
  news-IsTidy now none s t = t
  news-IsTidy now (some a) s t =
      watch-IsTidy now "news_stale" "info" (flt (f.lit 60 0) a) s.events t

  cycle-IsTidy : (r : Readings F) (s : Service) → IsTidy s.events → IsTidy (cycle r s).0.events
  unfolding cycle
  cycle-IsTidy r s t =
      let s0 = record s { cycle_count = s.cycle_count + 1 } in
      let s1 = check_regime_freshness r.now r.regime_is_stale s0 in
      let s2 = check_plugin_connection r.now r.plugin_connected s1 in
      let s3 = check_rate_limit_frequency r.now s2 in
      let s4 = check_news_feed_health r.now r.news_age_minutes s3 in
      let fifth = s0.cycle_count % 5 == 0 in
      let s5 = if fifth then check_reconciler_health r.now r.pending_rows s4 else s4 in
      let t1 = regime-IsTidy r.now r.regime_is_stale s0 t in
      let t2 = plugin-IsTidy r.now r.plugin_connected s1 t1 in
      let t3 = rate_limit-IsTidy r.now s2 t2 in
      let t4 = news-IsTidy r.now r.news_age_minutes s3 t3 in
      let t5 =
        if-IsTidy fifth (check_reconciler_health r.now r.pending_rows s4) s4
          (reconciler-IsTidy r.now r.pending_rows s4 t4) t4 in
      if-IsTidy (s0.cycle_count % 2 == 0) (check_db_health r.now r.db_answers s5) s5
        (db-IsTidy r.now r.db_answers s5 t5) t5

  unfoldable pub run : List (Happening F) → Service → Service
  unfolding cycle record_rate_limit_event
  run [] s = s
  run (round r ∷ hs) s = run hs (cycle r s).0
  run (rate_limited now was_ban ∷ hs) s = run hs (record_rate_limit_event now was_ban s)

  -- However the service runs, it holds at most a hundred events, and of each kind at most one that is not
  -- resolved.
  pub run-IsTidy :
      (hs : List (Happening F)) (s : Service) → IsTidy s.events → IsTidy (run hs s).events
  unfolding run
  run-IsTidy [] s t = t
  run-IsTidy (round r ∷ hs) s t = run-IsTidy hs (cycle r s).0 (cycle-IsTidy r s t)
  run-IsTidy (rate_limited now was_ban ∷ hs) s t =
      run-IsTidy hs (record_rate_limit_event now was_ban s) t
