-- ===== src/Monitoring.antt =====
-- MonitoringService of core/monitoring.py: the ring buffer of events, and the checks of a cycle. The
-- message and the context of an event, which only describe it, are left out. Times are milliseconds;
-- what a check reads stands in `Readings`, `none` where reading it raises or gives nothing to judge.
pub mod Ring
pub mod Counts
pub mod Alerts
pub mod Unheard
mod Tests
use quantamental_engine.Base.{
  ℕ, zero, suc, ◌+◌, ◌-◌, ◌*◌, ◌%◌, String, Bool, true, false, ◌&&◌, ◌||◌, not, Option, none, some,
  List, [], ◌∷◌, ◌++◌, ◌==◌, string_eq, nat_eq, if◌then◌else◌, or_else, ltb, leb, length, filter,
  any, map, take_last, is_empty, drop,
}
use quantamental_engine.Float.{Float, nought, fle, flt}

pub record MonitoringEvent : Type 0 where
  pub kind : String
  pub severity : String
  pub timestamp : ℕ
  pub resolved : Bool
  pub resolved_at : Option ℕ

pub record Service : Type 0 where
  pub events : List MonitoringEvent
  pub ever_plugin_connected : Bool
  -- the time of an event, and whether it was a ban
  pub rate_limit_timestamps : List (ℕ × Bool)
  pub cycle_count : ℕ

abbrev pub event_buffer_max : ℕ
event_buffer_max = 100

abbrev pub new_service : Service
new_service = record {
  events = [];
  ever_plugin_connected = false;
  rate_limit_timestamps = [];
  cycle_count = 0;
}

abbrev pub new_event : ℕ → String → String → MonitoringEvent
new_event now kind severity = record {
  kind = kind;
  severity = severity;
  timestamp = now;
  resolved = false;
  resolved_at = none;
}

-- the trim of the buffer
abbrev pub trim : List MonitoringEvent → List MonitoringEvent
trim es = if ltb event_buffer_max (length es) then take_last event_buffer_max es else es

unfoldable pub emit : ℕ → String → String → List MonitoringEvent → List MonitoringEvent
emit now kind severity es = trim (es ++ (new_event now kind severity ∷ []))

abbrev pub resolve_event : ℕ → String → MonitoringEvent → MonitoringEvent
resolve_event now kind e =
    if e.kind == kind && not e.resolved
    then record e { resolved = true; resolved_at = some now }
    else e

unfoldable pub resolve : ℕ → String → List MonitoringEvent → List MonitoringEvent
resolve now kind es = map (resolve_event now kind) es

unfoldable pub get_active_events : List MonitoringEvent → List MonitoringEvent
get_active_events es = filter (λ e. not e.resolved) es

-- `any(e.kind == kind and not e.resolved for e in self.events)`
abbrev pub is_active : String → List MonitoringEvent → Bool
is_active kind es = any (λ e. e.kind == kind && not e.resolved) es

abbrev pub emit_once : ℕ → String → String → List MonitoringEvent → List MonitoringEvent
emit_once now kind severity es = if not (is_active kind es) then emit now kind severity es else es

-- an alert while the condition lasts
unfoldable pub watch : ℕ → String → String → Bool → List MonitoringEvent → List MonitoringEvent
watch now kind severity bad es = if bad then emit_once now kind severity es else resolve now kind es

-- the checks that only log
pub data Alert {ℓ} (F : Type ℓ) : Type ℓ where
  pnl_anomaly : F → Alert F
  ws_stale : F → Alert F
  position_count_mismatch : ℕ → ℕ → Alert F

pub record Readings {ℓ} (F : Type ℓ) : Type ℓ where
  pub now : ℕ
  -- the total_equity of recent snapshots, oldest first
  pub recent_snapshots : Option (List (Option F))
  pub seconds_since_update : F
  pub using_fallback : Bool
  pub position_count : ℕ
  -- the last snapshot, and its open_positions
  pub last_snapshot : Option (Option ℕ)
  -- `is_stale` of the current regime
  pub regime_is_stale : Option Bool
  pub plugin_connected : Option Bool
  pub news_age_minutes : Option F
  pub pending_rows : Option ℕ
  pub db_answers : Bool

module _ {ℓ} {F : Type ℓ} ⦃f : Float F⦄ where
  abbrev pub last_of : Option F → List (Option F) → Option F
  last_of x [] = x
  last_of x (y ∷ ys) = last_of y ys

  unfoldable pub check_pnl_anomaly : Option (List (Option F)) → List (Alert F)
  check_pnl_anomaly none = []
  check_pnl_anomaly (some []) = []
  check_pnl_anomaly (some (x ∷ [])) = []
  check_pnl_anomaly (some (x ∷ y ∷ ys)) =
      let oldest = or_else x nought in
      let newest = or_else (last_of y ys) nought in
      let drop_pct = f.div (f.sub newest oldest) oldest in
      if fle oldest nought
      then []
      else if flt drop_pct (f.neg (f.lit 1 2))
      then pnl_anomaly drop_pct ∷ []
      else []

  unfoldable pub check_ws_staleness : F → Bool → List (Alert F)
  check_ws_staleness stale_secs using_fallback =
      if flt (f.lit 45 0) stale_secs && not using_fallback then ws_stale stale_secs ∷ [] else []

  unfoldable pub check_position_count : ℕ → Option (Option ℕ) → List (Alert F)
  check_position_count ws_count none = []
  check_position_count ws_count (some open_positions) =
      let db_count = or_else open_positions ws_count in
      if not (ws_count == db_count) then position_count_mismatch ws_count db_count ∷ [] else []

abbrev pub set_events : List MonitoringEvent → Service → Service
set_events es s = record s { events = es }

unfoldable pub check_regime_freshness : ℕ → Option Bool → Service → Service
unfolding watch
check_regime_freshness now stale s =
    set_events (watch now "regime_stale" "warning" (or_else stale true) s.events) s

unfoldable pub check_plugin_connection : ℕ → Option Bool → Service → Service
unfolding emit resolve
check_plugin_connection now none s = s
check_plugin_connection now (some true) s = record s {
  ever_plugin_connected = true;
  events = resolve now "plugin_disconnected" s.events;
}
check_plugin_connection now (some false) s =
    if not s.ever_plugin_connected
    then s
    else set_events (emit_once now "plugin_disconnected" "warning" s.events) s

abbrev pub rate_limit_window_ms : ℕ
rate_limit_window_ms = 30 * 60 * 1000

unfoldable pub record_rate_limit_event : ℕ → Bool → Service → Service
record_rate_limit_event now was_ban s = record s {
  rate_limit_timestamps = s.rate_limit_timestamps ++ ((now, was_ban) ∷ []);
}

-- `ts >= now - window`
abbrev pub in_burst : ℕ → ℕ × Bool → Bool
in_burst now (ts, ban) = leb now (ts + rate_limit_window_ms)

abbrev pub is_ban : ℕ × Bool → Bool
is_ban (ts, ban) = ban

unfoldable pub check_rate_limit_frequency : ℕ → Service → Service
unfolding watch
check_rate_limit_frequency now s =
    let recent = filter (in_burst now) s.rate_limit_timestamps in
    let es = watch now "rate_limit_ban" "critical" (any is_ban recent) s.events in
    record s {
      rate_limit_timestamps = recent;
      events = watch now "rate_limit_burst" "warning" (leb 5 (length recent)) es;
    }

abbrev pub watch_some {ℓ} :
    {A : Type ℓ} → (A → Bool) → ℕ → String → String → Option A → Service → Service
watch_some bad now kind severity none s = s
watch_some bad now kind severity (some a) s =
    set_events (watch now kind severity (bad a) s.events) s

module _ {ℓ} {F : Type ℓ} ⦃f : Float F⦄ where
  unfoldable pub check_news_feed_health : ℕ → Option F → Service → Service
  unfolding watch
  check_news_feed_health now age s =
      watch_some (λ a. flt (f.lit 60 0) a) now "news_stale" "info" age s

unfoldable pub check_reconciler_health : ℕ → Option ℕ → Service → Service
unfolding watch
check_reconciler_health now pending s =
    watch_some (λ n. ltb 20 n) now "reconciler_backlog" "warning" pending s

unfoldable pub check_db_health : ℕ → Bool → Service → Service
unfolding watch
check_db_health now answers s =
    set_events (watch now "db_unreachable" "critical" (not answers) s.events) s

module _ {ℓ} {F : Type ℓ} ⦃f : Float F⦄ where
  -- One round of `run`. One reading of the clock stands for all of a round.
  unfoldable pub cycle : Readings F → Service → Service × List (Alert F)
  unfolding check_regime_freshness check_plugin_connection
  cycle r s =
      let s0 = record s { cycle_count = s.cycle_count + 1 } in
      let alerts =
        check_pnl_anomaly r.recent_snapshots
        ++ (check_ws_staleness r.seconds_since_update r.using_fallback
            ++ check_position_count r.position_count r.last_snapshot) in
      let s1 = check_regime_freshness r.now r.regime_is_stale s0 in
      let s2 = check_plugin_connection r.now r.plugin_connected s1 in
      let s3 = check_rate_limit_frequency r.now s2 in
      let s4 = check_news_feed_health r.now r.news_age_minutes s3 in
      let s5 =
        if s0.cycle_count % 5 == 0 then check_reconciler_health r.now r.pending_rows s4 else s4 in
      let s6 = if s0.cycle_count % 2 == 0 then check_db_health r.now r.db_answers s5 else s5 in
      (s6, alerts)
