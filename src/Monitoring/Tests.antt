-- ===== src/Monitoring/Tests.antt =====
-- The monitoring service at concrete readings, in thousandths.
use quantamental_engine.Base.{
  ℕ, ◌≤◌, true, false, some, List, [], ◌∷◌, map, take_last, ◌≡◌, refl, arith, length,
}
use quantamental_engine.Base.Int.{ℤ, pos}
use quantamental_engine.Float.Fixed.{fixed, literal}
use quantamental_engine.Monitoring.{
  Readings, new_service, event_buffer_max, emit, get_active_events, check_news_feed_health,
  check_rate_limit_frequency, check_db_health,
}
use quantamental_engine.Monitoring.Ring.{
  Op, emitted, resolved_all, run_ring, run_log, run_ring_refines,
}
use quantamental_engine.Monitoring.Counts.{active_count, IsTidy}
use quantamental_engine.Monitoring.Alerts.{Happening, round, rate_limited, run, run-IsTidy}
use quantamental_engine.Monitoring.Unheard.{unheard}

abbrev ops : List Op
ops =
    emitted 1 "news_stale" "info"
    ∷ emitted 2 "regime_stale" "warning"
    ∷ resolved_all 3 "news_stale"
    ∷ []

one_active : length (get_active_events (run_ring ops [])) ≡ 1
unfolding get_active_events run_ring
one_active = refl

run_ring_refines_example :
    run_ring ops (take_last event_buffer_max []) ≡ take_last event_buffer_max (run_log ops [])
run_ring_refines_example = run_ring_refines ops []

-- the regime is stale, the plugin is gone, and the database does not answer
abbrev troubled : ℕ → Readings ℤ
troubled now = record {
  now = now;
  recent_snapshots = some (some (pos 1000) ∷ some (pos 999) ∷ []);
  seconds_since_update = pos 1000;
  using_fallback = false;
  position_count = 2;
  last_snapshot = some (some 2);
  regime_is_stale = some true;
  plugin_connected = some false;
  news_age_minutes = some (pos 5000);
  pending_rows = some 3;
  db_answers = false;
}

-- five rate limits in a window, one of them a ban
abbrev happenings : List (Happening ℤ)
happenings =
    rate_limited 1 false
    ∷ rate_limited 2 true
    ∷ rate_limited 3 false
    ∷ rate_limited 4 false
    ∷ rate_limited 5 false
    ∷ round (troubled 10)
    ∷ round (troubled 20)
    ∷ []

four_alerts : length (run happenings new_service).events ≡ 4
unfolding run literal emit check_news_feed_health check_rate_limit_frequency check_db_health
four_alerts = refl

empty-IsTidy : IsTidy []
unfolding IsTidy active_count
empty-IsTidy = (omega arith, λ kind. omega arith)

run-IsTidy_example : IsTidy (run happenings new_service).events
run-IsTidy_example = run-IsTidy happenings new_service empty-IsTidy

unheard_example :
    active_count "rate_limit_burst"
      (run (map round (troubled 10 ∷ troubled 20 ∷ [])) new_service).events
    ≤ active_count "rate_limit_burst" new_service.events
unheard_example =
    unheard "rate_limit_burst" (troubled 10 ∷ troubled 20 ∷ []) new_service
      (refl, refl, refl, refl, refl) refl
