-- ===== src/Cache/Tests.antt =====
-- The cache at concrete inputs, in thousandths.
use quantamental_engine.Base.{
  ℕ, String, true, false, none, some, List, [], ◌∷◌, nat_eq, string_eq, any, ◌≡◌, refl,
}
use quantamental_engine.Base.Int.{ℤ, pos}
use quantamental_engine.Float.{◌≼◌, nought, one}
use quantamental_engine.Float.Fixed.{fixed, fixed-IsArithmetic, literal}
use quantamental_engine.Position.{Position, fresh}
use quantamental_engine.State.{new_account}
use quantamental_engine.App.{App, VersionedState, ws_user, rest, source_eq}
use quantamental_engine.Portfolio.Tests.{tables, app_at}
use quantamental_engine.Cache.{
  should_accept, apply_position_snapshot, has_key, items_from, set_item,
}
use quantamental_engine.Cache.Source.{RestSnapshot}
use quantamental_engine.Cache.Snapshot.{IsOutcome, apply_position_snapshot_lem}
use quantamental_engine.Cache.Incremental.{NormalizedPosition, apply_position_update_incremental}
use quantamental_engine.Cache.Incremental.Closing.{incremental_closed}
use quantamental_engine.Cache.Account.{NormalizedAccount}
use quantamental_engine.Cache.Mark.{apply_mark_price, apply_mark_price-bounds}

abbrev holding : String → String → Position ℤ
holding ticker direction = record fresh {
  ticker = ticker;
  direction = direction;
  entry_timestamp = some "2026-01-05";
  contract_amount = pos 2000;
  average = pos 100000;
}

-- The user stream wrote the positions at 10000.
abbrev live : VersionedState
live = record { sequence = 7; source = ws_user; timestamp_ms = 10000 }

abbrev app : App ℤ
app = record (app_at 1000000) {
  positions = holding "BTCUSDT" "LONG" ∷ holding "ETHUSDT" "SHORT" ∷ [];
  positions_version = live;
}

abbrev poll_at : ℕ → RestSnapshot ℤ
poll_at ts_ms = record {
  now_iso = "2026-01-06";
  now_ms = ts_ms;
  incoming = holding "BTCUSDT" "LONG" ∷ [];
  ts_ms = ts_ms;
}

-- A snapshot without the short: it closes, once.
snapshot_closes :
    (apply_position_snapshot tables "2026-01-06" 16000 rest
      (holding "BTCUSDT" "LONG" ∷ [])
      16000
      false
      app).0
    ≡ some (record {
      closed_syms = "ETHUSDT" ∷ [];
      new_syms = [];
      changed = true;
      closed_positions =
          record { ticker = "ETHUSDT"; direction = "SHORT"; approx_close_ms = 16000 } ∷ [];
    })
unfolding apply_position_snapshot should_accept items_from set_item fresh
snapshot_closes = refl

apply_position_snapshot_lem_example :
    let (result, after) =
      apply_position_snapshot tables "2026-01-06" 16000 rest
        (holding "BTCUSDT" "LONG" ∷ [])
        16000
        false
        app in
    IsOutcome
      (should_accept app.positions_version rest 16000)
      "2026-01-06"
      app
      (holding "BTCUSDT" "LONG" ∷ [])
      result
      after
apply_position_snapshot_lem_example =
    apply_position_snapshot_lem tables "2026-01-06" 16000 rest (holding "BTCUSDT" "LONG" ∷ []) 16000
      false app

abbrev change : String → String → ℕ → NormalizedPosition ℤ
change symbol side size = record {
  symbol = symbol;
  side = side;
  size = pos size;
  entry_price = pos 100000;
  unrealized_pnl = pos 0;
}

abbrev message : List (NormalizedPosition ℤ)
message = change "BTCUSDT" "LONG" 0 ∷ change "BTCUSDT" "LONG" 3000 ∷ []

-- The message opens the position again, and it is gone all the same.
incremental_closed_example :
    any
      (has_key ("BTCUSDT", "LONG"))
      (apply_position_update_incremental tables
        (λ _. "other_alts")
        "2026-01-06"
        12000
        ws_user
        message
        none
        12000
        app).1.positions
    ≡ false
unfolding fresh literal
incremental_closed_example =
    incremental_closed ("BTCUSDT", "LONG") tables (λ _. "other_alts") "2026-01-06" 12000 ws_user
      message none 12000 app refl refl

abbrev account : NormalizedAccount ℤ
account = record {
  total_equity = pos 900000;
  available_margin = pos 900000;
  unrealized_pnl = pos 0;
  initial_margin = pos 0;
  maint_margin = pos 0;
}

apply_mark_price-bounds_example :
    let after = apply_mark_price tables "BTCUSDT" (pos 1000) app in
    (nought ≼ after.account_state.total_equity)
    × (nought ≼ after.account_state.available_margin)
    × (after.account_state.available_margin ≼ after.account_state.total_equity)
    × (nought ≼ after.portfolio.drawdown)
    × (after.portfolio.drawdown ≼ one)
unfolding new_account fresh literal
apply_mark_price-bounds_example =
    apply_mark_price-bounds fixed-IsArithmetic tables "BTCUSDT" (pos 1000) app refl
      (refl, (refl, tt))
