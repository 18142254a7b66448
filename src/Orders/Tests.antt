-- ===== src/Orders/Tests.antt =====
-- Orders at concrete inputs.
use quantamental_engine.Base.{
  ℕ, ◌≤◌, String, true, false, none, some, List, [], ◌∷◌, ◌||◌, length, eq_iff, ◌≡◌, refl, arith,
  contains,
}
use quantamental_engine.Base.Int.{ℤ, pos}
use quantamental_engine.Float.{nought, flt}
use quantamental_engine.Float.Fixed.{fixed, fixed-IsOrdered, literal}
use quantamental_engine.Position.{Position, fresh}
use quantamental_engine.Orders.Row.{Order, OrderDict, row_of}
use quantamental_engine.Orders.Status.{
  new, validate_transition, order_status, status_eq, terminal_states,
}
use quantamental_engine.Orders.Status.Lifecycle.{accepts, accepted_runs}
use quantamental_engine.Orders.Store.{
  mark_stale_orders, mark_stale_orders_canceled, upsert_order_batch, like_prefix, active_order,
  same_id,
}
use quantamental_engine.Orders.Store.Key.{row_at, has_key}
use quantamental_engine.Orders.Manager.{
  Manager, process_order_snapshot, process_algo_snapshot, enrich_position, ids_of,
}
use quantamental_engine.Orders.Manager.Lifecycle.{Follows, snapshot-Follows}
use quantamental_engine.Orders.Manager.Seen.{Sent, run_snapshots, shown_order_swept}
use quantamental_engine.Orders.Manager.Isolation.{snapshots_isolated}
use quantamental_engine.Orders.Manager.Protection.{IsNearestOf, enrich_position_lem}

abbrev pub blank : OrderDict ℤ
blank = record {
  account_id = none;
  exchange_order_id = none;
  terminal_order_id = none;
  client_order_id = none;
  symbol = some "BTCUSDT";
  side = some "SELL";
  order_type = some "take_profit";
  status = none;
  price = none;
  stop_price = none;
  quantity = none;
  filled_qty = none;
  avg_fill_price = none;
  reduce_only = none;
  time_in_force = none;
  position_side = some "BOTH";
  exchange_position_id = none;
  terminal_position_id = none;
  source = none;
  created_at_ms = none;
  updated_at_ms = none;
  close_position = none;
}

abbrev pub sent : String → String → ℕ → OrderDict ℤ
sent id status stop = record blank {
  exchange_order_id = some id;
  status = some status;
  stop_price = some (pos stop);
}

abbrev pub stored : String → String → ℕ → Order ℤ
stored id status stop = row_of 1000 (sent id status stop)

abbrev pub manager : Manager ℤ
manager = record {
  orders = stored "A1" "new" 70000 ∷ stored "A2" "new" 65000 ∷ stored "algo:7" "new" 61000 ∷ [];
  open_orders = [];
  positions = [];
}

-- A1 fills in part, A2 is gone, and A3 appears: A2 is canceled, and the algo order stays.
snapshot_runs :
    let t =
      (process_order_snapshot 2000 2001 1
        (sent "A1" "partially_filled" 70000 ∷ sent "A3" "new" 1 ∷ [])
        manager).orders in
    (row_at 1 "A1" t ≡ some (row_of 2000 (sent "A1" "partially_filled" 70000)))
    × (row_at 1 "A2" t
        ≡ some (record (stored "A2" "new" 65000) { status = "canceled"; updated_at_ms = 2001 }))
    × (row_at 1 "A3" t ≡ some (row_of 2000 (sent "A3" "new" 1)))
    × (row_at 1 "algo:7" t ≡ some (stored "algo:7" "new" 61000))
unfolding process_order_snapshot row_at row_of upsert_order_batch validate_transition
    mark_stale_orders_canceled like_prefix active_order has_key
snapshot_runs = (refl, refl, refl, refl)

abbrev fills : List String
fills = "partially_filled" ∷ "filled" ∷ []

accepted_runs_example : (length fills ≤ 2) × (contains new terminal_states ≡ true → fills ≡ [])
unfolding accepts order_status validate_transition
accepted_runs_example = accepted_runs "new" fills {s = new} refl refl

snapshot-Follows_example :
    (r' : Order ℤ) × (row_at 1 "A2"
        (process_order_snapshot 2000 2001 1 (sent "A1" "filled" 1 ∷ []) manager).orders
      ≡ some r')
    × Follows "new" r'.status
unfolding row_at row_of has_key same_id
snapshot-Follows_example =
    snapshot-Follows 2000 2001 1 (sent "A1" "filled" 1 ∷ []) manager "A2"
      {r = stored "A2" "new" 65000} refl refl refl

abbrev shown : Sent ℤ
shown = record { upsert_ms = 200000; cancel_ms = 200001; orders = sent "A1" "new" 70000 ∷ [] }

shown_order_swept_example :
    row_at 1 "A1"
      (mark_stale_orders 400000 1 300000 (run_snapshots 1 (shown ∷ shown ∷ []) manager).orders).0
    ≡ some (record (stored "A1" "new" 70000) { status = "canceled"; updated_at_ms = 400000 })
unfolding row_at row_of has_key same_id ids_of
shown_order_swept_example =
    shown_order_swept 1 (shown ∷ shown ∷ []) manager "A1" 400000 300000
      {r = stored "A1" "new" 70000} refl refl refl (omega arith) (omega arith)
      ((refl, ((λ _. refl), tt)), ((refl, ((λ _. refl), tt)), tt))

snapshots_isolated_example :
    (like_prefix "algo:" "algo:7" ≡ true
      → row_at 1 "algo:7"
          (process_order_snapshot 2000 2001 1 (sent "A1" "filled" 1 ∷ []) manager).orders
        ≡ some (stored "algo:7" "new" 61000))
    × (like_prefix "algo:" "algo:7" ≡ false
        → row_at 1 "algo:7"
            (process_algo_snapshot 2000 2001 1 (sent "A1" "filled" 1 ∷ []) manager).orders
          ≡ some (stored "algo:7" "new" 61000))
unfolding row_at row_of has_key same_id like_prefix
snapshots_isolated_example =
    snapshots_isolated 2000 2001 1 (sent "A1" "filled" 1 ∷ []) manager "algo:7"
      {r = stored "algo:7" "new" 61000} refl ((λ e. ground (arith, eq_iff "A1" "algo:7")), tt)

abbrev long : Position ℤ
long = record fresh { ticker = "BTCUSDT"; direction = "LONG"; average = pos 66000 }

abbrev book : List (Order ℤ)
book = stored "A1" "new" 70000 ∷ stored "A2" "new" 65000 ∷ []

enrich_position_lem_example :
    let p = enrich_position book long in
    IsNearestOf fixed-IsOrdered "take_profit" long book p.individual_tp_price
    × IsNearestOf fixed-IsOrdered "stop_loss" long book p.individual_sl_price
    × (p.individual_tpsl ≡ (flt nought p.individual_tp_price || flt nought p.individual_sl_price))
unfolding fresh literal
enrich_position_lem_example = enrich_position_lem fixed-IsOrdered book long refl
