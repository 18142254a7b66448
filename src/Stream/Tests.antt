-- ===== src/Stream/Tests.antt =====
-- The stream at concrete inputs, in thousandths: a stop for a long position, as an order and as an algo
-- order.
use quantamental_engine.Base.{
  String, true, none, some, List, [], ◌∷◌, All, map, string_eq, nat_eq, ◌≡◌, refl,
}
use quantamental_engine.Base.Int.{ℤ, pos, ◌-ℤ◌, ◌*ℤ◌, quot}
use quantamental_engine.Float.Fixed.{fixed, fixed-IsOrdered, literal, times}
use quantamental_engine.Position.{Position, fresh}
use quantamental_engine.Orders.Status.{resolve_tpsl_direction}
use quantamental_engine.Correlation.Tests.{log}
use quantamental_engine.Adapters.Maps.{lookup_in, with_suffix}
use quantamental_engine.Adapters.Messages.{OrderTradeUpdate, parse_order_update}
use quantamental_engine.Enrichment.Unattached.{IsBare}
use quantamental_engine.Stream.{
  order_dict, Surroundings, StreamMessage, of_order, order_update_dict, handle, apply_order_update,
  handle_all, set_tpsl,
}
use quantamental_engine.Orders.Manager.{Manager}
use quantamental_engine.Orders.Manager.Update.{update_table}
use quantamental_engine.Orders.Store.{active_order, same_id}
use quantamental_engine.Orders.Row.{Order, row_of}
use quantamental_engine.Stream.Amended.{ShowsSame, amendment_undone}
use quantamental_engine.Stream.Shown.{IsRefreshed, handle-IsRefreshed}
use quantamental_engine.Stream.Unlinked.{handle_all-IsBare}

abbrev surroundings : Surroundings ℤ
surroundings = record {
  now_ms = 10;
  active_account_id = 1;
  precision = λ _. some 2;
  cutoff = "2024-03-01T12:00";
  log = log;
}

abbrev stop_order : String → String → OrderTradeUpdate ℤ
stop_order execution_type status = record {
  orig_order_type = some "STOP_MARKET";
  order_type = none;
  status = some status;
  order_id = some "77";
  client_order_id = none;
  symbol = some "BTCUSDT";
  side = some "SELL";
  time_in_force = some "GTC";
  position_side = some "BOTH";
  execution_type = some execution_type;
  price = none;
  stop_price = some (pos 48000);
  orig_qty = some (pos 2000);
  cum_filled_qty = none;
  avg_price = none;
  reduce_only = some true;
  close_position = none;
  trade_time = some 5;
  message_time = some 6;
}

abbrev held : Manager ℤ
held = record {
  positions = record fresh { ticker = "BTCUSDT"; direction = "LONG"; average = pos 50000 } ∷ [];
  orders = [];
  open_orders = [];
}

abbrev messages : List (Surroundings ℤ × StreamMessage ℤ)
messages =
    (surroundings, of_order (stop_order "NEW" "NEW"))
    ∷ (surroundings, of_order (stop_order "CANCELED" "CANCELED"))
    ∷ []

stop_placed :
    map
      (λ (p : Position ℤ). p.individual_sl_usdt)
      (apply_order_update surroundings (stop_order "NEW" "NEW") held).positions
    ≡ pos 4000 ∷ []
unfolding apply_order_update parse_order_update with_suffix lookup_in resolve_tpsl_direction fresh
    literal times ◌-ℤ◌ ◌*ℤ◌ quot set_tpsl update_table order_dict active_order
stop_placed = refl

handle-IsRefreshed_example :
    IsRefreshed fixed-IsOrdered 1 (handle (surroundings, of_order (stop_order "NEW" "NEW")) held)
unfolding parse_order_update with_suffix lookup_in update_table order_dict active_order
handle-IsRefreshed_example =
    handle-IsRefreshed fixed-IsOrdered surroundings (of_order (stop_order "NEW" "NEW")) held refl

handle_all-IsBare_example : All IsBare (handle_all messages held).orders
handle_all-IsBare_example = handle_all-IsBare messages held tt

-- the stop, as the table holds it
abbrev resting : Order ℤ
resting = row_of 10 (order_update_dict surroundings (stop_order "NEW" "NEW"))

abbrev stopped : Manager ℤ
stopped = record held { orders = resting ∷ [] }

-- the stop moved, and a second stop
abbrev moved : StreamMessage ℤ
moved = of_order (record (stop_order "AMENDMENT" "NEW") { stop_price = some (pos 47000) })

abbrev second : StreamMessage ℤ
second = of_order (record (stop_order "NEW" "NEW") { order_id = some "78" })

amendment_undone_example :
    ((handle (surroundings, moved) stopped).orders ≡ stopped.orders)
    × ShowsSame
        (handle (surroundings, second) (handle (surroundings, moved) stopped))
        (handle (surroundings, second) stopped)
unfolding parse_order_update with_suffix lookup_in update_table order_dict active_order row_of
    same_id
amendment_undone_example =
    amendment_undone surroundings surroundings moved second stopped {r = resting} refl refl refl
      refl
