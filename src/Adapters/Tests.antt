-- ===== src/Adapters/Tests.antt =====
-- Messages at concrete inputs, in thousandths.
use quantamental_engine.Base.{
  All, length, String, Option, List, [], ◌∷◌, none, false, not, ◌||◌, none, some, string_eq, ◌≡◌,
  refl,
}
use quantamental_engine.Base.Int.{ℤ, pos}
use quantamental_engine.Float.Fixed.{fixed}
use quantamental_engine.Orders.Row.{OrderDict}
use quantamental_engine.Orders.Tests.{blank}
use quantamental_engine.Gate.{is_new_entry}
use quantamental_engine.Enrichment.{is_child}
use quantamental_engine.Adapters.Maps.{lookup_in, lower, upper, with_suffix, binance_type}
use quantamental_engine.Adapters.Messages.{NormalizedOrder, BybitOrder, parse_bybit_order}
use quantamental_engine.Adapters.Types.{bybit, types_from, type_read_back, stop_gated}
use quantamental_engine.Adapters.Statuses.{IsStatus, open_orders, orders_of, orders_of-IsStatus}
use quantamental_engine.Adapters.Rest.{OpenOrder, fetch_open_orders}

abbrev reported : BybitOrder ℤ
reported = record {
  order_type = some "Market";
  stop_order_type = some "Stop";
  order_status = some "PartiallyFilledCanceled";
  order_id = some "B1";
  order_link_id = none;
  symbol = some "SOLUSDT";
  side = some "Buy";
  time_in_force = some "GTC";
  position_idx = some "1";
  price = none;
  trigger_price = some (pos 101000);
  qty = some (pos 5000);
  cum_exec_qty = none;
  avg_price = none;
  reduce_only = none;
  created_time = some 5;
  updated_time = some 6;
}

-- an entry stop, with a status that is not in the map
read_bybit :
    ((parse_bybit_order reported).order_type ≡ "stop_loss_entry")
    × ((parse_bybit_order reported).status ≡ "new")
    × ((parse_bybit_order reported).side ≡ "BUY")
    × ((parse_bybit_order reported).position_side ≡ "LONG")
unfolding parse_bybit_order with_suffix lookup_in upper
read_bybit = (refl, refl, refl, refl)

unmapped_type : binance_type "STOP_LIMIT" false false ≡ "stop_limit"
unfolding with_suffix lookup_in lower
unmapped_type = refl

type_read_back_example : lookup_in (types_from bybit) "StopLoss" ≡ some "stop_loss"
unfolding lookup_in
type_read_back_example = type_read_back bybit "stop_loss" "StopLoss" refl

abbrev answer : Option String → OpenOrder ℤ
answer symbol = record {
  order_id = some "7";
  client_order_id = none;
  symbol = symbol;
  side = some "BUY";
  order_type = some "STOP_MARKET";
  status = some "EXPIRED_IN_MATCH";
  price = none;
  stop_price = some (pos 101000);
  orig_qty = some (pos 5000);
  executed_qty = none;
  avg_price = none;
  reduce_only = some false;
  close_position = none;
  time_in_force = none;
  position_side = none;
  time = some 5;
  update_time = some 6;
}

-- One record has no symbol, and the status of the other is not in the map.
abbrev answered : List (OpenOrder ℤ)
answered = answer (some "SOLUSDT") ∷ answer none ∷ []

one_order : length (fetch_open_orders answered) ≡ 1
unfolding fetch_open_orders
one_order = refl

orders_of-IsStatus_example :
    All (λ (o : NormalizedOrder ℤ). IsStatus o.status) (orders_of (open_orders answered))
orders_of-IsStatus_example = orders_of-IsStatus (open_orders answered)

abbrev entry_stop : OrderDict ℤ
entry_stop = record blank { order_type = some "stop_loss_entry"; reduce_only = some false }

stop_gated_example :
    (is_new_entry entry_stop ≡ not (false || false)) × (is_child entry_stop ≡ (false || false))
unfolding lookup_in with_suffix
stop_gated_example =
    stop_gated entry_stop "STOP_MARKET" "stop_loss" false false refl refl refl refl refl
