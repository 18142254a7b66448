-- ===== src/Adapters/Messages.antt =====
-- The orders that the exchanges report, as the adapters normalise them: core/adapters/binance and
-- core/adapters/bybit (constants.py, ws_adapter.py, rest_adapter.py) with NormalizedOrder of
-- core/adapters/protocols.py. A key that a message may lack is an option. An id is the text that `str`
-- gives of it, and a number is what `float` or `int` gives of the value. Texts are of ASCII.
use Prim.Native.String
use quantamental_engine.Base.{
  ℕ, String, Bool, false, Option, none, some, ◌==◌, nat_eq, string_eq, if◌then◌else◌, or_else,
}
use quantamental_engine.Float.{Float, nought}
use quantamental_engine.Adapters.Maps.{
  upper, binance_status_map, algo_status_map, bybit_status_map, status_in, binance_type, bybit_type,
  side_of_index,
}

-- The order, apart from the fields that none of these parsers sets.
pub record NormalizedOrder {ℓ} (F : Type ℓ) : Type ℓ where
  pub exchange_order_id : String
  pub client_order_id : String
  pub symbol : String
  pub side : String
  pub order_type : String
  pub status : String
  pub price : F
  pub stop_price : F
  pub quantity : F
  pub filled_qty : F
  pub avg_fill_price : F
  pub reduce_only : Bool
  pub time_in_force : String
  pub position_side : String
  pub execution_type : Option String
  pub created_at_ms : ℕ
  pub updated_at_ms : ℕ

-- the dictionary "o" of an ORDER_TRADE_UPDATE, its one-letter keys spelt out, with the time of its message
pub record OrderTradeUpdate {ℓ} (F : Type ℓ) : Type ℓ where
  pub orig_order_type : Option String
  pub order_type : Option String
  pub status : Option String
  pub order_id : Option String
  pub client_order_id : Option String
  pub symbol : Option String
  pub side : Option String
  pub time_in_force : Option String
  pub position_side : Option String
  pub execution_type : Option String
  pub price : Option F
  pub stop_price : Option F
  pub orig_qty : Option F
  pub cum_filled_qty : Option F
  pub avg_price : Option F
  pub reduce_only : Option Bool
  pub close_position : Option Bool
  pub trade_time : Option ℕ
  pub message_time : Option ℕ

-- the dictionary "o" of an ALGO_UPDATE, likewise
pub record AlgoUpdate {ℓ} (F : Type ℓ) : Type ℓ where
  pub order_type : Option String
  pub algo_status : Option String
  pub algo_id : Option String
  pub client_algo_id : Option String
  pub symbol : Option String
  pub side : Option String
  pub time_in_force : Option String
  pub position_side : Option String
  pub price : Option F
  pub trigger_price : Option F
  pub quantity : Option F
  pub reduce_only : Option Bool
  pub close_position : Option Bool
  pub book_time : Option ℕ
  pub update_time : Option ℕ
  pub message_time : Option ℕ

-- the first entry of the data of Bybit's order topic
pub record BybitOrder {ℓ} (F : Type ℓ) : Type ℓ where
  pub order_type : Option String
  pub stop_order_type : Option String
  pub order_status : Option String
  pub order_id : Option String
  pub order_link_id : Option String
  pub symbol : Option String
  pub side : Option String
  pub time_in_force : Option String
  pub position_idx : Option String
  pub price : Option F
  pub trigger_price : Option F
  pub qty : Option F
  pub cum_exec_qty : Option F
  pub avg_price : Option F
  pub reduce_only : Option Bool
  pub created_time : Option ℕ
  pub updated_time : Option ℕ

-- `a or b or 0`
abbrev pub first_time : Option ℕ → Option ℕ → ℕ
first_time a b = if or_else a 0 == 0 then or_else b 0 else or_else a 0

module _ {ℓ} {F : Type ℓ} ⦃f : Float F⦄ where
  unfoldable pub parse_order_update : OrderTradeUpdate F → NormalizedOrder F
  parse_order_update m = record {
    exchange_order_id = or_else m.order_id "";
    client_order_id = or_else m.client_order_id "";
    symbol = or_else m.symbol "";
    side = or_else m.side "";
    order_type =
        binance_type (or_else m.orig_order_type (or_else m.order_type ""))
          (or_else m.reduce_only false) (or_else m.close_position false);
    status = status_in binance_status_map m.status;
    price = or_else m.price nought;
    stop_price = or_else m.stop_price nought;
    quantity = or_else m.orig_qty nought;
    filled_qty = or_else m.cum_filled_qty nought;
    avg_fill_price = or_else m.avg_price nought;
    reduce_only = or_else m.reduce_only false;
    time_in_force = or_else m.time_in_force "";
    position_side = or_else m.position_side "";
    execution_type = some (or_else m.execution_type "");
    created_at_ms = or_else m.trade_time 0;
    updated_at_ms = or_else m.message_time 0;
  }

  unfoldable pub parse_algo_update : AlgoUpdate F → NormalizedOrder F
  parse_algo_update m = record {
    exchange_order_id = String.◌++◌ "algo:" (or_else m.algo_id "");
    client_order_id = or_else m.client_algo_id "";
    symbol = or_else m.symbol "";
    side = or_else m.side "";
    order_type =
        binance_type (or_else m.order_type "") (or_else m.reduce_only false)
          (or_else m.close_position false);
    status = status_in algo_status_map m.algo_status;
    price = or_else m.price nought;
    stop_price = or_else m.trigger_price nought;
    quantity = or_else m.quantity nought;
    filled_qty = nought;
    avg_fill_price = nought;
    reduce_only = or_else m.reduce_only false;
    time_in_force = or_else m.time_in_force "GTC";
    position_side = or_else m.position_side "";
    execution_type = some (or_else m.algo_status "");
    created_at_ms = or_else m.book_time 0;
    updated_at_ms = first_time m.update_time m.message_time;
  }

  unfoldable pub parse_bybit_order : BybitOrder F → NormalizedOrder F
  parse_bybit_order m =
      let reduces = or_else m.reduce_only false in
      record {
        exchange_order_id = or_else m.order_id "";
        client_order_id = or_else m.order_link_id "";
        symbol = or_else m.symbol "";
        side = upper (or_else m.side "");
        order_type = bybit_type (or_else m.order_type "") (or_else m.stop_order_type "") reduces;
        status = status_in bybit_status_map m.order_status;
        price = or_else m.price nought;
        stop_price = or_else m.trigger_price nought;
        quantity = or_else m.qty nought;
        filled_qty = or_else m.cum_exec_qty nought;
        avg_fill_price = or_else m.avg_price nought;
        reduce_only = reduces;
        time_in_force = or_else m.time_in_force "";
        position_side = side_of_index (or_else m.position_idx "0");
        execution_type = none;
        created_at_ms = or_else m.created_time 0;
        updated_at_ms = or_else m.updated_time 0;
      }
