-- ===== src/Adapters/Rest.antt =====
-- core/adapters/binance/rest_adapter.py: the open orders that the REST interface gives, the basic ones
-- and the algo ones. A raw answer is a list of records; one that lacks a critical field is left out.
use Prim.Native.String
use quantamental_engine.Base.{
  ℕ, String, Bool, false, ◌&&◌, Option, none, List, or_else, is_some, filter, map,
}
use quantamental_engine.Float.{Float, nought}
use quantamental_engine.Adapters.Maps.{binance_type, status_in, binance_status_map, algo_status_map}
use quantamental_engine.Adapters.Messages.{NormalizedOrder}

-- a record of an open order
pub record OpenOrder {ℓ} (F : Type ℓ) : Type ℓ where
  pub order_id : Option String
  pub client_order_id : Option String
  pub symbol : Option String
  pub side : Option String
  pub order_type : Option String
  pub status : Option String
  pub price : Option F
  pub stop_price : Option F
  pub orig_qty : Option F
  pub executed_qty : Option F
  pub avg_price : Option F
  pub reduce_only : Option Bool
  pub close_position : Option Bool
  pub time_in_force : Option String
  pub position_side : Option String
  pub time : Option ℕ
  pub update_time : Option ℕ

-- a record of an open algo order
pub record OpenAlgoOrder {ℓ} (F : Type ℓ) : Type ℓ where
  pub algo_id : Option String
  pub client_algo_id : Option String
  pub symbol : Option String
  pub side : Option String
  pub order_type : Option String
  pub algo_status : Option String
  pub price : Option F
  pub trigger_price : Option F
  pub total_qty : Option F
  pub executed_qty : Option F
  pub reduce_only : Option Bool
  pub close_position : Option Bool
  pub time_in_force : Option String
  pub position_side : Option String
  pub book_time : Option ℕ
  pub update_time : Option ℕ

module _ {ℓ} {F : Type ℓ} ⦃f : Float F⦄ where
  unfoldable pub open_order : OpenOrder F → NormalizedOrder F
  open_order o = record {
    exchange_order_id = or_else o.order_id "";
    client_order_id = or_else o.client_order_id "";
    symbol = or_else o.symbol "";
    side = or_else o.side "";
    order_type =
        binance_type (or_else o.order_type "") (or_else o.reduce_only false)
          (or_else o.close_position false);
    status = status_in binance_status_map o.status;
    price = or_else o.price nought;
    stop_price = or_else o.stop_price nought;
    quantity = or_else o.orig_qty nought;
    filled_qty = or_else o.executed_qty nought;
    avg_fill_price = or_else o.avg_price nought;
    reduce_only = or_else o.reduce_only false;
    time_in_force = or_else o.time_in_force "";
    position_side = or_else o.position_side "";
    execution_type = none;
    created_at_ms = or_else o.time 0;
    updated_at_ms = or_else o.update_time 0;
  }

  unfoldable pub fetch_open_orders : List (OpenOrder F) → List (NormalizedOrder F)
  unfolding open_order
  fetch_open_orders raw_orders =
      map open_order (filter (λ o. is_some o.order_id && is_some o.symbol) raw_orders)

  unfoldable pub open_algo_order : OpenAlgoOrder F → NormalizedOrder F
  open_algo_order o = record {
    exchange_order_id = String.◌++◌ "algo:" (or_else o.algo_id "");
    client_order_id = or_else o.client_algo_id "";
    symbol = or_else o.symbol "";
    side = or_else o.side "";
    order_type =
        binance_type (or_else o.order_type "") (or_else o.reduce_only false)
          (or_else o.close_position false);
    status = status_in algo_status_map o.algo_status;
    price = or_else o.price nought;
    stop_price = or_else o.trigger_price nought;
    quantity = or_else o.total_qty nought;
    filled_qty = or_else o.executed_qty nought;
    avg_fill_price = nought;
    reduce_only = or_else o.reduce_only false;
    time_in_force = or_else o.time_in_force "GTC";
    position_side = or_else o.position_side "";
    execution_type = none;
    created_at_ms = or_else o.book_time 0;
    updated_at_ms = or_else o.update_time 0;
  }

  unfoldable pub fetch_algo_open_orders : List (OpenAlgoOrder F) → List (NormalizedOrder F)
  unfolding open_algo_order
  fetch_algo_open_orders raw =
      map open_algo_order (filter (λ o. is_some o.algo_id && is_some o.symbol) raw)

  -- the whole history, of a symbol or of all; no record is left out
  unfoldable pub fetch_order_history : List (OpenOrder F) → List (NormalizedOrder F)
  unfolding open_order
  fetch_order_history raw_orders = map open_order raw_orders
