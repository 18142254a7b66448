-- ===== src/Stream.antt =====
-- core/ws_manager.py: the handlers of order messages, _apply_order_update and _apply_algo_update. They
-- put the stop and the target of a position in place, and pass the order on to process_order_update of
-- core/order_manager.py. The adapter is that of Binance. A fill in the message is left out, and so is
-- what is published. The order is taken to be persisted: an error there is logged and changes nothing.
-- At the end of process_order_update the cache of open orders is read again, and with it the stops and
-- the targets of all positions are set.
pub mod Amended
pub mod Shown
pub mod Unlinked
mod Tests
use quantamental_engine.Base.{
  ℕ, String, Bool, true, false, ◌&&◌, ◌||◌, not, Option, none, some, List, [], ◌∷◌, ◌==◌, nat_eq,
  string_eq, if◌then◌else◌, or_else, contains,
}
use quantamental_engine.Float.{Float, nought, feq}
use quantamental_engine.Position.{Position}
use quantamental_engine.Orders.Row.{Order, OrderDict}
use quantamental_engine.Orders.Status.{resolve_tpsl_direction}
use quantamental_engine.Orders.Manager.{Manager, refresh_cache}
use quantamental_engine.Orders.Manager.Update.{update_table}
use quantamental_engine.Correlation.{LogRow}
use quantamental_engine.Enrichment.{enrich_order}
use quantamental_engine.Adapters.Maps.{is_stop}
use quantamental_engine.Adapters.Messages.{
  NormalizedOrder, OrderTradeUpdate, AlgoUpdate, parse_order_update, parse_algo_update,
}

-- what a message says of a stop or a target
pub data Standing : Type 0 where
  placed gone other : Standing

abbrev pub one_of : String → List String → Bool
one_of s [] = false
one_of s (t ∷ ts) = s == t || one_of s ts

abbrev pub order_standing : String → Standing
order_standing execution_type =
    if one_of execution_type ("NEW" ∷ "AMENDMENT" ∷ [])
    then placed
    else if one_of execution_type ("CANCELED" ∷ "EXPIRED" ∷ [])
    then gone
    else other

abbrev pub algo_standing : String → Standing
algo_standing algo_status =
    if one_of algo_status ("NEW" ∷ "TRIGGERING" ∷ [])
    then placed
    else if one_of algo_status ("CANCELED" ∷ "EXPIRED" ∷ "REJECTED" ∷ "FINISHED" ∷ [])
    then gone
    else other

module _ {ℓ} {F : Type ℓ} where
  -- the body of a loop that stops at the first row it is for
  unfoldable pub update_first :
      (Position F → Bool) → (Position F → Position F) → List (Position F) → List (Position F)
  update_first p g [] = []
  update_first p g (x ∷ xs) = let rest = update_first p g xs in if p x then g x ∷ xs else x ∷ rest

module _ {ℓ} {F : Type ℓ} ⦃f : Float F⦄ where
  -- what the target or the stop brings: `usd` of a price and a quantity
  abbrev pub gain : Position F → F → F → F
  gain pos price quantity =
      f.mul (if pos.direction == "LONG" then f.sub price pos.average else f.sub pos.average price)
        quantity

  abbrev pub loss : Position F → F → F → F
  loss pos price quantity =
      f.mul (if pos.direction == "LONG" then f.sub pos.average price else f.sub price pos.average)
        quantity

  -- `with_usdt`: an order message sets the amounts in USDT too, an algo message leaves them
  abbrev pub place : Bool → NormalizedOrder F → Position F → Position F
  place with_usdt order pos =
      if order.order_type == "take_profit"
      then record pos {
        individual_tpsl = true;
        individual_tp_price = order.stop_price;
        individual_tp_amount = order.quantity;
        individual_tp_usdt =
            if with_usdt then gain pos order.stop_price order.quantity else pos.individual_tp_usdt;
      }
      else if order.order_type == "stop_loss"
      then record pos {
        individual_tpsl = true;
        individual_sl_price = order.stop_price;
        individual_sl_amount = order.quantity;
        individual_sl_usdt =
            if with_usdt then loss pos order.stop_price order.quantity else pos.individual_sl_usdt;
      }
      else pos

  abbrev pub clear_price : Bool → NormalizedOrder F → Position F → Position F
  clear_price with_usdt order pos =
      if order.order_type == "take_profit"
      then record pos {
        individual_tp_price = nought;
        individual_tp_amount = nought;
        individual_tp_usdt = if with_usdt then nought else pos.individual_tp_usdt;
      }
      else if order.order_type == "stop_loss"
      then record pos {
        individual_sl_price = nought;
        individual_sl_amount = nought;
        individual_sl_usdt = if with_usdt then nought else pos.individual_sl_usdt;
      }
      else pos

  abbrev pub clear_flag : Position F → Position F
  clear_flag pos =
      if feq pos.individual_tp_price nought && feq pos.individual_sl_price nought
      then record pos { individual_tpsl = false }
      else pos

  abbrev pub adjust : Bool → Standing → NormalizedOrder F → Position F → Position F
  adjust with_usdt placed order pos = place with_usdt order pos
  adjust with_usdt gone order pos = clear_flag (clear_price with_usdt order pos)
  adjust with_usdt other order pos = pos

  abbrev pub is_for : NormalizedOrder F → Position F → Bool
  is_for order pos =
      pos.ticker == order.symbol
      && pos.direction == resolve_tpsl_direction (some order.position_side) order.side

  unfoldable pub set_tpsl :
      Bool → Standing → NormalizedOrder F → List (Position F) → List (Position F)
  unfolding update_first
  set_tpsl with_usdt standing order positions =
      if is_stop order.order_type
      then update_first (is_for order) (adjust with_usdt standing order) positions
      else positions

  -- the dictionary for process_order_update
  unfoldable pub order_dict : ℕ → String → F → NormalizedOrder F → OrderDict F
  order_dict account_id source avg_fill_price order = record {
    account_id = some account_id;
    exchange_order_id = some order.exchange_order_id;
    terminal_order_id = some "";
    client_order_id = some order.client_order_id;
    symbol = some order.symbol;
    side = some order.side;
    order_type = some order.order_type;
    status = some order.status;
    price = some order.price;
    stop_price = some order.stop_price;
    quantity = some order.quantity;
    filled_qty = some order.filled_qty;
    avg_fill_price = some avg_fill_price;
    reduce_only = some order.reduce_only;
    time_in_force = some order.time_in_force;
    position_side = some order.position_side;
    exchange_position_id = some "";
    terminal_position_id = some "";
    source = some source;
    created_at_ms = some order.created_at_ms;
    updated_at_ms = some order.updated_at_ms;
    close_position = none;
  }

-- What a handler reads: the clock, the active account, and what the enrichment reads.
pub record Surroundings {ℓ} (F : Type ℓ) : Type ℓ where
  pub now_ms : ℕ
  pub active_account_id : ℕ
  pub precision : String → Option ℕ
  pub cutoff : String
  pub log : List (LogRow F)

module _ {ℓ} {F : Type ℓ} ⦃f : Float F⦄ where
  -- The enrichment of the parent of a stop or a target is left out: it returns early, since the order has
  -- no position id.
  unfoldable pub process_order_update : Surroundings F → OrderDict F → Manager F → Manager F
  unfolding refresh_cache
  process_order_update s o h =
      let (accepted, stored_) = update_table s.now_ms s.active_account_id o h.orders in
      if accepted
      then refresh_cache s.active_account_id
          (record h { orders = enrich_order s.precision s.cutoff s.log o stored_ })
      else h

  abbrev pub order_update_dict : Surroundings F → OrderTradeUpdate F → OrderDict F
  order_update_dict s m =
      let order = parse_order_update m in
      order_dict s.active_account_id "binance_ws" order.avg_fill_price order

  abbrev pub algo_update_dict : Surroundings F → AlgoUpdate F → OrderDict F
  algo_update_dict s m =
      order_dict s.active_account_id "binance_algo_ws" nought (parse_algo_update m)

  unfoldable pub apply_order_update : Surroundings F → OrderTradeUpdate F → Manager F → Manager F
  unfolding process_order_update
  apply_order_update s m h =
      let order = parse_order_update m in
      let standing = order_standing (or_else order.execution_type "") in
      process_order_update s (order_update_dict s m)
        (record h { positions = set_tpsl true standing order h.positions })

  unfoldable pub apply_algo_update : Surroundings F → AlgoUpdate F → Manager F → Manager F
  unfolding process_order_update
  apply_algo_update s m h =
      let order = parse_algo_update m in
      let standing = algo_standing (or_else order.execution_type "") in
      process_order_update s (algo_update_dict s m)
        (record h { positions = set_tpsl false standing order h.positions })

-- a message of the user stream about an order
pub data StreamMessage {ℓ} (F : Type ℓ) : Type ℓ where
  of_order : OrderTradeUpdate F → StreamMessage F
  of_algo : AlgoUpdate F → StreamMessage F

module _ {ℓ} {F : Type ℓ} ⦃f : Float F⦄ where
  -- the part of the dispatch that is about orders
  unfoldable pub handle : Surroundings F × StreamMessage F → Manager F → Manager F
  handle (s, of_order m) h = apply_order_update s m h
  handle (s, of_algo m) h = apply_algo_update s m h

  unfoldable pub handle_all : List (Surroundings F × StreamMessage F) → Manager F → Manager F
  unfolding handle
  handle_all [] h = h
  handle_all (m ∷ ms) h = handle_all ms (handle m h)
