-- ===== src/Orders/Manager.antt =====
-- `OrderManager` of core/order_manager.py over the orders table: the snapshots of basic and of algo
-- orders, the cache of open orders, and the take-profit and stop-loss prices of the positions.
pub mod Isolation
pub mod Lifecycle
pub mod Protection
pub mod Seen
pub mod Update
mod Tests
use quantamental_engine.Base.{
  ℕ, ◌<◌, String, Bool, true, false, ◌&&◌, ◌||◌, not, Option, none, some, List, [], ◌∷◌, ◌==◌,
  nat_eq, string_eq, if◌then◌else◌, filter, leb, or_else, map, is_empty,
}
use quantamental_engine.Float.{Float, nought, truthy, fabs, flt, fle}
use quantamental_engine.Position.{Position}
use quantamental_engine.Orders.Row.{Order, OrderDict, present}
use quantamental_engine.Orders.Status.{validate_transition, resolve_tpsl_direction}
use quantamental_engine.Orders.Store.{
  is_active, upsert_order_batch, mark_stale_orders_canceled, active_order,
}

pub record Manager {ℓ} (F : Type ℓ) : Type ℓ where
  -- the orders table
  pub orders : List (Order F)
  -- `_open_orders`, the cache
  pub open_orders : List (Order F)
  -- `app_state.positions`
  pub positions : List (Position F)

module _ {ℓ} {F : Type ℓ} where
  -- ORDER BY created_at_ms DESC
  unfoldable pub insert_by_created : Order F → List (Order F) → List (Order F)
  insert_by_created r [] = r ∷ []
  insert_by_created r (s ∷ t) =
      if leb s.created_at_ms r.created_at_ms then r ∷ s ∷ t else s ∷ insert_by_created r t

  unfoldable pub query_open_orders_all : ℕ → List (Order F) → List (Order F)
  unfolding insert_by_created
  query_open_orders_all account_id [] = []
  query_open_orders_all account_id (r ∷ t) =
      let rest = query_open_orders_all account_id t in
      if r.account_id == account_id && is_active r.status then insert_by_created r rest else rest

  -- `o.setdefault("account_id", account_id)`
  unfoldable pub set_account : ℕ → OrderDict F → OrderDict F
  set_account account_id o = record o { account_id = some (or_else o.account_id account_id) }

  -- the ids that are there, `[o["exchange_order_id"] for o in orders if o.get("exchange_order_id")]`
  unfoldable pub ids_of : List (OrderDict F) → List String
  ids_of [] = []
  ids_of (o ∷ os) =
      let rest = ids_of os in
      elim o.exchange_order_id [ none ↦ rest | some i ↦ if i == "" then rest else i ∷ rest ]

  -- Whether a snapshot's order passes the check of its transition.
  unfoldable pub is_valid : ℕ → List (Order F) → OrderDict F → Bool
  is_valid account_id table o = elim o.exchange_order_id [
    | none ↦ true
    | some eid ↦ if eid == "" then true else elim (active_order account_id eid table) [
      | none ↦ true
      | some r ↦ validate_transition r.status (or_else o.status "new")
    ]
  ]

module _ {ℓ} {F : Type ℓ} ⦃f : Float F⦄ where
  -- `min(orders, key=lambda o: abs(o.stop_price - mark))`: the first of the nearest
  unfoldable pub nearest : F → Order F → List (Order F) → Order F
  nearest mark best [] = best
  nearest mark best (o ∷ os) =
      nearest mark
        (if flt (fabs (f.sub o.stop_price mark)) (fabs (f.sub best.stop_price mark))
          then o
          else best)
        os

  unfoldable pub matches : String → Position F → Order F → Bool
  matches order_type pos o =
      o.symbol == pos.ticker
      && resolve_tpsl_direction (some o.position_side) o.side == pos.direction
      && o.order_type == order_type
      && is_active o.status

  unfoldable pub trigger_price : F → List (Order F) → F
  unfolding nearest
  trigger_price mark [] = nought
  trigger_price mark (o ∷ os) = (nearest mark o os).stop_price

  -- `pos.fair_price or pos.average`
  abbrev pub mark_of : Position F → F
  mark_of pos = if truthy pos.fair_price then pos.fair_price else pos.average

  unfoldable pub enrich_position : List (Order F) → Position F → Position F
  unfolding trigger_price matches
  enrich_position open_orders pos =
      let mark = mark_of pos in
      if not (truthy mark)
      then record pos {
        individual_tp_price = nought;
        individual_sl_price = nought;
        individual_tpsl = false;
      }
      else let tp = trigger_price mark (filter (matches "take_profit" pos) open_orders) in
        let sl = trigger_price mark (filter (matches "stop_loss" pos) open_orders) in
        record pos {
          individual_tp_price = tp;
          individual_sl_price = sl;
          individual_tpsl = flt nought tp || flt nought sl;
        }

  unfoldable pub enrich_positions_tpsl : List (Order F) → List (Position F) → List (Position F)
  unfolding enrich_position
  enrich_positions_tpsl open_orders [] = []
  enrich_positions_tpsl open_orders (p ∷ ps) =
      enrich_position open_orders p ∷ enrich_positions_tpsl open_orders ps

  unfoldable pub refresh_cache : ℕ → Manager F → Manager F
  unfolding query_open_orders_all enrich_positions_tpsl
  refresh_cache account_id m =
      let open_orders = query_open_orders_all account_id m.orders in
      record m {
        open_orders = open_orders;
        positions = enrich_positions_tpsl open_orders m.positions;
      }

  -- The table after steps 1 to 4 of a snapshot; the clock is read by the upsert and by the cancel.
  unfoldable pub snapshot_table : ℕ → ℕ → ℕ → List (OrderDict F) → List (Order F) → List (Order F)
  unfolding is_valid set_account ids_of
  snapshot_table upsert_ms cancel_ms account_id orders table =
      let rows = map (set_account account_id) orders in
      let valid_orders = filter (is_valid account_id table) rows in
      let stored = upsert_order_batch upsert_ms valid_orders table in
      let active_ids = ids_of rows in
      (mark_stale_orders_canceled cancel_ms account_id active_ids
        (not (is_empty orders) && is_empty active_ids) "algo:" "" stored).0

  unfoldable pub process_order_snapshot : ℕ → ℕ → ℕ → List (OrderDict F) → Manager F → Manager F
  unfolding snapshot_table refresh_cache
  process_order_snapshot upsert_ms cancel_ms account_id orders m =
      if is_empty orders && is_empty m.open_orders
      then m
      else refresh_cache account_id
          (record m { orders = snapshot_table upsert_ms cancel_ms account_id orders m.orders })

  unfoldable pub algo_table : ℕ → ℕ → ℕ → List (OrderDict F) → List (Order F) → List (Order F)
  unfolding set_account ids_of
  algo_table upsert_ms cancel_ms account_id orders table =
      let rows = map (set_account account_id) orders in
      let stored = upsert_order_batch upsert_ms rows table in
      (mark_stale_orders_canceled cancel_ms account_id (ids_of rows) (is_empty orders) "" "algo:"
        stored).0

  unfoldable pub process_algo_snapshot : ℕ → ℕ → ℕ → List (OrderDict F) → Manager F → Manager F
  unfolding algo_table refresh_cache
  process_algo_snapshot upsert_ms cancel_ms account_id orders m =
      refresh_cache account_id
        (record m { orders = algo_table upsert_ms cancel_ms account_id orders m.orders })
