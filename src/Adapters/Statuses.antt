-- ===== src/Adapters/Statuses.antt =====
-- Whatever an exchange reports, the status of a parsed order is one of the engine's.
use quantamental_engine.Base.{
  String, true, ◌&&◌, Option, List, [], ◌∷◌, map, filter, string_eq, All, or_else, is_some, ◌≡◌,
  refl, Option-cases, inl, inr,
}
use quantamental_engine.Float.{Float}
use quantamental_engine.Orders.Status.{order_status}
use quantamental_engine.Adapters.Maps.{
  Dict, lookup_in, status_in, binance_status_map, algo_status_map, bybit_status_map,
}
use quantamental_engine.Adapters.Messages.{
  OrderTradeUpdate, AlgoUpdate, BybitOrder, NormalizedOrder, parse_order_update, parse_algo_update,
  parse_bybit_order,
}
use quantamental_engine.Adapters.Rest.{
  OpenOrder, OpenAlgoOrder, open_order, open_algo_order, fetch_open_orders, fetch_algo_open_orders,
  fetch_order_history,
}
use quantamental_engine.Adapters.Types.{lookup_in_All}

abbrev pub IsStatus : String → Type 0
IsStatus s = is_some (order_status s) ≡ true

abbrev IsStatusMap : Dict → Type 0
IsStatusMap d = All (λ e. IsStatus e.1) d

status_in-IsStatus : (d : Dict) (raw : Option String) → IsStatusMap d → IsStatus (status_in d raw)
unfolding order_status
status_in-IsStatus d raw h = elim (Option-cases (lookup_in d (or_else raw ""))) [
  | inl e ↦ rw e refl
  | inr (v, e) ↦ rw e (lookup_in_All (λ k s. IsStatus s) d (or_else raw "") v h e)
]

binance-IsStatus : (raw : Option String) → IsStatus (status_in binance_status_map raw)
unfolding order_status
binance-IsStatus raw =
    status_in-IsStatus binance_status_map raw
      (refl, (refl, (refl, (refl, (refl, (refl, (refl, (refl, tt))))))))

algo-IsStatus : (raw : Option String) → IsStatus (status_in algo_status_map raw)
unfolding order_status
algo-IsStatus raw =
    status_in-IsStatus algo_status_map raw
      (refl, (refl, (refl, (refl, (refl, (refl, (refl, tt)))))))

-- what an exchange reports about orders: a message of a stream, or an answer
pub data Report {ℓ} (F : Type ℓ) : Type ℓ where
  order_trade_update : OrderTradeUpdate F → Report F
  algo_update : AlgoUpdate F → Report F
  bybit_order : BybitOrder F → Report F
  open_orders : List (OpenOrder F) → Report F
  open_algo_orders : List (OpenAlgoOrder F) → Report F
  order_history : List (OpenOrder F) → Report F

module _ {ℓ} {F : Type ℓ} ⦃f : Float F⦄ where
  abbrev pub orders_of : Report F → List (NormalizedOrder F)
  orders_of (order_trade_update m) = parse_order_update m ∷ []
  orders_of (algo_update m) = parse_algo_update m ∷ []
  orders_of (bybit_order m) = parse_bybit_order m ∷ []
  orders_of (open_orders raw) = fetch_open_orders raw
  orders_of (open_algo_orders raw) = fetch_algo_open_orders raw
  orders_of (order_history raw) = fetch_order_history raw

  All-of_map {κ} :
      {A : Type κ} (g : A → NormalizedOrder F) (xs : List A)
      → ((x : A) → IsStatus (g x).status)
      → All (λ (o : NormalizedOrder F). IsStatus o.status) (map g xs)
  All-of_map g [] h = tt
  All-of_map g (x ∷ xs) h = (h x, All-of_map g xs h)

  open_order-IsStatus : (o : OpenOrder F) → IsStatus (open_order o).status
  unfolding open_order
  open_order-IsStatus o = binance-IsStatus o.status

  open_algo_order-IsStatus : (o : OpenAlgoOrder F) → IsStatus (open_algo_order o).status
  unfolding open_algo_order
  open_algo_order-IsStatus o = algo-IsStatus o.algo_status

  -- Whatever a stream of Binance or Bybit says, or the REST interface of Binance answers, each order that is
  -- read from it has one of the six statuses.
  pub orders_of-IsStatus :
      (r : Report F) → All (λ (o : NormalizedOrder F). IsStatus o.status) (orders_of r)
  unfolding parse_order_update parse_algo_update parse_bybit_order order_status fetch_open_orders
      fetch_algo_open_orders fetch_order_history
  orders_of-IsStatus (order_trade_update m) = (binance-IsStatus m.status, tt)
  orders_of-IsStatus (algo_update m) = (algo-IsStatus m.algo_status, tt)
  orders_of-IsStatus (bybit_order m) = (
    status_in-IsStatus bybit_status_map m.order_status
        (refl, (refl, (refl, (refl, (refl, (refl, (refl, (refl, tt)))))))),
    tt,
  )
  orders_of-IsStatus (open_orders raw) =
      All-of_map open_order (filter (λ o. is_some o.order_id && is_some o.symbol) raw)
        open_order-IsStatus
  orders_of-IsStatus (open_algo_orders raw) =
      All-of_map open_algo_order (filter (λ o. is_some o.algo_id && is_some o.symbol) raw)
        open_algo_order-IsStatus
  orders_of-IsStatus (order_history raw) = All-of_map open_order raw open_order-IsStatus
