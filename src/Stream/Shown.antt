-- ===== src/Stream/Shown.antt =====
-- What the positions show of their stops and targets once the handler of a message has returned.
use quantamental_engine.Base.{
  ℕ, Bool, true, false, ◌||◌, List, [], ◌∷◌, string_eq, All, ◌≡◌, refl, Bool-cases, inl, inr,
  no_both,
}
use quantamental_engine.Float.{Float, IsOrdered, nought, flt, truthy}
use quantamental_engine.Position.{Position}
use quantamental_engine.Orders.Row.{Order, OrderDict}
use quantamental_engine.Orders.Manager.{
  Manager, matches, mark_of, enrich_position, enrich_positions_tpsl, query_open_orders_all,
  refresh_cache,
}
use quantamental_engine.Orders.Manager.Protection.{IsNearestOf, enrich_position_lem}
use quantamental_engine.Orders.Manager.Update.{update_table}
use quantamental_engine.Stream.{
  Surroundings, StreamMessage, of_order, of_algo, process_order_update, order_update_dict,
  algo_update_dict, apply_order_update, apply_algo_update, handle,
}

module _ {ℓ} {F : Type ℓ} ⦃f : Float F⦄ where
  -- the dictionary that the handler of a message passes on
  abbrev pub dict_of : Surroundings F → StreamMessage F → OrderDict F
  dict_of s (of_order m) = order_update_dict s m
  dict_of s (of_algo m) = algo_update_dict s m

  -- whether the order manager accepts the order of a message
  abbrev pub accepts : Surroundings F → StreamMessage F → Manager F → Bool
  accepts s m h = (update_table s.now_ms s.active_account_id (dict_of s m) h.orders).0

  module _ (laws : IsOrdered F) where
    abbrev pub ShowsOrders : List (Order F) → Position F → Type ℓ
    ShowsOrders open_orders p =
        (truthy (mark_of p) ≡ true
          → IsNearestOf laws "take_profit" p open_orders p.individual_tp_price
            × IsNearestOf laws "stop_loss" p open_orders p.individual_sl_price
            × (p.individual_tpsl
                ≡ (flt nought p.individual_tp_price || flt nought p.individual_sl_price)))
        × (truthy (mark_of p) ≡ false
            → (p.individual_tp_price ≡ nought)
              × (p.individual_sl_price ≡ nought)
              × (p.individual_tpsl ≡ false))

    enrich_position-ShowsOrders :
        (open_orders : List (Order F)) (p : Position F)
        → ShowsOrders open_orders (enrich_position open_orders p)
    unfolding enrich_position matches
    enrich_position-ShowsOrders open_orders p = elim (Bool-cases (truthy (mark_of p))) [
      | inl marked ↦
          let shown = enrich_position_lem laws open_orders p marked in
          rw (marked, marked) (λ m. rw marked at shown, λ unmarked. absurd (no_both refl unmarked))
      | inr unmarked ↦
          rw (unmarked, unmarked) (λ m. absurd (no_both m refl), λ n. (refl, refl, refl))
    ]

    enrich_each-ShowsOrders :
        (open_orders : List (Order F)) (ps : List (Position F))
        → All (ShowsOrders open_orders) (enrich_positions_tpsl open_orders ps)
    unfolding enrich_positions_tpsl
    enrich_each-ShowsOrders open_orders [] = tt
    enrich_each-ShowsOrders open_orders (p ∷ ps) =
        (enrich_position-ShowsOrders open_orders p, enrich_each-ShowsOrders open_orders ps)

    -- The cache is read from the table, and every position shows its orders.
    abbrev pub IsRefreshed : ℕ → Manager F → Type ℓ
    IsRefreshed account_id h =
        (h.open_orders ≡ query_open_orders_all account_id h.orders)
        × All (ShowsOrders h.open_orders) h.positions

    process-IsRefreshed :
        (s : Surroundings F) (o : OrderDict F) (h : Manager F)
        → (update_table s.now_ms s.active_account_id o h.orders).0 ≡ true
        → IsRefreshed s.active_account_id (process_order_update s o h)
    unfolding process_order_update refresh_cache
    process-IsRefreshed s o h accepted = rw accepted (refl, enrich_each-ShowsOrders _ h.positions)

    -- Whatever the positions and the cache showed before, once the handler of an order or an algo
    -- message has returned whose order was accepted, the cache holds the active orders of the account
    -- in the table, and the prices of every position are read from them, not from the message: on a
    -- position with a mark each is that of the nearest matching order, or zero where none matches, and the
    -- flag tells whether one of them is positive; without a mark both are zero and the flag is off.
    pub handle-IsRefreshed :
        (s : Surroundings F) (m : StreamMessage F) (h : Manager F)
        → accepts s m h ≡ true
        → IsRefreshed s.active_account_id (handle (s, m) h)
    unfolding handle apply_order_update apply_algo_update
    handle-IsRefreshed s (of_order m) h accepted =
        process-IsRefreshed s (order_update_dict s m) _ accepted
    handle-IsRefreshed s (of_algo m) h accepted =
        process-IsRefreshed s (algo_update_dict s m) _ accepted
