-- ===== src/Stream/Unlinked.antt =====
-- No order of the stream is ever linked to a calculation.
use quantamental_engine.Base.{
  ℕ, List, [], ◌∷◌, All, or_else, ◌≡◌, refl, sym, subst, Bool-cases, inl, inr,
}
use quantamental_engine.Float.{Float}
use quantamental_engine.Orders.Row.{Order, OrderDict}
use quantamental_engine.Orders.Manager.{Manager, refresh_cache, is_valid, set_account}
use quantamental_engine.Orders.Manager.Update.{update_table}
use quantamental_engine.Enrichment.Unattached.{IsBare, batch-IsBare, enrich_unattached}
use quantamental_engine.Stream.{
  Surroundings, StreamMessage, of_order, of_algo, order_dict, process_order_update,
  order_update_dict, algo_update_dict, apply_order_update, apply_algo_update, handle, handle_all,
}

module _ {ℓ} {F : Type ℓ} ⦃f : Float F⦄ where
  update_table-IsBare :
      (now_ms a : ℕ) (o : OrderDict F) (t : List (Order F))
      → All IsBare t
      → All IsBare (update_table now_ms a o t).1
  unfolding update_table
  update_table-IsBare now_ms a o t h = elim (Bool-cases (is_valid a t (set_account a o))) [
    | inl valid ↦ rw valid (batch-IsBare now_ms (set_account a o ∷ []) t h)
    | inr refused ↦ rw refused h
  ]

  process-IsBare :
      (s : Surroundings F) (o : OrderDict F) (h : Manager F)
      → or_else o.exchange_position_id "" ≡ ""
      → All IsBare h.orders
      → All IsBare (process_order_update s o h).orders
  unfolding process_order_update refresh_cache
  process-IsBare s o h loose bare =
      let u = update_table s.now_ms s.active_account_id o h.orders in
      let kept = update_table-IsBare s.now_ms s.active_account_id o h.orders bare in
      elim (Bool-cases u.0) [
        | inl accepted ↦ rw accepted (
            subst (All IsBare) (sym (enrich_unattached s.precision s.cutoff s.log o u.1 loose kept))
              kept)
        | inr refused ↦ rw refused bare
      ]

  handle-IsBare :
      (m : Surroundings F × StreamMessage F) (h : Manager F)
      → All IsBare h.orders
      → All IsBare (handle m h).orders
  unfolding handle apply_order_update apply_algo_update order_dict
  handle-IsBare (s, of_order m) h bare = process-IsBare s (order_update_dict s m) _ refl bare
  handle-IsBare (s, of_algo m) h bare = process-IsBare s (algo_update_dict s m) _ refl bare

  -- Whatever messages about orders the stream brings, and whatever the log of calculations holds, no order
  -- of the table is linked to a calculation, nor has the price of a take-profit child, if none had either
  -- at the start.
  pub handle_all-IsBare :
      (ms : List (Surroundings F × StreamMessage F)) (h : Manager F)
      → All IsBare h.orders
      → All IsBare (handle_all ms h).orders
  unfolding handle_all
  handle_all-IsBare [] h bare = bare
  handle_all-IsBare (m ∷ ms) h bare = handle_all-IsBare ms (handle m h) (handle-IsBare m h bare)
