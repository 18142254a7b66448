-- ===== src/Orders/Manager/Lifecycle.antt =====
-- A snapshot of basic orders and the lifecycle of the orders that were active before it.
use quantamental_engine.Base.{
  ℕ, String, Bool, true, false, ◌&&◌, some, List, ◌==◌, nat_eq, string_eq, ◌≡◌, refl, ◌∙◌, ◌⊎◌, inl,
  inr, arith, All-filter, filter, map, eq_iff, or_else, Bool-cases, is_empty,
}
use quantamental_engine.Float.{Float}
use quantamental_engine.Orders.Row.{Order, OrderDict, row_of}
use quantamental_engine.Orders.Status.{validate_transition, status_eq}
use quantamental_engine.Orders.Store.{
  is_active, resolve, mark_stale_orders_canceled, active_order, cancel_row,
}
use quantamental_engine.Orders.Store.Key.{has_key, row_at, has_key_parts, active_order-row_at}
use quantamental_engine.Orders.Store.Upsert.{batch_keeps}
use quantamental_engine.Orders.Store.Cancel.{row_at-mark_stale, is_canceled}
use quantamental_engine.Orders.Manager.{
  Manager, is_valid, set_account, ids_of, snapshot_table, process_order_snapshot, refresh_cache,
}

-- An active order may be canceled.
active_cancelable : (s : String) → is_active s ≡ true → validate_transition s "canceled" ≡ true
unfolding validate_transition
active_cancelable s h = ground (arith, eq_iff s "new", eq_iff s "partially_filled")

-- What has become of an order with status `s`: nothing, or an accepted change.
abbrev pub Follows : String → String → Type 0
Follows s s' = (s' ≡ s) ⊎ (validate_transition s s' ≡ true)

module _ {ℓ} {F : Type ℓ} ⦃f : Float F⦄ where
  row_of-parts :
      (now_ms a : ℕ) (id : String) (o : OrderDict F)
      → has_key a id (row_of now_ms o) ≡ true
      → (o.exchange_order_id ≡ some id) × ((row_of now_ms o).status ≡ or_else o.status "new")
  unfolding row_of
  row_of-parts now_ms a id o h = ((has_key_parts a id (row_of now_ms o) h).1, refl)

  resolve_status :
      (r n : Order F) → ((resolve r n).status ≡ r.status) ⊎ ((resolve r n).status ≡ n.status)
  unfolding resolve
  resolve_status r n = ground arith

  pub valid_keeps :
      (now_ms a : ℕ) (id : String) (table : List (Order F)) (r : Order F) (o : OrderDict F)
      → (id == "") ≡ false
      → active_order a id table ≡ some r
      → is_valid a table o ≡ true
      → has_key a id (row_of now_ms o) ≡ true
      → (s : Order F) → Follows r.status s.status
      → Follows r.status (resolve s (row_of now_ms o)).status
  unfolding is_valid
  valid_keeps now_ms a id table r o named active valid hit s follows =
      ground (arith, row_of-parts now_ms a id o hit, resolve_status s (row_of now_ms o))

  -- The row that the statements of a snapshot leave for an active order.
  after_cancel :
      (now_ms account_id : ℕ) (ids : List String) (allow : Bool) (id : String) (t : List (Order F))
      (s : String) {r : Order F}
      → is_active s ≡ true
      → row_at account_id id t ≡ some r
      → Follows s r.status
      → (r' : Order F) × (row_at account_id id
            (mark_stale_orders_canceled now_ms account_id ids allow "algo:" "" t).0
          ≡ some r')
        × Follows s r'.status
  after_cancel now_ms account_id ids allow id t s {r} act e follows =
      let after = row_at-mark_stale now_ms account_id ids allow "algo:" "" account_id id t in
      elim (Bool-cases (is_canceled account_id ids allow "algo:" "" r)) [
        | inl yes_ ↦ (cancel_row now_ms r, after ∙ rw (e, yes_), inr (active_cancelable s act))
        | inr no_ ↦ (r, after ∙ rw (e, no_), follows)
      ]

  -- Whatever a snapshot holds, an order that was active in the account is still stored afterwards,
  -- with the same status or with one that an accepted transition leads to.
  pub snapshot_table-Follows :
      (upsert_ms cancel_ms account_id : ℕ) (orders : List (OrderDict F)) (table : List (Order F))
      (id : String) {r : Order F}
      → (id == "") ≡ false
      → row_at account_id id table ≡ some r
      → is_active r.status ≡ true
      → (r' : Order F) × (row_at account_id id
            (snapshot_table upsert_ms cancel_ms account_id orders table)
          ≡ some r')
        × Follows r.status r'.status
  unfolding snapshot_table
  snapshot_table-Follows upsert_ms cancel_ms account_id orders table id {r} named e act =
      let rows = map (set_account account_id) orders in
      let found = active_order-row_at account_id id table e act in
      let (r', stored, follows) =
        batch_keeps account_id id (λ s. Follows r.status s.status) upsert_ms
          (filter (is_valid account_id table) rows) table e (inl refl)
          (All-filter _ (is_valid account_id table) rows
            (λ o valid. valid_keeps upsert_ms account_id id table r o named found valid)) in
      after_cancel cancel_ms account_id (ids_of rows) _ id _ r.status act stored follows

  -- Whatever a snapshot holds, an order with a non-empty id that was active in the account is still
  -- stored after `process_order_snapshot`, with the same status or with one that an accepted
  -- transition leads to.
  pub snapshot-Follows :
      (upsert_ms cancel_ms account_id : ℕ) (orders : List (OrderDict F)) (m : Manager F)
      (id : String) {r : Order F}
      → (id == "") ≡ false
      → row_at account_id id m.orders ≡ some r
      → is_active r.status ≡ true
      → (r' : Order F) × (row_at account_id id
            (process_order_snapshot upsert_ms cancel_ms account_id orders m).orders
          ≡ some r')
        × Follows r.status r'.status
  unfolding process_order_snapshot refresh_cache
  snapshot-Follows upsert_ms cancel_ms account_id orders m id {r} named e act =
      elim (Bool-cases (is_empty orders && is_empty m.open_orders)) [
        | inl idle ↦ (r, rw idle e, inl refl)
        | inr busy ↦
            let (r', stored, follows) =
              snapshot_table-Follows upsert_ms cancel_ms account_id orders m.orders id named e
                act in
            (r', rw busy stored, follows)
      ]
