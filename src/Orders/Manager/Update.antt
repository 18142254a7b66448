-- ===== src/Orders/Manager/Update.antt =====
-- `process_order_update` of core/order_manager.py: the check and the upsert of one order of the user
-- stream. What follows them there enriches the row, publishes, and refreshes the cache.
use quantamental_engine.Base.{
  ℕ, ◌≤◌, String, Bool, true, false, none, some, List, [], ◌∷◌, ◌==◌, nat_eq, string_eq,
  if◌then◌else◌, or_else, All, ◌≡◌, refl, ap, ◌∙◌, inl, inr, arith, Bool-cases, eq_iff,
}
use quantamental_engine.Float.{Float}
use quantamental_engine.Orders.Row.{Order, OrderDict, row_of}
use quantamental_engine.Orders.Store.{
  is_active, upsert_order_batch, active_order, conflicts, resolve, overwrite, same_id,
}
use quantamental_engine.Orders.Store.Key.{
  has_key, row_at, KeysUnique, conflicts_of_has_key, active_order-row_at,
}
use quantamental_engine.Orders.Store.Upsert.{batch_keeps, row_at-upsert}
use quantamental_engine.Orders.Manager.{is_valid, set_account}
use quantamental_engine.Orders.Manager.Lifecycle.{Follows, valid_keeps}

module _ {ℓ} {F : Type ℓ} ⦃f : Float F⦄ where
  -- (accepted, the orders table); the clock is read by the upsert
  unfoldable pub update_table : ℕ → ℕ → OrderDict F → List (Order F) → Bool × List (Order F)
  unfolding is_valid set_account
  update_table now_ms account_id order table =
      let row = set_account account_id order in
      if is_valid account_id table row
      then (true, upsert_order_batch now_ms (row ∷ []) table)
      else (false, table)

  -- An update leaves an order with a non-empty id that was active in the account stored, with the
  -- same status or with one that an accepted transition leads to.
  pub update_table-Follows :
      (now_ms a : ℕ) (o : OrderDict F) (table : List (Order F)) (id : String) {r : Order F}
      → (id == "") ≡ false
      → row_at a id table ≡ some r
      → is_active r.status ≡ true
      → (r' : Order F) × (row_at a id (update_table now_ms a o table).1 ≡ some r')
        × Follows r.status r'.status
  unfolding update_table
  update_table-Follows now_ms a o table id {r} named e act =
      let found = active_order-row_at a id table e act in
      elim (Bool-cases (is_valid a table (set_account a o))) [
        | inl valid ↦ rw valid (
            batch_keeps a id (λ s. Follows r.status s.status) now_ms (set_account a o ∷ []) table e
              (inl refl)
              (
                (λ hit s.
                    valid_keeps now_ms a id table r (set_account a o) named found valid hit s),
                tt,
              ))
        | inr refused ↦ rw refused (r, e, inl refl)
      ]

  fresh_unseen :
      (a : ℕ) (id : String) (q : Order F) (t : List (Order F))
      → has_key a id q ≡ true
      → All (λ s. conflicts s q ≡ false) t
      → active_order a id t ≡ none
  unfolding active_order has_key
  fresh_unseen a id q [] h k = refl
  fresh_unseen a id q (s ∷ t) h k =
      ground (arith, fresh_unseen a id q t h k.1, conflicts_of_has_key a id s q)

  terminal_unseen :
      (a : ℕ) (id : String) (t : List (Order F)) {r : Order F}
      → KeysUnique t
      → row_at a id t ≡ some r
      → is_active r.status ≡ false
      → active_order a id t ≡ none
  unfolding row_at active_order has_key
  terminal_unseen a id [] h e dead = refl
  terminal_unseen a id (q ∷ t) {r} h e dead =
      ground (arith, terminal_unseen a id t {r = r} h.1, fresh_unseen a id q t _ h.0)

  unseen_valid :
      (a : ℕ) (id : String) (o : OrderDict F) (table : List (Order F))
      → o.exchange_order_id ≡ some id
      → active_order a id table ≡ none
      → is_valid a table (set_account a o) ≡ true
  unfolding is_valid set_account
  unseen_valid a id o table is_id unseen = ground arith

  keyed :
      (now_ms a : ℕ) (id : String) (o : OrderDict F)
      → o.exchange_order_id ≡ some id
      → or_else o.account_id a ≡ a
      → has_key a id (row_of now_ms (set_account a o)) ≡ true
  unfolding has_key row_of set_account same_id
  keyed now_ms a id o is_id same_account = ground (arith, eq_iff id id)

  newer_wins :
      (now_ms a : ℕ) (o : OrderDict F) (r : Order F)
      → r.updated_at_ms ≤ or_else o.updated_at_ms now_ms
      → resolve r (row_of now_ms (set_account a o)) ≡ overwrite r (row_of now_ms (set_account a o))
  unfolding resolve row_of set_account
  newer_wins now_ms a o r late = ground arith

  row_at-single :
      (now_ms a : ℕ) (id : String) (o : OrderDict F) (table : List (Order F)) {r : Order F}
      → has_key a id (row_of now_ms (set_account a o)) ≡ true
      → row_at a id table ≡ some r
      → row_at a id (upsert_order_batch now_ms (set_account a o ∷ []) table)
        ≡ some (resolve r (row_of now_ms (set_account a o)))
  unfolding upsert_order_batch
  row_at-single now_ms a id o table hit e =
      row_at-upsert a id (row_of now_ms (set_account a o)) table ∙ rw (hit, e) refl

  -- In a table with unique keys, an update that names no other account, for an order with a non-empty id
  -- that is stored in a status that is not active, and whose stamp is not older than the stored
  -- one, is accepted, and gives the order back whatever status it carries: no transition is
  -- checked, since only active orders are looked up.
  pub terminal_overwritten :
      (now_ms a : ℕ) (o : OrderDict F) (table : List (Order F)) (id : String) {r : Order F}
      → KeysUnique table
      → (id == "") ≡ false
      → row_at a id table ≡ some r
      → is_active r.status ≡ false
      → o.exchange_order_id ≡ some id
      → or_else o.account_id a ≡ a
      → r.updated_at_ms ≤ or_else o.updated_at_ms now_ms
      → let (accepted, after) = update_table now_ms a o table in
        let row = row_of now_ms (set_account a o) in
        (accepted ≡ true)
        × (row_at a id after ≡ some (overwrite r row))
        × ((overwrite r row).status ≡ or_else o.status "new")
  unfolding update_table overwrite row_of
  terminal_overwritten now_ms a o table id {r} unique named e dead is_id same_account late =
      let unseen = terminal_unseen a id table {r = r} unique e dead in
      let valid = unseen_valid a id o table is_id unseen in
      let stored = row_at-single now_ms a id o table (keyed now_ms a id o is_id same_account) e in
      rw valid (refl, stored ∙ ap some (newer_wins now_ms a o r late), refl)
