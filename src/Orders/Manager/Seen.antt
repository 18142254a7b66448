-- ===== src/Orders/Manager/Seen.antt =====
-- An order that snapshots keep showing with an unchanged status: the transition from a status to
-- itself is refused, so the upsert that would refresh `last_seen_ms` is skipped.
use quantamental_engine.Base.{
  ℕ, ◌+◌, ◌<◌, String, Bool, true, false, ◌&&◌, some, List, [], ◌∷◌, ◌==◌, nat_eq, string_eq, ◌≡◌,
  refl, ◌∙◌, inl, inr, arith, All, filter, map, contains, or_else, Bool-cases, is_empty,
}
use quantamental_engine.Float.{Float}
use quantamental_engine.Orders.Row.{Order, OrderDict, row_of}
use quantamental_engine.Orders.Status.{validate_transition, status_eq}
use quantamental_engine.Orders.Store.{
  is_active, mark_stale_orders_canceled, mark_stale_orders, active_order, not_in,
}
use quantamental_engine.Orders.Store.Key.{
  has_key, row_at, row_at-has_key, has_key_parts, active_order-row_at,
}
use quantamental_engine.Orders.Store.Upsert.{row_at-batch_other}
use quantamental_engine.Orders.Store.Cancel.{
  row_at-mark_stale, row_at-mark_stale_orders, is_canceled,
}
use quantamental_engine.Orders.Manager.{
  Manager, is_valid, set_account, ids_of, snapshot_table, process_order_snapshot, refresh_cache,
}

-- No status follows itself.
pub validate_transition_irrefl : (s : String) → validate_transition s s ≡ false
unfolding validate_transition
validate_transition_irrefl s = ground arith

-- A snapshot with its two readings of the clock.
pub record Sent {ℓ} (F : Type ℓ) : Type ℓ where
  pub upsert_ms : ℕ
  pub cancel_ms : ℕ
  pub orders : List (OrderDict F)

and_false_right : (a b c : Bool) → (a && b && c && false) ≡ false
and_false_right a b c = ground arith

module _ {ℓ} {F : Type ℓ} where
  ids_of-set_account :
      (a : ℕ) (os : List (OrderDict F)) → ids_of (map (set_account a) os) ≡ ids_of os
  unfolding ids_of set_account
  ids_of-set_account a [] = refl
  ids_of-set_account a (o ∷ os) = ground (arith, ids_of-set_account a os)

  -- The order with this id, wherever the snapshot shows it, has the status `s`.
  abbrev pub Unchanged : String → String → List (OrderDict F) → Type 0
  Unchanged id s = All (λ o. o.exchange_order_id ≡ some id → or_else o.status "new" ≡ s)

module _ {ℓ} {F : Type ℓ} ⦃f : Float F⦄ where
  row_of-id :
      (now_ms a : ℕ) (id : String) (o : OrderDict F)
      → has_key a id (row_of now_ms o) ≡ true
      → o.exchange_order_id ≡ some id
  unfolding row_of
  row_of-id now_ms a id o h = (has_key_parts a id (row_of now_ms o) h).1

  skipped :
      (now_ms a : ℕ) (id : String) (table : List (Order F)) {r : Order F}
      → (id == "") ≡ false
      → active_order a id table ≡ some r
      → (os : List (OrderDict F)) → Unchanged id r.status os
      → All
          (λ o. has_key a id (row_of now_ms o) ≡ false)
          (filter (is_valid a table) (map (set_account a) os))
  unfolding is_valid set_account
  skipped now_ms a id table named found [] h = tt
  skipped now_ms a id table {r} named found (o ∷ os) h =
      let rest = skipped now_ms a id table {r = r} named found os h.1 in
      let irrefl = validate_transition_irrefl r.status in
      elim (Bool-cases (has_key a id (row_of now_ms (set_account a o)))) [
        | inl hit ↦ ground (arith, row_of-id now_ms a id (set_account a o) hit, h.0)
        | inr miss ↦ ground arith
      ]

  shown_kept :
      (now_ms a : ℕ) (ids : List String) (allow : Bool) (id : String) (t : List (Order F))
      {r : Order F}
      → contains id ids ≡ true
      → row_at a id t ≡ some r
      → row_at a id (mark_stale_orders_canceled now_ms a ids allow "algo:" "" t).0 ≡ some r
  unfolding not_in
  shown_kept now_ms a [] allow id t h e = cc
  shown_kept now_ms a (i ∷ ids) allow id t {r} h e =
      let after = row_at-mark_stale now_ms a (i ∷ ids) allow "algo:" "" a id t in
      let parts = has_key_parts a id r (row_at-has_key a id t e) in
      let kept : is_canceled a (i ∷ ids) allow "algo:" "" r ≡ false =
        rw (parts.1, h) (and_false_right (r.account_id == a) (is_active r.status) _) in
      after ∙ rw (e, kept)

  -- A snapshot that shows an active order with its old status leaves the stored row as it was, its
  -- `last_seen_ms` included.
  pub snapshot-Unchanged :
      (upsert_ms cancel_ms a : ℕ) (orders : List (OrderDict F)) (m : Manager F) (id : String)
      {r : Order F}
      → (id == "") ≡ false
      → row_at a id m.orders ≡ some r
      → is_active r.status ≡ true
      → contains id (ids_of orders) ≡ true
      → Unchanged id r.status orders
      → row_at a id (process_order_snapshot upsert_ms cancel_ms a orders m).orders ≡ some r
  unfolding process_order_snapshot refresh_cache snapshot_table
  snapshot-Unchanged upsert_ms cancel_ms a orders m id {r} named e act shown same =
      elim (Bool-cases (is_empty orders && is_empty m.open_orders)) [
        | inl idle ↦ rw idle e
        | inr busy ↦
            let found = active_order-row_at a id m.orders e act in
            rw busy (
              shown_kept cancel_ms a _ _ id _ (rw (ids_of-set_account a orders) shown) (
                row_at-batch_other a id upsert_ms _ m.orders
                  (skipped upsert_ms a id m.orders named found orders same)
                ∙ e))
      ]

  pub run_snapshots : ℕ → List (Sent F) → Manager F → Manager F
  run_snapshots a [] m = m
  run_snapshots a (s ∷ ss) m =
      run_snapshots a ss (process_order_snapshot s.upsert_ms s.cancel_ms a s.orders m)

  run-Unchanged :
      (a : ℕ) (ss : List (Sent F)) (m : Manager F) (id : String) {r : Order F}
      → (id == "") ≡ false
      → row_at a id m.orders ≡ some r
      → is_active r.status ≡ true
      → All (λ s. (contains id (ids_of s.orders) ≡ true) × Unchanged id r.status s.orders) ss
      → row_at a id (run_snapshots a ss m).orders ≡ some r
  unfolding run_snapshots
  run-Unchanged a [] m id named e act h = e
  run-Unchanged a (s ∷ ss) m id {r} named e act (now, later) =
      run-Unchanged a ss (process_order_snapshot s.upsert_ms s.cancel_ms a s.orders m) id {r = r}
        named (snapshot-Unchanged s.upsert_ms s.cancel_ms a s.orders m id named e act now.0 now.1)
        act later

  -- An order with a non-empty id that is stored as active, and whose id every snapshot since has
  -- shown, always with the same status, is canceled by the staleness sweep once the threshold has
  -- passed since the positive `last_seen_ms` that it was stored with: the snapshots in between do
  -- not refresh it.
  pub shown_order_swept :
      (a : ℕ) (ss : List (Sent F)) (m : Manager F) (id : String) (now_ms threshold : ℕ)
      {r : Order F}
      → (id == "") ≡ false
      → row_at a id m.orders ≡ some r
      → is_active r.status ≡ true
      → 0 < r.last_seen_ms
      → r.last_seen_ms + threshold < now_ms
      → All (λ s. (contains id (ids_of s.orders) ≡ true) × Unchanged id r.status s.orders) ss
      → row_at a id (mark_stale_orders now_ms a threshold (run_snapshots a ss m).orders).0
        ≡ some (record r { status = "canceled"; updated_at_ms = now_ms })
  shown_order_swept a ss m id now_ms threshold {r} named e act seen late h =
      let kept = run-Unchanged a ss m id named e act h in
      let parts = has_key_parts a id r (row_at-has_key a id m.orders e) in
      row_at-mark_stale_orders now_ms a threshold a id (run_snapshots a ss m).orders
      ∙ rw kept (ground arith)
