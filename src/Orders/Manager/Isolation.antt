-- ===== src/Orders/Manager/Isolation.antt =====
-- Basic snapshots and algo snapshots leave each other's orders alone.
use quantamental_engine.Base.{
  ℕ, String, Bool, true, false, ◌&&◌, Option, some, List, [], ◌∷◌, nat_eq, string_eq, ◌≡◌, ◌≢◌,
  refl, ◌∙◌, inl, inr, arith, All, filter, map, Bool-cases, is_empty, nat_beq_iff,
}
use quantamental_engine.Float.{Float}
use quantamental_engine.Orders.Row.{Order, OrderDict, row_of}
use quantamental_engine.Orders.Store.{
  is_active, mark_stale_orders_canceled, like_prefix, in_scope, scope_clause, upsert_order_batch,
  only,
}
use quantamental_engine.Orders.Store.Key.{has_key, row_at, row_at-has_key, has_key_parts}
use quantamental_engine.Orders.Store.Upsert.{row_at-batch_other}
use quantamental_engine.Orders.Store.Cancel.{row_at-mark_stale, is_canceled}
use quantamental_engine.Orders.Manager.{
  Manager, set_account, snapshot_table, algo_table, process_order_snapshot, process_algo_snapshot,
  refresh_cache,
}

-- No order of the snapshot has this id.
abbrev pub Absent {ℓ} : {F : Type ℓ} → String → List (OrderDict F) → Type 0
Absent id = All (λ o. o.exchange_order_id ≢ some id)

module _ {ℓ} {F : Type ℓ} ⦃f : Float F⦄ (now_ms a : ℕ) (id : String) where
  not_written :
      (o : OrderDict F)
      → o.exchange_order_id ≢ some id
      → has_key a id (row_of now_ms (set_account a o)) ≡ false
  unfolding row_of set_account
  not_written o h = elim (Bool-cases (has_key a id (row_of now_ms (set_account a o)))) [
    | inl hit ↦ absurd (h (has_key_parts a id (row_of now_ms (set_account a o)) hit).1)
    | inr miss ↦ miss
  ]

  Absent-map :
      (os : List (OrderDict F))
      → Absent id os
      → All (λ o. has_key a id (row_of now_ms o) ≡ false) (map (set_account a) os)
  Absent-map [] h = tt
  Absent-map (o ∷ os) h = (not_written o h.0, Absent-map os h.1)

  Absent-filter :
      (p : OrderDict F → Bool) (os : List (OrderDict F))
      → All (λ o. has_key a id (row_of now_ms o) ≡ false) os
      → All (λ o. has_key a id (row_of now_ms o) ≡ false) (filter p os)
  Absent-filter p [] h = tt
  Absent-filter p (o ∷ os) h = ground (arith, Absent-filter p os h.1)

scope_algo :
    (id : Option String) → in_scope (scope_clause "" "algo:") id ≡ in_scope (only "algo:") id
unfolding scope_clause
scope_algo id = refl

module _ {ℓ} {F : Type ℓ} where
  out_of_scope :
      (now_ms a : ℕ) (ids : List String) (allow : Bool) (ex on id : String) (t : List (Order F))
      {r : Order F}
      → row_at a id t ≡ some r
      → in_scope (scope_clause ex on) (some id) ≡ false
      → row_at a id (mark_stale_orders_canceled now_ms a ids allow ex on t).0 ≡ some r
  out_of_scope now_ms a ids allow ex on id t {r} e out =
      let parts = has_key_parts a id r (row_at-has_key a id t e) in
      let kept : is_canceled a ids allow ex on r ≡ false = rw (parts.1, out) (ground arith) in
      row_at-mark_stale now_ms a ids allow ex on a id t ∙ rw (e, kept)

module _ {ℓ} {F : Type ℓ} ⦃f : Float F⦄ where
  -- A basic snapshot that does not hold an algo order leaves it alone, and an algo snapshot leaves
  -- alone every order that is not an algo order and that it does not hold.
  pub snapshots_isolated :
      (upsert_ms cancel_ms a : ℕ) (orders : List (OrderDict F)) (m : Manager F) (id : String)
      {r : Order F}
      → row_at a id m.orders ≡ some r
      → Absent id orders
      → (like_prefix "algo:" id ≡ true
          → row_at a id (process_order_snapshot upsert_ms cancel_ms a orders m).orders ≡ some r)
        × (like_prefix "algo:" id ≡ false
            → row_at a id (process_algo_snapshot upsert_ms cancel_ms a orders m).orders ≡ some r)
  unfolding process_order_snapshot process_algo_snapshot snapshot_table algo_table refresh_cache
      in_scope scope_clause
  snapshots_isolated upsert_ms cancel_ms a orders m id {r} e absent = (
    λ algo. elim (Bool-cases (is_empty orders && is_empty m.open_orders)) [
      | inl idle ↦ rw idle e
      | inr busy ↦ rw busy (
          out_of_scope cancel_ms a _ _ "algo:" "" id _
            (row_at-batch_other a id upsert_ms _ m.orders
                (Absent-filter upsert_ms a id _ _ (Absent-map upsert_ms a id orders absent))
              ∙ e)
            (rw algo))
    ],
    λ basic.
        out_of_scope cancel_ms a _ _ "" "algo:" id _
          (row_at-batch_other a id upsert_ms _ m.orders (Absent-map upsert_ms a id orders absent)
            ∙ e)
          basic,
  )

  no_writes : (now_ms : ℕ) (t : List (Order F)) → upsert_order_batch now_ms [] t ≡ t
  unfolding upsert_order_batch
  no_writes now_ms t = refl

  empty_basic :
      (upsert_ms cancel_ms a : ℕ) (m : Manager F) (id : String) {r : Order F}
      → row_at a id m.orders ≡ some r
      → row_at a id (process_order_snapshot upsert_ms cancel_ms a [] m).orders ≡ some r
  unfolding process_order_snapshot snapshot_table refresh_cache mark_stale_orders_canceled
      upsert_order_batch
  empty_basic upsert_ms cancel_ms a m id e = elim (Bool-cases (is_empty m.open_orders)) [
    | inl idle ↦ rw idle e
    | inr busy ↦ rw busy e
  ]

  -- A snapshot with no orders at all: a basic one cancels nothing, and an algo one cancels every
  -- active algo order of the account.
  pub empty_snapshots :
      (upsert_ms cancel_ms a : ℕ) (m : Manager F) (id : String) {r : Order F}
      → row_at a id m.orders ≡ some r
      → (row_at a id (process_order_snapshot upsert_ms cancel_ms a [] m).orders ≡ some r)
        × (is_active r.status ≡ true
            → like_prefix "algo:" id ≡ true
            → row_at a id (process_algo_snapshot upsert_ms cancel_ms a [] m).orders
              ≡ some (record r { status = "canceled"; updated_at_ms = cancel_ms }))
  unfolding process_order_snapshot process_algo_snapshot snapshot_table algo_table refresh_cache
      in_scope
  empty_snapshots upsert_ms cancel_ms a m id {r} e = (
    empty_basic upsert_ms cancel_ms a m id e,
    λ act algo.
        let parts = has_key_parts a id r (row_at-has_key a id m.orders e) in
        let hit : is_canceled a [] true "" "algo:" r ≡ true =
          rw (parts.0, parts.1, act)
            (ground (arith, nat_beq_iff a a, scope_algo (some id), algo)) in
        row_at-mark_stale cancel_ms a [] true "" "algo:" a id
          (upsert_order_batch upsert_ms [] m.orders)
        ∙ rw (no_writes upsert_ms m.orders, e, hit),
  )
