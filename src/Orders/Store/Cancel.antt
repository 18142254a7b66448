-- ===== src/Orders/Store/Cancel.antt =====
-- What the statements that cancel stale orders do to every row.
use quantamental_engine.Base.{
  ℕ, ◌+◌, String, Bool, true, false, ◌&&◌, Option, none, some, List, [], ◌∷◌, ◌==◌, nat_eq,
  string_eq, ◌≡◌, refl, arith, if◌then◌else◌, is_empty, ltb, ◌∙◌, sym, ap,
}
use mathlib.Core.Option
use quantamental_engine.Orders.Row.{Order}
use quantamental_engine.Orders.Store.{
  is_active, in_scope, not_in, scope_clause, update_where, cancel_row, mark_stale_orders,
  mark_stale_orders_canceled,
}
use quantamental_engine.Orders.Store.Key.{has_key, row_at}

module _ {ℓ} {A : Type ℓ} where
  map_ext : (g h : A → A) (o : Option A) → ((x : A) → g x ≡ h x) → Option.map g o ≡ Option.map h o
  map_ext g h none e = refl
  map_ext g h (some x) e = ap some (e x)

  map_id : (g : A → A) (o : Option A) → ((x : A) → g x ≡ x) → Option.map g o ≡ o
  map_id g none e = refl
  map_id g (some x) e = ap some (e x)

module _ {ℓ} {F : Type ℓ} where
  -- An update that leaves the keys alone changes the row with a key by the test and the update.
  pub row_at-update_where :
      (p : Order F → Bool) (g : Order F → Order F)
      → ((a : ℕ) (id : String) (r : Order F) → has_key a id (g r) ≡ has_key a id r)
      → (a : ℕ) (id : String) (t : List (Order F))
      → row_at a id (update_where p g t).0
        ≡ Option.map (λ r. if p r then g r else r) (row_at a id t)
  unfolding update_where row_at
  row_at-update_where p g keys a id [] = refl
  row_at-update_where p g keys a id (r ∷ t) =
      ground (arith, row_at-update_where p g keys a id t, keys a id r)

  pub has_key-cancel_row :
      (now_ms a : ℕ) (id : String) (r : Order F)
      → has_key a id (cancel_row now_ms r) ≡ has_key a id r
  unfolding has_key
  has_key-cancel_row now_ms a id r = refl

  -- Whether a snapshot of `account_id` that lists `ids` cancels a row.
  abbrev pub is_canceled : ℕ → List String → Bool → String → String → Order F → Bool
  is_canceled account_id ids allow_cancel_all exclude_prefix only_prefix r =
      r.account_id == account_id
      && is_active r.status
      && in_scope (scope_clause exclude_prefix only_prefix) r.exchange_order_id
      && (if is_empty ids then allow_cancel_all else not_in ids r.exchange_order_id)

  pub row_at-mark_stale :
      (now_ms account_id : ℕ) (ids : List String) (allow_cancel_all : Bool)
      (exclude_prefix only_prefix : String) (a : ℕ) (id : String) (t : List (Order F))
      → row_at a id
          (mark_stale_orders_canceled now_ms account_id ids allow_cancel_all exclude_prefix
            only_prefix t).0
        ≡ Option.map
            (λ r.
              if is_canceled account_id ids allow_cancel_all exclude_prefix only_prefix r
              then cancel_row now_ms r
              else r)
            (row_at a id t)
  unfolding mark_stale_orders_canceled
  row_at-mark_stale now_ms account_id [] false ex on a id t =
      sym (map_id _ (row_at a id t) (λ r. ground arith))
  row_at-mark_stale now_ms account_id [] true ex on a id t =
      row_at-update_where _ (cancel_row now_ms) (has_key-cancel_row now_ms) a id t
      ∙ map_ext _ _ (row_at a id t) (λ r. ground arith)
  row_at-mark_stale now_ms account_id (i ∷ ids) allow ex on a id t =
      row_at-update_where _ (cancel_row now_ms) (has_key-cancel_row now_ms) a id t
      ∙ map_ext _ _ (row_at a id t) (λ r. ground arith)

  -- The sweep of the staleness loop cancels an active order of the account that was last seen more
  -- than the threshold ago, and no other.
  pub row_at-mark_stale_orders :
      (now_ms account_id threshold a : ℕ) (id : String) (t : List (Order F))
      → row_at a id (mark_stale_orders now_ms account_id threshold t).0
        ≡ Option.map
            (λ r.
              if r.account_id == account_id
                && is_active r.status
                && ltb (r.last_seen_ms + threshold) now_ms
                && ltb 0 r.last_seen_ms
              then cancel_row now_ms r
              else r)
            (row_at a id t)
  unfolding mark_stale_orders
  row_at-mark_stale_orders now_ms account_id threshold a id t =
      row_at-update_where _ (cancel_row now_ms) (has_key-cancel_row now_ms) a id t
