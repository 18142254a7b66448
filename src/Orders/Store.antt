-- ===== src/Orders/Store.antt =====
-- The orders table of core/db_orders.py, and the statements that write and read it. The table is a
-- list of rows; the key is (account_id, exchange_order_id), and SQL's NULL key equals no other.
pub mod Key
pub mod Upsert
pub mod Cancel
use Prim.Native.Char.{code}
use Prim.Native.String
use quantamental_engine.Base.{
  ℕ, ◌-◌, ◌+◌, String, Bool, true, false, ◌&&◌, ◌||◌, not, Option, none, some, List, [], ◌∷◌, ◌==◌,
  nat_eq, string_eq, contains, if◌then◌else◌, ltb, leb, filter,
}
use quantamental_engine.Float.{Float}
use quantamental_engine.Orders.Row.{Order, OrderDict, row_of}

-- `status IN ('new','partially_filled')`
abbrev pub is_active : String → Bool
is_active s = s == "new" || s == "partially_filled"

-- The code points of a text, in lower case where they are ASCII letters.
abbrev pub lower_codes : String → List ℕ
lower_codes String.[] = []
lower_codes (String.◌∷◌ c s) =
    (if leb b'A' (code c) && leb (code c) b'Z' then code c + 32 else code c) ∷ lower_codes s

abbrev is_prefix : List ℕ → List ℕ → Bool
is_prefix [] ys = true
is_prefix (x ∷ xs) [] = false
is_prefix (x ∷ xs) (y ∷ ys) = x == y && is_prefix xs ys

-- `id LIKE 'prefix%'` for a prefix without wildcards: SQLite's LIKE ignores the case of ASCII letters.
unfoldable pub like_prefix : String → String → Bool
like_prefix prefix id = is_prefix (lower_codes prefix) (lower_codes id)

-- The clause that `exclude_prefix` and `only_prefix` add.
pub data Scope : Type 0 where
  everything : Scope
  exclude only : String → Scope

unfoldable pub scope_clause : String → String → Scope
scope_clause exclude_prefix only_prefix =
    if not (exclude_prefix == "")
    then exclude exclude_prefix
    else if not (only_prefix == "")
    then only only_prefix
    else everything

unfoldable pub in_scope : Scope → Option String → Bool
in_scope everything id = true
in_scope (exclude p) none = false
in_scope (exclude p) (some id) = not (like_prefix p id)
in_scope (only p) none = false
in_scope (only p) (some id) = like_prefix p id

-- `exchange_order_id NOT IN (ids)`: not true of NULL
unfoldable pub not_in : List String → Option String → Bool
not_in ids none = false
not_in ids (some id) = not (contains id ids)

unfoldable pub same_id : Option String → Option String → Bool
same_id none j = false
same_id (some i) none = false
same_id (some i) (some j) = i == j

module _ {ℓ} {F : Type ℓ} where
  -- ON CONFLICT(account_id, exchange_order_id)
  unfoldable pub conflicts : Order F → Order F → Bool
  unfolding same_id
  conflicts r n = r.account_id == n.account_id && same_id r.exchange_order_id n.exchange_order_id

  -- DO UPDATE SET
  unfoldable pub overwrite : Order F → Order F → Order F
  overwrite r n = record r {
    terminal_order_id = n.terminal_order_id;
    client_order_id = n.client_order_id;
    status = n.status;
    price = n.price;
    stop_price = n.stop_price;
    quantity = n.quantity;
    filled_qty = n.filled_qty;
    avg_fill_price = n.avg_fill_price;
    order_type = n.order_type;
    reduce_only = n.reduce_only;
    time_in_force = n.time_in_force;
    position_side = n.position_side;
    exchange_position_id = n.exchange_position_id;
    updated_at_ms = n.updated_at_ms;
    last_seen_ms = n.last_seen_ms;
  }

  -- WHERE excluded.updated_at_ms >= orders.updated_at_ms; the column is NOT NULL
  unfoldable pub resolve : Order F → Order F → Order F
  unfolding overwrite
  resolve r n = if leb r.updated_at_ms n.updated_at_ms then overwrite r n else r

  unfoldable pub upsert : Order F → List (Order F) → List (Order F)
  unfolding conflicts resolve
  upsert n [] = n ∷ []
  upsert n (r ∷ t) = if conflicts r n then resolve r n ∷ t else r ∷ upsert n t

  unfoldable pub upsert_order_batch :
      ⦃f : Float F⦄ → ℕ → List (OrderDict F) → List (Order F) → List (Order F)
  unfolding upsert row_of
  upsert_order_batch now_ms [] t = t
  upsert_order_batch now_ms (o ∷ os) t = upsert_order_batch now_ms os (upsert (row_of now_ms o) t)

  abbrev pub cancel_row : ℕ → Order F → Order F
  cancel_row now_ms r = record r { status = "canceled"; updated_at_ms = now_ms }

  -- An UPDATE with its row count.
  unfoldable pub update_where :
      (Order F → Bool) → (Order F → Order F) → List (Order F) → List (Order F) × ℕ
  update_where p g [] = ([], 0)
  update_where p g (r ∷ t) =
      let (t', n) = update_where p g t in if p r then (g r ∷ t', n + 1) else (r ∷ t', n)

  abbrev stale_in : ℕ → List String → Scope → Order F → Bool
  stale_in account_id ids scope r =
      r.account_id == account_id
      && is_active r.status
      && not_in ids r.exchange_order_id
      && in_scope scope r.exchange_order_id

  unfoldable pub mark_stale_orders_canceled :
      ℕ → ℕ → List String → Bool → String → String → List (Order F) → List (Order F) × ℕ
  unfolding update_where not_in in_scope scope_clause
  mark_stale_orders_canceled now_ms account_id [] allow_cancel_all exclude_prefix only_prefix t =
      let scope = scope_clause exclude_prefix only_prefix in
      if not allow_cancel_all
      then (t, 0)
      else update_where
          (λ r.
            r.account_id == account_id && is_active r.status && in_scope scope r.exchange_order_id)
          (cancel_row now_ms) t
  mark_stale_orders_canceled now_ms account_id (i ∷ ids) allow_cancel_all exclude_prefix only_prefix
        t =
      update_where (stale_in account_id (i ∷ ids) (scope_clause exclude_prefix only_prefix))
        (cancel_row now_ms) t

  unfoldable pub mark_stale_orders : ℕ → ℕ → ℕ → List (Order F) → List (Order F) × ℕ
  unfolding update_where
  mark_stale_orders now_ms account_id stale_threshold_ms =
      update_where
        (λ r.
          r.account_id == account_id
          && is_active r.status
          && ltb (r.last_seen_ms + stale_threshold_ms) now_ms
          && ltb 0 r.last_seen_ms)
        (cancel_row now_ms)

  -- `get_active_orders_map(account_id).get(eid)`
  unfoldable pub active_order : ℕ → String → List (Order F) → Option (Order F)
  active_order account_id eid [] = none
  active_order account_id eid (r ∷ t) =
      if r.account_id == account_id && is_active r.status && same_id r.exchange_order_id (some eid)
      then some r
      else active_order account_id eid t
