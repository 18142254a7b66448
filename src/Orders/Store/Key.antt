-- ===== src/Orders/Store/Key.antt =====
-- Rows by their key, and a table in which no two rows share one.
use quantamental_engine.Base.{
  ℕ, String, Bool, true, false, ◌&&◌, Option, none, some, List, [], ◌∷◌, ◌==◌, nat_eq, string_eq,
  ◌≡◌, refl, arith, eq_iff, if◌then◌else◌, All, ap,
}
use quantamental_engine.Orders.Row.{Order}
use quantamental_engine.Orders.Store.{conflicts, same_id, is_active, active_order}

-- Two keys are the same only where both are there.
pub same_id_cases :
    (i j : Option String) → same_id i j ≡ true → (s : String) × (i ≡ some s) × (j ≡ some s)
unfolding same_id
same_id_cases none j h = cc
same_id_cases (some i) none h = cc
same_id_cases (some i) (some j) h = (j, ap some ((eq_iff i j).0 h), refl)

module _ {ℓ} {F : Type ℓ} where
  unfoldable pub has_key : ℕ → String → Order F → Bool
  has_key a id r = r.account_id == a && same_id r.exchange_order_id (some id)

  -- The row with a key.
  unfoldable pub row_at : ℕ → String → List (Order F) → Option (Order F)
  row_at a id [] = none
  row_at a id (r ∷ t) = if has_key a id r then some r else row_at a id t

  -- The UNIQUE constraint of the table.
  abbrev pub KeysUnique : List (Order F) → Type 0
  KeysUnique [] = Unit
  KeysUnique (r ∷ t) = All (λ s. conflicts s r ≡ false) t × KeysUnique t

  -- Rows that conflict have the same keys.
  pub has_key_of_conflicts :
      (a : ℕ) (id : String) (r n : Order F) → conflicts r n ≡ true → has_key a id r ≡ has_key a id n
  unfolding has_key conflicts
  has_key_of_conflicts a id r n h =
      ground (arith, same_id_cases r.exchange_order_id n.exchange_order_id)

  -- A key names one row of rows that conflict with no other.
  pub conflicts_of_has_key :
      (a : ℕ) (id : String) (r n : Order F)
      → has_key a id r ≡ true
      → has_key a id n ≡ true
      → conflicts r n ≡ true
  unfolding has_key conflicts same_id
  conflicts_of_has_key a id r n h k = ground (
    arith,
    same_id_cases r.exchange_order_id (some id),
    same_id_cases n.exchange_order_id (some id),
    eq_iff id id,
  )

  pub row_at-has_key :
      (a : ℕ) (id : String) (t : List (Order F)) {r : Order F}
      → row_at a id t ≡ some r
      → has_key a id r ≡ true
  unfolding row_at
  row_at-has_key a id [] h = cc
  row_at-has_key a id (q ∷ t) {r} h = ground (arith, row_at-has_key a id t {r = r})

  pub has_key_parts :
      (a : ℕ) (id : String) (r : Order F)
      → has_key a id r ≡ true
      → (r.account_id ≡ a) × (r.exchange_order_id ≡ some id)
  unfolding has_key
  has_key_parts a id r h = ground (arith, same_id_cases r.exchange_order_id (some id))

  -- An active order is found by its id.
  pub active_order-row_at :
      (a : ℕ) (id : String) (t : List (Order F)) {r : Order F}
      → row_at a id t ≡ some r
      → is_active r.status ≡ true
      → active_order a id t ≡ some r
  unfolding row_at active_order has_key
  active_order-row_at a id [] h act = cc
  active_order-row_at a id (q ∷ t) {r} h act = ground (arith, active_order-row_at a id t {r = r})
