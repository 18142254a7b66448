-- ===== src/Orders/Store/Upsert.antt =====
-- What an upsert does to every key of the table.
use quantamental_engine.Base.{
  ℕ, String, true, false, Option, none, some, List, [], ◌∷◌, ◌≡◌, refl, arith, if◌then◌else◌, All,
  Bool-cases, inl, inr, ◌∙◌,
}
use quantamental_engine.Float.{Float}
use quantamental_engine.Orders.Row.{Order, OrderDict, row_of}
use quantamental_engine.Orders.Store.{resolve, upsert, upsert_order_batch}
use quantamental_engine.Orders.Store.Key.{
  has_key, row_at, has_key_of_conflicts, conflicts_of_has_key,
}

module _ {ℓ} {F : Type ℓ} where
  -- The row that an upsert of `n` leaves where the table held `old`.
  abbrev pub resolved : Option (Order F) → Order F → Order F
  resolved none n = n
  resolved (some r) n = resolve r n

  pub has_key-resolve :
      (a : ℕ) (id : String) (r n : Order F) → has_key a id (resolve r n) ≡ has_key a id r
  unfolding resolve has_key
  has_key-resolve a id r n = ground arith

  -- An upsert writes the row with the new row's key and no other; it keeps an old row that was
  -- updated later than the new one.
  pub row_at-upsert :
      (a : ℕ) (id : String) (n : Order F) (t : List (Order F))
      → row_at a id (upsert n t)
        ≡ (if has_key a id n then some (resolved (row_at a id t) n) else row_at a id t)
  unfolding upsert row_at
  row_at-upsert a id n [] = refl
  row_at-upsert a id n (r ∷ t) = ground (
    arith,
    row_at-upsert a id n t,
    has_key_of_conflicts a id r n,
    conflicts_of_has_key a id r n,
    has_key-resolve a id r n,
  )

module _ {ℓ} {F : Type ℓ} ⦃f : Float F⦄ (a : ℕ) (id : String) where
  -- What holds of the row with a key, and is kept by every write to it, holds after a batch.
  pub batch_keeps :
      (P : Order F → Type 0) (now_ms : ℕ) (os : List (OrderDict F)) (t : List (Order F))
      {r : Order F}
      → row_at a id t ≡ some r
      → P r
      → All
          (λ o.
            has_key a id (row_of now_ms o) ≡ true
            → (s : Order F) → P s
            → P (resolve s (row_of now_ms o)))
          os
      → (r' : Order F) × (row_at a id (upsert_order_batch now_ms os t) ≡ some r') × P r'
  unfolding upsert_order_batch
  batch_keeps P now_ms [] t {r} e p keep = (r, e, p)
  batch_keeps P now_ms (o ∷ os) t {r} e p (keep, keeps) =
      elim (Bool-cases (has_key a id (row_of now_ms o))) [
        | inl hit ↦
            batch_keeps P now_ms os _ {r = resolve r (row_of now_ms o)}
              (ground (arith, row_at-upsert a id (row_of now_ms o) t)) (keep hit r p) keeps
        | inr miss ↦
            batch_keeps P now_ms os _ {r = r}
              (ground (arith, row_at-upsert a id (row_of now_ms o) t)) p keeps
      ]

  -- A batch that has no row with a key leaves the key alone.
  pub row_at-batch_other :
      (now_ms : ℕ) (os : List (OrderDict F)) (t : List (Order F))
      → All (λ o. has_key a id (row_of now_ms o) ≡ false) os
      → row_at a id (upsert_order_batch now_ms os t) ≡ row_at a id t
  unfolding upsert_order_batch
  row_at-batch_other now_ms [] t h = refl
  row_at-batch_other now_ms (o ∷ os) t h =
      row_at-batch_other now_ms os (upsert (row_of now_ms o) t) h.1
      ∙ ground (arith, row_at-upsert a id (row_of now_ms o) t)
