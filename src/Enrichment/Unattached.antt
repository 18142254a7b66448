-- ===== src/Enrichment/Unattached.antt =====
-- What becomes of orders that carry no position id: none of the code's order dictionaries has one.
use quantamental_engine.Base.{
  ℕ, ◌+◌, String, Bool, ltb, ◌&&◌, Option, none, some, List, [], ◌∷◌, ◌==◌, string_eq, nat_eq,
  eq_iff, find, All, or_else, ◌≡◌, refl, ◌∙◌, ap, sym, arith, Bool-cases, Option-cases, inl, inr,
  subst,
}
use quantamental_engine.Float.{Float}
use quantamental_engine.Orders.Row.{Order, OrderDict, row_of}
use quantamental_engine.Orders.Store.{
  conflicts, upsert, resolve, overwrite, upsert_order_batch, update_where, cancel_row,
  mark_stale_orders, is_active,
}
use quantamental_engine.Correlation.{LogRow}
use quantamental_engine.Enrichment.{
  is_order, is_child, populate_tp_sl_trigger_prices, calc_for, try_correlate, enrich_order,
}
use quantamental_engine.Enrichment.Links.{Step, stored, swept, enriched, run_step, run_steps}

module _ {ℓ} {F : Type ℓ} where
  -- linked to no calculation, and without the price of a take-profit child
  abbrev pub IsBare : Order F → Type ℓ
  IsBare r = (r.calc_id ≡ none) × (r.tp_trigger_price ≡ none)

  -- an enriched order has no position id
  abbrev pub IsUnattached : Step F → Type 0
  IsUnattached (stored now_ms os) = Unit
  IsUnattached (swept now_ms aid threshold_ms) = Unit
  IsUnattached (enriched precision cutoff log o) = or_else o.exchange_position_id "" ≡ ""

  resolve-IsBare : (r n : Order F) → IsBare r → IsBare (resolve r n)
  unfolding resolve overwrite
  resolve-IsBare r n (c, tp) = ground (arith, c, tp)

  upsert-IsBare :
      (n : Order F) (t : List (Order F)) → IsBare n → All IsBare t → All IsBare (upsert n t)
  unfolding upsert
  upsert-IsBare n [] bare h = (bare, tt)
  upsert-IsBare n (r ∷ t) bare h = elim (Bool-cases (conflicts r n)) [
    | inl on ↦ rw on (resolve-IsBare r n h.0, h.1)
    | inr off ↦ rw off (h.0, upsert-IsBare n t bare h.1)
  ]

  update_where-IsBare :
      (p : Order F → Bool) (now_ms : ℕ) (t : List (Order F))
      → All IsBare t
      → All IsBare (update_where p (cancel_row now_ms) t).0
  unfolding update_where
  update_where-IsBare p now_ms [] h = tt
  update_where-IsBare p now_ms (r ∷ t) h = elim (Bool-cases (p r)) [
    | inl on ↦ rw on (h.0, update_where-IsBare p now_ms t h.1)
    | inr off ↦ rw off (h.0, update_where-IsBare p now_ms t h.1)
  ]

  some_inj : {r s : Order F} → ◌≡◌ {A = Option (Order F)} (some r) (some s) → r ≡ s
  some_inj {r} e = ap (λ o. or_else o r) e

  find-IsBare :
      (p : Order F → Bool) (t : List (Order F)) {r : Order F}
      → All IsBare t
      → find p t ≡ some r
      → IsBare r
  find-IsBare p [] h e = ground arith
  find-IsBare p (x ∷ t) h e = elim (Bool-cases (p x)) [
    | inl on ↦ subst IsBare (some_inj (rw on at e)) h.0
    | inr off ↦ find-IsBare p t h.1 (rw off at e)
  ]

module _ {ℓ} {F : Type ℓ} ⦃f : Float F⦄ where
  row_of-IsBare : (now_ms : ℕ) (o : OrderDict F) → IsBare (row_of now_ms o)
  unfolding row_of
  row_of-IsBare now_ms o = (refl, refl)

  pub batch-IsBare :
      (now_ms : ℕ) (os : List (OrderDict F)) (t : List (Order F))
      → All IsBare t
      → All IsBare (upsert_order_batch now_ms os t)
  unfolding upsert_order_batch
  batch-IsBare now_ms [] t h = h
  batch-IsBare now_ms (o ∷ os) t h =
      batch-IsBare now_ms os (upsert (row_of now_ms o) t)
        (upsert-IsBare (row_of now_ms o) t (row_of-IsBare now_ms o) h)

  populate_unattached :
      (o : OrderDict F) (t : List (Order F))
      → or_else o.exchange_position_id "" ≡ ""
      → populate_tp_sl_trigger_prices o t ≡ t
  unfolding populate_tp_sl_trigger_prices
  populate_unattached o t h = ground (arith, h, eq_iff (or_else o.exchange_position_id "") "")

  module _ (precision : String → Option ℕ) (cutoff : String) (log : List (LogRow F)) where
    calc_for_bare :
        (o : OrderDict F) (row : Order F) (t : List (Order F))
        → IsBare row
        → calc_for precision cutoff log o row t ≡ none
    unfolding calc_for
    calc_for_bare o row t (c, tp) = rw (c, tp) refl

    try_correlate_bare :
        (o : OrderDict F) (t : List (Order F))
        → All IsBare t
        → try_correlate precision cutoff log o t ≡ t
    unfolding try_correlate
    try_correlate_bare o t h = elim (Bool-cases (is_child o)) [
      | inl child ↦ rw child refl
      | inr entry ↦
          let p = is_order (or_else o.account_id 1) o.exchange_order_id in
          elim (Option-cases (find p t)) [
            | inl missing ↦ rw (entry, missing) refl
            | inr (row, there) ↦
                rw (entry, there, calc_for_bare o row t (find-IsBare p t h there)) refl
          ]
    ]

    -- An order without a position id is not changed by its enrichment, where no order of the table is linked
    -- to a calculation or has the price of a take-profit child.
    pub enrich_unattached :
        (o : OrderDict F) (t : List (Order F))
        → or_else o.exchange_position_id "" ≡ ""
        → All IsBare t
        → enrich_order precision cutoff log o t ≡ t
    unfolding enrich_order
    enrich_unattached o t loose h =
        ap (try_correlate precision cutoff log o) (populate_unattached o t loose)
        ∙ try_correlate_bare o t h

  run_step-IsBare :
      (s : Step F) (t : List (Order F)) → IsUnattached s → All IsBare t → All IsBare (run_step s t)
  unfolding run_step mark_stale_orders
  run_step-IsBare (stored now_ms os) t loose h = batch-IsBare now_ms os t h
  run_step-IsBare (swept now_ms aid threshold_ms) t loose h =
      update_where-IsBare
        (λ r.
          r.account_id == aid
          && is_active r.status
          && ltb (r.last_seen_ms + threshold_ms) now_ms
          && ltb 0 r.last_seen_ms)
        now_ms t h
  run_step-IsBare (enriched precision cutoff log o) t loose h =
      subst (All IsBare) (sym (enrich_unattached precision cutoff log o t loose h)) h

  -- Whatever is stored, swept and enriched, in whatever order, no order is ever linked to a calculation,
  -- nor gets the price of a take-profit child, if the orders that are enriched carry no position id and
  -- none had either at the start.
  pub run_steps-IsBare :
      (ss : List (Step F)) (t : List (Order F))
      → All IsUnattached ss
      → All IsBare t
      → All IsBare (run_steps ss t)
  unfolding run_steps
  run_steps-IsBare [] t loose h = h
  run_steps-IsBare (s ∷ ss) t loose h =
      run_steps-IsBare ss (run_step s t) loose.1 (run_step-IsBare s t loose.0 h)
