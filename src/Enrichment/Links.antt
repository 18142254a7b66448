-- ===== src/Enrichment/Links.antt =====
-- A calculation is linked to one order at most.
use mathlib.Core.List.Memᴰ
use mathlib.Core.List.{Memᴰ}
use quantamental_engine.Base.{
  ℕ, String, Bool, true, false, ◌||◌, Option, none, some, List, [], ◌∷◌, string_eq, nat_eq, eq_iff,
  find, or_else, any, filter, ◌≡◌, ◌≢◌, refl, ◌∙◌, ap, sym, arith, Bool-cases, Option-cases, inl,
  inr, subst,
}
use quantamental_engine.Float.{Float}
use quantamental_engine.Orders.Row.{Order, OrderDict, row_of}
use quantamental_engine.Orders.Store.{
  same_id, conflicts, upsert, upsert_order_batch, mark_stale_orders,
}
use quantamental_engine.Orders.Store.Key.{same_id_cases}
use quantamental_engine.Correlation.{
  LogRow, EntryOrder, Legs, wanted, correlate_order_to_calc, has_calc_id,
}
use quantamental_engine.Correlation.Latest.{IsOutcome, correlate_order_to_calc_lem}
use quantamental_engine.Enrichment.{
  update, is_order, is_attached, is_child, triggers, set_triggers, populate_tp_sl_trigger_prices,
  unlinked_order, set_calc, calc_for, link, try_correlate, enrich_order, entry_of, get_tick_size,
}
use quantamental_engine.Enrichment.Traced.{
  Mem-update, no_link, CalcsUnique, Traced-unique, Traced-set_triggers, Traced-upsert,
  Traced-mark_stale_orders,
}

module _ {ℓ} {F : Type ℓ} where
  unused_row :
      (c : String) (t : List (Order F)) (r : Order F)
      → any (has_calc_id c) t ≡ false
      → Memᴰ r t
      → r.calc_id ≢ some c
  unused_row c [] r h m e = absurd (Memᴰ.not-nil m)
  unused_row c (x ∷ t) r h m e = elim (Memᴰ.cases_cons m) [
    | inl here ↦
        head_used c x (any (has_calc_id c) t) (ap (λ (y : Order F). y.calc_id) (sym here) ∙ e) h
    | inr there ↦
        unused_row c t r (second_false (has_calc_id c x) (any (has_calc_id c) t) h) there e
  ]
    where
      head_used :
          (c : String) (x : Order F) (b : Bool)
          → x.calc_id ≡ some c
          → (has_calc_id c x || b) ≡ false
          → ⊥
      head_used c x b e h = ground (arith, eq_iff c c)

      second_false : (a b : Bool) → (a || b) ≡ false → b ≡ false
      second_false a b h = ground arith

  same_order :
      (aid : ℕ) (eid : Option String) (r s : Order F)
      → is_order aid eid r ≡ true
      → is_order aid eid s ≡ true
      → conflicts r s ≡ true
  unfolding conflicts same_id
  same_order aid eid r s h k =
      ground (arith, same_id_cases r.exchange_order_id eid, same_id_cases s.exchange_order_id eid)

  set_calc-CalcsUnique :
      (aid : ℕ) (eid : Option String) (c : String) (t : List (Order F))
      → any (has_calc_id c) t ≡ false
      → CalcsUnique t
      → CalcsUnique (update (unlinked_order aid eid) (set_calc c) t)
  unfolding conflicts CalcsUnique
  set_calc-CalcsUnique aid eid c t unused h d r s m n e k =
      let p = unlinked_order aid eid in
      let (x, x_in, x_eq) = Mem-update p (set_calc c) t m in
      let (y, y_in, y_eq) = Mem-update p (set_calc c) t n in
      let old = h d x y x_in y_in in
      ground (
        arith,
        old,
        same_order aid eid x y,
        unused_row c t x unused x_in,
        unused_row c t y unused y_in,
      )

module _ {ℓ} {F : Type ℓ} ⦃f : Float F⦄ where
  outcome-unused :
      (o : EntryOrder F) (tick : F) (cutoff : String) (log : List (LogRow F)) (t : List (Order F))
      (legs : Legs F) (c : String)
      → IsOutcome o cutoff tick legs t log (some c)
      → any (has_calc_id c) t ≡ false
  unfolding IsOutcome
  outcome-unused o tick cutoff log t legs c (row, inside, (fits, (id, full, ok, unused)), latest) =
      unused

  unwanted :
      (o : EntryOrder F) (tick : F) (cutoff : String) (log : List (LogRow F)) (t : List (Order F))
      → wanted o ≡ none
      → correlate_order_to_calc o tick cutoff log t ≡ none
  unfolding correlate_order_to_calc
  unwanted o tick cutoff log t h = rw (h, correlate_order_to_calc) refl

  correlate-unused :
      (o : EntryOrder F) (tick : F) (cutoff : String) (log : List (LogRow F)) (t : List (Order F))
      (c : String)
      → correlate_order_to_calc o tick cutoff log t ≡ some c
      → any (has_calc_id c) t ≡ false
  correlate-unused o tick cutoff log t c h = elim (Option-cases (wanted o)) [
    | inl off ↦ absurd (no_link (sym (unwanted o tick cutoff log t off) ∙ h))
    | inr (legs, on) ↦ outcome-unused o tick cutoff log t legs c (
        subst (IsOutcome o cutoff tick legs t log) h
          (correlate_order_to_calc_lem o tick cutoff log t legs on))
  ]

  populate-CalcsUnique :
      (o : OrderDict F) (t : List (Order F))
      → CalcsUnique t
      → CalcsUnique (populate_tp_sl_trigger_prices o t)
  unfolding populate_tp_sl_trigger_prices
  populate-CalcsUnique o t h =
      let aid = or_else o.account_id 1 in
      let eid = o.exchange_order_id in
      let pos_id = or_else o.exchange_position_id "" in
      let found = triggers (filter (is_attached aid pos_id eid) t) (none, none) in
      ground (
        arith,
        Traced-unique t (update (is_order aid eid) (set_triggers found) t)
            (Traced-set_triggers found (is_order aid eid) t) h,
      )

  module _ (precision : String → Option ℕ) (cutoff : String) (log : List (LogRow F)) where
    calc_for-unused :
        (o : OrderDict F) (row : Order F) (t : List (Order F)) (c : String)
        → calc_for precision cutoff log o row t ≡ some c
        → any (has_calc_id c) t ≡ false
    unfolding calc_for
    calc_for-unused o row t c h =
        let tick = get_tick_size (precision (or_else o.symbol "")) row.price in
        ground (arith, correlate-unused (entry_of o row) tick cutoff log t c)

    link-CalcsUnique :
        (aid : ℕ) (eid : Option String) (found : Option String) (t : List (Order F))
        → ((c : String) → found ≡ some c → any (has_calc_id c) t ≡ false)
        → CalcsUnique t
        → CalcsUnique (link precision cutoff log aid eid found t)
    link-CalcsUnique aid eid none t unused h = h
    link-CalcsUnique aid eid (some c) t unused h =
        ground (arith, set_calc-CalcsUnique aid eid c t (unused c refl) h)

    try_correlate-CalcsUnique :
        (o : OrderDict F) (t : List (Order F))
        → CalcsUnique t
        → CalcsUnique (try_correlate precision cutoff log o t)
    unfolding try_correlate
    try_correlate-CalcsUnique o t h =
        let aid = or_else o.account_id 1 in
        let eid = o.exchange_order_id in
        elim (Bool-cases (is_child o)) [
          | inl child ↦ rw child h
          | inr entry ↦ elim (Option-cases (find (is_order aid eid) t)) [
            | inl missing ↦ rw (entry, missing) h
            | inr (row, there) ↦
                rw (entry, there)
                  (link-CalcsUnique aid eid (calc_for precision cutoff log o row t) t
                    (calc_for-unused o row t) h)
          ]
        ]

-- What the handlers do to the orders table: a batch is stored, an account is swept, or a stored order is
-- enriched, with the precisions, the cutoff and the log of that time.
pub data Step {ℓ} (F : Type ℓ) : Type ℓ where
  stored : ℕ → List (OrderDict F) → Step F
  swept : ℕ → ℕ → ℕ → Step F
  enriched : (String → Option ℕ) → String → List (LogRow F) → OrderDict F → Step F

module _ {ℓ} {F : Type ℓ} ⦃f : Float F⦄ where
  unfoldable pub run_step : Step F → List (Order F) → List (Order F)
  run_step (stored now_ms os) t = upsert_order_batch now_ms os t
  run_step (swept now_ms aid threshold_ms) t = (mark_stale_orders now_ms aid threshold_ms t).0
  run_step (enriched precision cutoff log o) t = enrich_order precision cutoff log o t

  unfoldable pub run_steps : List (Step F) → List (Order F) → List (Order F)
  unfolding run_step
  run_steps [] t = t
  run_steps (s ∷ ss) t = run_steps ss (run_step s t)

  batch-CalcsUnique :
      (now_ms : ℕ) (os : List (OrderDict F)) (t : List (Order F))
      → CalcsUnique t
      → CalcsUnique (upsert_order_batch now_ms os t)
  unfolding upsert_order_batch
  batch-CalcsUnique now_ms [] t h = h
  batch-CalcsUnique now_ms (o ∷ os) t h =
      batch-CalcsUnique now_ms os (upsert (row_of now_ms o) t)
        (Traced-unique t (upsert (row_of now_ms o) t) (Traced-upsert (row_of now_ms o) t refl) h)

  -- Whatever is stored, swept and enriched, in whatever order, two rows of the orders table that are
  -- linked to one calculation are one order, given that it was so at the start.
  pub run_steps-CalcsUnique :
      (ss : List (Step F)) (t : List (Order F)) → CalcsUnique t → CalcsUnique (run_steps ss t)
  unfolding run_steps enrich_order
  run_steps-CalcsUnique [] t h = h
  run_steps-CalcsUnique (stored now_ms os ∷ ss) t h =
      run_steps-CalcsUnique ss (upsert_order_batch now_ms os t) (batch-CalcsUnique now_ms os t h)
  run_steps-CalcsUnique (swept now_ms aid threshold_ms ∷ ss) t h =
      let t' = (mark_stale_orders now_ms aid threshold_ms t).0 in
      run_steps-CalcsUnique ss t'
        (Traced-unique t t' (Traced-mark_stale_orders now_ms aid threshold_ms t) h)
  run_steps-CalcsUnique (enriched precision cutoff log o ∷ ss) t h =
      let t' = populate_tp_sl_trigger_prices o t in
      run_steps-CalcsUnique ss (try_correlate precision cutoff log o t')
        (try_correlate-CalcsUnique precision cutoff log o t' (populate-CalcsUnique o t h))
