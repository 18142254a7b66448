-- ===== src/Enrichment/Fill/Repeated.antt =====
-- enrich_fill done twice: the stream and the history both bring a fill, and each enriches it.
use quantamental_engine.Base.{
  ℕ, String, Bool, Option, none, some, List, [], ◌∷◌, string_eq, or_else, find, ◌≡◌, refl, ◌∙◌, ap,
  sym, arith, Bool-cases, Option-cases, inl, inr,
}
use mathlib.Core.Option
use quantamental_engine.Float.{Float}
use quantamental_engine.Orders.Row.{Order}
use quantamental_engine.Correlation.{LogRow}
use quantamental_engine.Enrichment.{update, nonempty}
use quantamental_engine.Enrichment.Fill.{
  FillDict, FillRow, is_fill, set_fill_calc, set_class, parent_of, order_calc, calc_to_set,
  set_calc_where, propagate_calc_id_to_fill, class_for, classify_and_compute_slippage, enrich_fill,
  classify_at, propagate_to,
}

module _ {ℓ} {A : Type ℓ} (p : A → Bool) where
  update_missing : (g : A → A) (t : List A) → find p t ≡ none → update p g t ≡ t
  unfolding update
  update_missing g [] h = refl
  update_missing g (r ∷ t) h = ground (arith, update_missing g t)

  find-update :
      (g : A → A) (t : List A)
      → ((x : A) → p (g x) ≡ p x)
      → find p (update p g t) ≡ Option.map g (find p t)
  unfolding update
  find-update g [] keeps = refl
  find-update g (r ∷ t) keeps = elim (Bool-cases (p r)) [
    | inl on ↦ rw (on, keeps r, on) refl
    | inr off ↦ rw (off, off) (find-update g t keeps)
  ]

  update-update :
      (g h k : A → A) (t : List A)
      → ((x : A) → p (g x) ≡ p x)
      → ((x : A) → h (g x) ≡ k x)
      → update p h (update p g t) ≡ update p k t
  unfolding update
  update-update g h k [] keeps same = refl
  update-update g h k (r ∷ t) keeps same = elim (Bool-cases (p r)) [
    | inl on ↦ rw (on, keeps r, on, same r, update-update g h k t keeps same) refl
    | inr off ↦ rw (off, off, update-update g h k t keeps same) refl
  ]

  update_id : (g : A → A) (t : List A) → ((x : A) → g x ≡ x) → update p g t ≡ t
  unfolding update
  update_id g [] same = refl
  update_id g (r ∷ t) same = elim (Bool-cases (p r)) [
    | inl on ↦ rw (on, same r, update_id g t same) refl
    | inr off ↦ rw (off, update_id g t same) refl
  ]

  -- an update by what a read of the table finds, done twice
  update-read :
      (s : Option A → A → A) (t : List A)
      → ((o : Option A) (x : A) → p (s o x) ≡ p x)
      → ((r x : A) → s (some (s (some r) r)) (s (some r) x) ≡ s (some r) x)
      → update p (s (find p (update p (s (find p t)) t))) (update p (s (find p t)) t)
        ≡ update p (s (find p t)) t
  update-read s t keeps same = go (find p t) refl
    where
      go :
          (o : Option A)
          → find p t ≡ o
          → update p (s (find p (update p (s o) t))) (update p (s o) t) ≡ update p (s o) t
      go none missing =
          rw (update_missing (s none) t missing, missing, update_missing (s none) t missing) refl
      go (some r) here =
          ap (λ o. update p (s o) (update p (s (some r)) t))
            (find-update (s (some r)) t (keeps (some r)) ∙ ap (Option.map (s (some r))) here)
          ∙ update-update (s (some r)) (s (some (s (some r) r))) (s (some r)) t (keeps (some r))
              (same r)

module _ {ℓ} {F : Type ℓ} where
  unfoldable carry : Option String → FillRow F → FillRow F
  carry none r = r
  carry (some c) r = set_fill_calc c r

  carry-row_calc :
      (c : String) (r : FillRow F)
      → nonempty (some c) ≡ some c
      → nonempty (carry (some c) r).calc_id ≡ some c
  unfolding carry
  carry-row_calc c r h = h

  module _ (orders : List (Order F)) where
    set_calc_where-carry :
        (p : FillRow F → Bool) (c : Option String) (t : List (FillRow F))
        → set_calc_where orders p c t ≡ update p (carry c) t
    unfolding carry
    set_calc_where-carry p none t = sym (update_id p (carry none) t (λ x. refl))
    set_calc_where-carry p (some c) t = refl

    order_calc-nonempty :
        (o : Option (Order F)) (c : String)
        → order_calc orders o ≡ some c
        → nonempty (some c) ≡ some c
    order_calc-nonempty none c h = ground arith
    order_calc-nonempty (some o) c h = elim (Option-cases o.calc_id) [
      | inl e ↦ ground (arith, e)
      | inr (d, e) ↦ ground (arith, e, h)
    ]

module _ {ℓ} {F : Type ℓ} ⦃f : Float F⦄ (log : List (LogRow F)) (orders : List (Order F)) where
  -- what is handed on to a row, where the row that the code reads is `row`
  unfoldable handed : Option (Order F) → Option (FillRow F) → FillRow F → FillRow F
  handed par row = carry (calc_to_set orders par row)

  -- what both updates make of a row
  unfoldable stamp : FillDict F → Option (Order F) → Option (FillRow F) → FillRow F → FillRow F
  stamp fill par row x =
      set_class (class_for log orders fill par (Option.map (handed par row) row)) (handed par row x)

  handed-is_fill :
      (par : Option (Order F)) (row : Option (FillRow F)) (aid : ℕ) (id : String) (x : FillRow F)
      → is_fill aid id (handed par row x) ≡ is_fill aid id x
  unfolding handed carry
  handed-is_fill par row aid id x = elim (Option-cases (calc_to_set orders par row)) [
    | inl e ↦ rw e refl
    | inr (c, e) ↦ rw e refl
  ]

  stamp-stamp :
      (fill : FillDict F) (par : Option (Order F)) (r x : FillRow F)
      → stamp fill par (some (stamp fill par (some r) r)) (stamp fill par (some r) x)
        ≡ stamp fill par (some r) x
  unfolding stamp handed carry
  stamp-stamp fill par r x = elim (Option-cases (nonempty r.calc_id)) [
    | inl off ↦ elim (Option-cases (order_calc orders par)) [
      | inl none_ ↦ rw (off, none_, off) refl
      | inr (c, e) ↦ rw (off, e, order_calc-nonempty orders par c e) refl
    ]
    | inr (c, on) ↦ rw (on, on) refl
  ]

  -- both updates, for the fill of a key
  unfoldable both : FillDict F → Option String → List (FillRow F) → List (FillRow F)
  both fill none t = t
  both fill (some id) t =
      let aid = or_else fill.account_id 1 in
      let par = parent_of orders aid fill.exchange_order_id in
      update (is_fill aid id) (stamp fill par (find (is_fill aid id) t)) t

  classify-propagate :
      (fill : FillDict F) (id : Option String) (t : List (FillRow F))
      → classify_at log orders fill id (propagate_to orders fill id t) ≡ both fill id t
  unfolding classify_at propagate_to both stamp handed
  classify-propagate fill none t = refl
  classify-propagate fill (some id) t =
      let aid = or_else fill.account_id 1 in
      let p = is_fill aid id in
      let par = parent_of orders aid fill.exchange_order_id in
      let row = find p t in
      let g = handed par row in
      let keeps = handed-is_fill par row aid id in
      let stored = set_calc_where-carry orders p (calc_to_set orders par row) t in
      let class_ : Option (FillRow F) → FillRow F → FillRow F =
        λ r. set_class (class_for log orders fill par r) in
      ap (λ u. update p (class_ (find p u)) u) stored
      ∙ ap (λ r. update p (class_ r) (update p g t)) (find-update p g t keeps)
      ∙ update-update p g (class_ (Option.map g row)) (stamp fill par row) t keeps (λ x. refl)

  both-both :
      (fill : FillDict F) (id : Option String) (t : List (FillRow F))
      → both fill id (both fill id t) ≡ both fill id t
  unfolding both stamp
  both-both fill none t = refl
  both-both fill (some id) t =
      let aid = or_else fill.account_id 1 in
      let p = is_fill aid id in
      let par = parent_of orders aid fill.exchange_order_id in
      update-read p (stamp fill par) t (λ o x. handed-is_fill par o aid id x) (stamp-stamp fill par)

  -- A fill that is enriched a second time, with the same tables of orders and of calculations, is
  -- stored as the first time, whichever rows the table of fills holds.
  pub enrich_fill-enrich_fill :
      (fill : FillDict F) (fills : List (FillRow F))
      → enrich_fill log orders fill (enrich_fill log orders fill fills)
        ≡ enrich_fill log orders fill fills
  unfolding enrich_fill classify_and_compute_slippage propagate_calc_id_to_fill
  enrich_fill-enrich_fill fill fills =
      let id = nonempty fill.exchange_fill_id in
      let once = λ (t : List (FillRow F)). classify-propagate fill id t in
      once (enrich_fill log orders fill fills)
      ∙ ap (both fill id) (once fills)
      ∙ both-both fill id fills
      ∙ sym (once fills)
