-- ===== src/Enrichment/Traced.antt =====
-- Statements that leave keys and links alone, and so the uniqueness of links.
use mathlib.Core.List.Memᴰ
use mathlib.Core.List.{Memᴰ}
use quantamental_engine.Base.{
  ℕ, ◌+◌, ltb, String, Bool, true, ◌&&◌, Option, none, some, List, [], ◌∷◌, ◌==◌, string_eq, nat_eq,
  if◌then◌else◌, ◌≡◌, ◌≢◌, ◌⊎◌, refl, ◌∙◌, ap, sym, arith, Bool-cases, inl, inr,
}
use quantamental_engine.Orders.Row.{Order}
use quantamental_engine.Orders.Store.{
  conflicts, upsert, resolve, overwrite, update_where, cancel_row, mark_stale_orders, is_active,
}
use quantamental_engine.Enrichment.{update, set_triggers}

pub Mem-update {ℓ} :
    {A : Type ℓ} (p : A → Bool) (g : A → A) (t : List A) {y : A}
    → Memᴰ y (update p g t)
    → (x : A) × Memᴰ x t × (y ≡ (if p x then g x else x))
unfolding update
Mem-update p g [] m = absurd (Memᴰ.not-nil m)
Mem-update p g (r ∷ t) m = elim (Memᴰ.cases_cons m) [
  | inl here ↦ (r, Memᴰ.head refl, here)
  | inr there ↦ let (x, inside, e) = Mem-update p g t there in (x, Memᴰ.tail inside, e)
]

pub no_link : {c : String} → ◌≢◌ {A = Option String} none (some c)
no_link h = cc

module _ {ℓ} {F : Type ℓ} where
  -- Two orders of the table that are linked to one calculation have the same key.
  unfoldable pub CalcsUnique : List (Order F) → Type ℓ
  CalcsUnique t =
      (c : String) (r s : Order F)
      → Memᴰ r t
      → Memᴰ s t
      → r.calc_id ≡ some c
      → s.calc_id ≡ some c
      → conflicts r s ≡ true

  -- Each row of the new table is linked to nothing, or is a row of the old one as to key and link.
  abbrev pub Traced : List (Order F) → List (Order F) → Type ℓ
  Traced t t' =
      (y : Order F)
      → Memᴰ y t'
      → (y.calc_id ≡ none)
        ⊎ ((x : Order F) × Memᴰ x t
            × (y.calc_id ≡ x.calc_id)
            × (y.account_id ≡ x.account_id)
            × (y.exchange_order_id ≡ x.exchange_order_id))

  -- a row of the table under one more row
  deeper :
      (r : Order F) (t : List (Order F)) (y : Order F)
      → (y.calc_id ≡ none)
        ⊎ ((x : Order F) × Memᴰ x t
            × (y.calc_id ≡ x.calc_id)
            × (y.account_id ≡ x.account_id)
            × (y.exchange_order_id ≡ x.exchange_order_id))
      → (y.calc_id ≡ none)
        ⊎ ((x : Order F) × Memᴰ x (r ∷ t)
            × (y.calc_id ≡ x.calc_id)
            × (y.account_id ≡ x.account_id)
            × (y.exchange_order_id ≡ x.exchange_order_id))
  deeper r t y (inl off) = inl off
  deeper r t y (inr (x, x_in, c, a, i)) = inr (x, Memᴰ.tail x_in, c, a, i)

  pub Traced-unique : (t t' : List (Order F)) → Traced t t' → CalcsUnique t → CalcsUnique t'
  unfolding CalcsUnique conflicts
  Traced-unique t t' traced h c r s m n e k = elim (traced r m) [
    | inl off ↦ absurd (no_link (sym off ∙ e))
    | inr (x, x_in, x_calc, x_acc, x_id) ↦ elim (traced s n) [
      | inl off ↦ absurd (no_link (sym off ∙ k))
      | inr (y, y_in, y_calc, y_acc, y_id) ↦
          let old = h c x y x_in y_in (sym x_calc ∙ e) (sym y_calc ∙ k) in
          rw (x_acc, y_acc, x_id, y_id) old
    ]
  ]

  pub Traced-set_triggers :
      (found : Option F × Option F) (p : Order F → Bool) (t : List (Order F))
      → Traced t (update p (set_triggers found) t)
  Traced-set_triggers found p t y m =
      let (x, x_in, e) = Mem-update p (set_triggers found) t m in
      inr (x, x_in, ground arith, ground arith, ground arith)

  pub Traced-upsert : (n : Order F) (t : List (Order F)) → n.calc_id ≡ none → Traced t (upsert n t)
  unfolding upsert resolve overwrite
  Traced-upsert n [] fresh_ y m = elim (Memᴰ.cases_cons m) [
    | inl here ↦ inl (ap (λ (x : Order F). x.calc_id) here ∙ fresh_)
    | inr there ↦ absurd (Memᴰ.not-nil there)
  ]
  Traced-upsert n (r ∷ t) fresh_ y m = elim (Bool-cases (conflicts r n)) [
    | inl on ↦ elim (Memᴰ.cases_cons (rw on at m)) [
      | inl here ↦ inr (r, Memᴰ.head refl, ground arith, ground arith, ground arith)
      | inr there ↦ inr (y, Memᴰ.tail there, refl, refl, refl)
    ]
    | inr off ↦ elim (Memᴰ.cases_cons (rw off at m)) [
      | inl here ↦ inr (y, Memᴰ.head here, refl, refl, refl)
      | inr there ↦ elim (Traced-upsert n t fresh_ y there) [
        | inl unlinked ↦ inl unlinked
        | inr (x, x_in, c, a, i) ↦ inr (x, Memᴰ.tail x_in, c, a, i)
      ]
    ]
  ]

  Traced-update_where :
      (p : Order F → Bool) (now_ms : ℕ) (t : List (Order F))
      → Traced t (update_where p (cancel_row now_ms) t).0
  unfolding update_where
  Traced-update_where p now_ms [] y m = absurd (Memᴰ.not-nil m)
  Traced-update_where p now_ms (r ∷ t) y m = elim (Bool-cases (p r)) [
    | inl on ↦ elim (Memᴰ.cases_cons (rw on at m)) [
      | inl here ↦ inr (r, Memᴰ.head refl, ground arith, ground arith, ground arith)
      | inr there ↦ deeper r t y (Traced-update_where p now_ms t y there)
    ]
    | inr off ↦ elim (Memᴰ.cases_cons (rw off at m)) [
      | inl here ↦ inr (r, Memᴰ.head refl, ground arith, ground arith, ground arith)
      | inr there ↦ deeper r t y (Traced-update_where p now_ms t y there)
    ]
  ]

  pub Traced-mark_stale_orders :
      (now_ms account_id threshold_ms : ℕ) (t : List (Order F))
      → Traced t (mark_stale_orders now_ms account_id threshold_ms t).0
  unfolding mark_stale_orders
  Traced-mark_stale_orders now_ms account_id threshold_ms =
      Traced-update_where
        (λ r.
          r.account_id == account_id
          && is_active r.status
          && ltb (r.last_seen_ms + threshold_ms) now_ms
          && ltb 0 r.last_seen_ms)
        now_ms
