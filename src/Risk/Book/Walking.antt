-- ===== src/Risk/Book/Walking.antt =====
-- What the walk through the book depends on, and what it keeps.
use quantamental_engine.Base.{
  String, true, false, Option, none, some, List, [], ◌∷◌, ◌++◌, ◌==◌, string_eq, filter,
  if◌then◌else◌, ◌≡◌, refl, ◌∙◌, arith, Bool-cases, inl, inr, sym, ap, no_both,
}
use quantamental_engine.Float.{Float, IsArithmetic, ◌≼◌, ◌≺◌, nought, fle, fmin}
use quantamental_engine.Float.Order.{le-fmax_left, le_of_lt, fmin-le_left}
use quantamental_engine.Risk.Book.{
  Walk, OrderBook, is_valid_level, fill_level, walk, side_of, new_walk, fill_price,
  estimate_vwap_fill, slippage_on, calculate_slippage,
}

module _ {ℓ} {F : Type ℓ} ⦃f : Float F⦄ where
  walk_skip :
      (l : F × F) (ls : List (F × F)) (w : Walk F)
      → is_valid_level l ≡ false
      → walk (l ∷ ls) w ≡ walk ls w
  unfolding walk
  walk_skip l ls w h = rw (h, walk) refl

  walk_stop :
      (l : F × F) (ls : List (F × F)) (w : Walk F)
      → is_valid_level l ≡ true
      → fle (fill_level l w).remaining nought ≡ true
      → walk (l ∷ ls) w ≡ fill_level l w
  unfolding walk
  walk_stop l ls w h k = rw (h, k, walk) refl

  walk_on :
      (l : F × F) (ls : List (F × F)) (w : Walk F)
      → is_valid_level l ≡ true
      → fle (fill_level l w).remaining nought ≡ false
      → walk (l ∷ ls) w ≡ walk ls (fill_level l w)
  unfolding walk
  walk_on l ls w h k = rw (h, k, walk) refl

  walk-filter : (ls : List (F × F)) (w : Walk F) → walk ls w ≡ walk (filter is_valid_level ls) w
  walk-filter [] w = refl
  walk-filter (l ∷ ls) w = elim (Bool-cases (is_valid_level l)) [
    | inl on ↦ elim (Bool-cases (fle (fill_level l w).remaining nought)) [
      | inl done ↦
          rw on (walk_stop l ls w on done ∙ sym (walk_stop l (filter is_valid_level ls) w on done))
      | inr more ↦ rw on (
          walk_on l ls w on more
          ∙ walk-filter ls (fill_level l w)
          ∙ sym (walk_on l (filter is_valid_level ls) w on more))
    ]
    | inr off ↦ rw off (walk_skip l ls w off ∙ walk-filter ls w)
  ]

  walk_prefix :
      (xs ys : List (F × F)) (w : Walk F)
      → nought ≺ w.remaining
      → fle (walk xs w).remaining nought ≡ true
      → walk (xs ++ ys) w ≡ walk xs w
  unfolding walk
  walk_prefix [] ys w h k = absurd (no_both k h)
  walk_prefix (l ∷ xs) ys w h k = elim (Bool-cases (is_valid_level l)) [
    | inl on ↦ elim (Bool-cases (fle (fill_level l w).remaining nought)) [
      | inl done ↦ walk_stop l (xs ++ ys) w on done ∙ sym (walk_stop l xs w on done)
      | inr more ↦
          walk_on l (xs ++ ys) w on more
          ∙ walk_prefix xs ys (fill_level l w) more
              (sym (ap (λ v. fle v.remaining nought) (walk_on l xs w on more)) ∙ k)
          ∙ sym (walk_on l xs w on more)
    ]
    | inr off ↦
        walk_skip l (xs ++ ys) w off
        ∙ walk_prefix xs ys w h (sym (ap (λ v. fle v.remaining nought) (walk_skip l xs w off)) ∙ k)
        ∙ sym (walk_skip l xs w off)
  ]

  -- Levels without a positive price and quantity do not count, and once the budget is spent on the first
  -- levels, the rest of the book does not: the walk is that through the valid ones of those levels. The
  -- budget is positive.
  pub walk_lem :
      (xs ys : List (F × F)) (w : Walk F)
      → nought ≺ w.remaining
      → fle (walk xs w).remaining nought ≡ true
      → walk (xs ++ ys) w ≡ walk (filter is_valid_level xs) w
  walk_lem xs ys w h k = walk_prefix xs ys w h k ∙ walk-filter xs w

  -- Nothing of the walk is negative: what is left of the budget, what was spent, and what was bought.
  pub IsWalk : Walk F → Type 0
  IsWalk w = (nought ≼ w.remaining) × (nought ≼ w.total_cost) × (nought ≼ w.total_qty)

  module _ (laws : IsArithmetic F) where
    open laws use {order, le_refl, le_total, sub_nonneg, add_nonneg, mul_nonneg, div_nonneg}

    fmin_nonneg : (a b : F) → nought ≼ a → nought ≼ b → nought ≼ fmin a b
    fmin_nonneg a b h k = ground arith

    fill_level-IsWalk :
        (l : F × F) (w : Walk F) → is_valid_level l ≡ true → IsWalk w → IsWalk (fill_level l w)
    unfolding IsWalk
    fill_level-IsWalk (price, qty) w on (left, cost, bought) =
        let (p, q) = positive price qty on in
        let avail = f.mul price qty in
        let fill = fmin w.remaining avail in
        let fill_nonneg =
          fmin_nonneg w.remaining avail left
            (mul_nonneg price qty (le_of_lt order nought price p) (le_of_lt order nought qty q)) in
        (
          sub_nonneg w.remaining fill (fmin-le_left order w.remaining avail),
          add_nonneg w.total_cost fill cost fill_nonneg,
          add_nonneg w.total_qty (f.div fill price) bought (div_nonneg fill price fill_nonneg p),
        )
      where
        positive :
            (price qty : F) → is_valid_level (price, qty) ≡ true → (nought ≺ price) × (nought ≺ qty)
        positive price qty on = ground arith

    walk-IsWalk : (ls : List (F × F)) (w : Walk F) → IsWalk w → IsWalk (walk ls w)
    unfolding walk
    walk-IsWalk [] w h = h
    walk-IsWalk (l ∷ ls) w h =
        ground (arith, fill_level-IsWalk l w, walk-IsWalk ls w, walk-IsWalk ls (fill_level l w))

    fill_price_nonneg :
        (entry : F) (w : Walk F) → nought ≼ entry → IsWalk w → nought ≼ fill_price entry w
    unfolding IsWalk
    fill_price_nonneg entry w h k = ground (arith, div_nonneg w.total_cost w.total_qty)

    estimate_vwap_fill_nonneg :
        (ls : List (F × F)) (notional entry : F)
        → nought ≼ notional
        → nought ≼ entry
        → nought ≼ estimate_vwap_fill ls notional entry
    unfolding estimate_vwap_fill IsWalk
    estimate_vwap_fill_nonneg [] notional entry h k = k
    estimate_vwap_fill_nonneg (l ∷ ls) notional entry h k =
        fill_price_nonneg entry (walk (l ∷ ls) (new_walk notional)) k
          (walk-IsWalk (l ∷ ls) (new_walk notional) (h, le_refl nought, le_refl nought))

    slippage_on_nonneg :
        (ls : List (F × F)) (side : String) (notional entry : F)
        → nought ≼ notional
        → nought ≼ entry
        → (nought ≼ (slippage_on ls side notional entry).0)
          × (nought ≼ (slippage_on ls side notional entry).1)
    unfolding slippage_on
    slippage_on_nonneg [] side notional entry h k = (le_refl nought, k)
    slippage_on_nonneg ((best, qty) ∷ ls) side notional entry h k =
        let fill = estimate_vwap_fill ((best, qty) ∷ ls) notional entry in
        let moved = if side == "long" then f.sub fill best else f.sub best fill in
        ground (
          arith,
          le_refl nought,
          le-fmax_left order nought (f.div moved best),
          estimate_vwap_fill_nonneg ((best, qty) ∷ ls) notional entry h k,
        )

    -- The slippage is never negative, and neither is the fill price for an entry price and a budget that
    -- are not.
    pub calculate_slippage_lem :
        (ob : Option (OrderBook F)) (side : String) (notional entry : F)
        → nought ≼ notional
        → nought ≼ entry
        → (nought ≼ (calculate_slippage ob side notional entry).0)
          × (nought ≼ (calculate_slippage ob side notional entry).1)
    unfolding calculate_slippage
    calculate_slippage_lem none side notional entry h k = (le_refl nought, k)
    calculate_slippage_lem (some ob) side notional entry h k =
        ground (arith, le_refl nought, slippage_on_nonneg (side_of side ob) side notional entry)
