-- ===== src/Risk/Volatility/Range.antt =====
-- The coefficient lies between 0 and 1, and the category says where.
use quantamental_engine.Base.{
  ℕ, suc, zero, ◌+◌, Bool, true, false, Option, none, some, List, [], ◌∷◌, drop, if◌then◌else◌, ltb,
  length, ◌≡◌, ◌≢◌, refl, arith, All, ◌⊎◌, inl, inr, Bool-cases, ◌↔◌,
}
use quantamental_engine.Float.{Float, IsMonotone, ◌≼◌, ◌≺◌, nought, one, feq, fmax, fmin, fabs}
use quantamental_engine.Float.Order.{le-fmax_right, fmin-le_right}
use quantamental_engine.Risk.Volatility.{
  Candle, unknown, too_volatile, AtrCoefficient, take, no_coefficient, category_of, coefficient_of,
  calculate_atr_coefficient, true_range, true_ranges, ranges, smooth, wilder_atr, atr_short_period,
  atr_long_period,
}

module _ {ℓ} {F : Type ℓ} ⦃f : Float F⦄ where
  -- What the code relies on of numpy's `mean`.
  abbrev pub IsMean : (List F → F) → Type ℓ
  IsMean mean = (xs : List F) → All (λ x. nought ≼ x) xs → nought ≼ mean xs

  -- A coefficient between 0 and 1 in the category of its size, or none at all.
  unfoldable pub IsCoefficient : AtrCoefficient F → Type ℓ
  IsCoefficient k =
      ((k.atr_c ≡ none) × (k.category ≡ unknown))
      ⊎ ((x : F) × (k.atr_c ≡ some x)
          × (nought ≼ x)
          × (x ≼ one)
          × ((k.category ≡ too_volatile) ↔ (x ≺ f.lit 2 1))
          × (k.category ≢ unknown))

  category-too_volatile : (x : F) → (category_of x ≡ too_volatile) ↔ (fmin x one ≺ f.lit 2 1)
  category-too_volatile x = ground arith

  category-known : (x : F) → category_of x ≢ unknown
  category-known x = ground arith

  guarded :
      (b : Bool) (k : AtrCoefficient F)
      → IsCoefficient k
      → IsCoefficient (if b then no_coefficient else k)
  unfolding IsCoefficient
  guarded true k h = inl (refl, refl)
  guarded false k h = h

  module _ (laws : IsMonotone F) where
    open laws use {
      order, le_refl, le_trans, le_total, zero_le_one, sub_nonneg, add_nonneg, mul_nonneg,
      div_nonneg, div-le_one, lit_mono, zero_lt_one, neg_nonneg,
    }

    pub fabs_nonneg : (a : F) → nought ≼ fabs a
    fabs_nonneg a = ground (arith, neg_nonneg a, le_total a nought)

    true_range_nonneg : (close : F) (c : Candle F) → nought ≼ true_range close c
    true_range_nonneg close c =
        let a = fabs (f.sub c.high close) in
        let b = fabs (f.sub c.low close) in
        le_trans nought b (true_range close c) (fabs_nonneg (f.sub c.low close)) (
          le_trans b (fmax a b) (true_range close c) (le-fmax_right order a b)
            (le-fmax_right order (f.sub c.high c.low) (fmax a b)))

    true_ranges_nonneg :
        (close : F) (cs : List (Candle F)) → All (λ x. nought ≼ x) (true_ranges close cs)
    unfolding true_ranges
    true_ranges_nonneg close [] = tt
    true_ranges_nonneg close (c ∷ cs) = (true_range_nonneg close c, true_ranges_nonneg c.close cs)

    ranges_nonneg : (cs : List (Candle F)) → All (λ x. nought ≼ x) (ranges cs)
    ranges_nonneg [] = tt
    ranges_nonneg (c ∷ cs) = true_ranges_nonneg c.close cs

    All-take : (n : ℕ) (xs : List F) → All (λ x. nought ≼ x) xs → All (λ x. nought ≼ x) (take n xs)
    All-take zero xs h = tt
    All-take (suc n) [] h = tt
    All-take (suc n) (x ∷ xs) h = (h.0, All-take n xs h.1)

    All-drop : (n : ℕ) (xs : List F) → All (λ x. nought ≼ x) xs → All (λ x. nought ≼ x) (drop n xs)
    All-drop zero xs h = h
    All-drop (suc n) [] h = tt
    All-drop (suc n) (x ∷ xs) h = All-drop n xs h.1

    smooth_nonneg :
        (alpha atr : F) (ts : List F)
        → nought ≼ alpha
        → alpha ≼ one
        → nought ≼ atr
        → All (λ x. nought ≼ x) ts
        → nought ≼ smooth alpha atr ts
    unfolding smooth
    smooth_nonneg alpha atr [] a b h hs = h
    smooth_nonneg alpha atr (t ∷ ts) a b h hs =
        smooth_nonneg alpha (f.add (f.mul atr (f.sub one alpha)) (f.mul t alpha)) ts a b
          (add_nonneg (f.mul atr (f.sub one alpha)) (f.mul t alpha)
            (mul_nonneg atr (f.sub one alpha) h (sub_nonneg one alpha b))
            (mul_nonneg t alpha hs.0 a))
          hs.1

    positive_period : (n : ℕ) → nought ≺ f.lit (suc n) 0
    positive_period n =
        ground (arith, zero_lt_one, lit_mono 1 (suc n), le_trans one (f.lit (suc n) 0) nought)

    pub positive_of : (x : F) → nought ≼ x → feq x nought ≡ false → nought ≺ x
    positive_of x h k = ground arith

    fmin_nonneg : (x : F) → nought ≼ x → nought ≼ fmin x one
    fmin_nonneg x h = ground (arith, zero_le_one)

    module _ (mean : List F → F) (averages : IsMean mean) where
      wilder_atr_nonneg :
          (ohlcv : List (Candle F)) (n : ℕ) (x : F)
          → wilder_atr mean ohlcv (suc n) ≡ some x
          → nought ≼ x
      unfolding wilder_atr
      wilder_atr_nonneg ohlcv n x h =
          let period = f.lit (suc n) 0 in
          let tr = ranges ohlcv in
          let alpha = f.div one period in
          let pos_ = positive_period n in
          let bound : nought ≼ smooth alpha (mean (take (suc n) tr)) (drop (suc n) tr) =
            smooth_nonneg alpha (mean (take (suc n) tr)) (drop (suc n) tr)
              (div_nonneg one period zero_le_one pos_)
              (div-le_one one period (lit_mono 1 (suc n) (omega arith)) pos_)
              (averages (take (suc n) tr) (All-take (suc n) tr (ranges_nonneg ohlcv)))
              (All-drop (suc n) tr (ranges_nonneg ohlcv)) in
          ground arith

      coefficient_of-IsCoefficient :
          (a b : Option F)
          → ((x : F) → a ≡ some x → nought ≼ x)
          → ((x : F) → b ≡ some x → nought ≼ x)
          → IsCoefficient (coefficient_of a b)
      unfolding coefficient_of IsCoefficient
      coefficient_of-IsCoefficient none b ha hb = inl (refl, refl)
      coefficient_of-IsCoefficient (some x) none ha hb = inl (refl, refl)
      coefficient_of-IsCoefficient (some x) (some y) ha hb = elim (Bool-cases (feq x nought)) [
        | inl off ↦ rw off (inl (refl, refl))
        | inr on ↦
            let raw = f.div y x in
            let nonneg = div_nonneg y x (hb y refl) (positive_of x (ha x refl) on) in
            rw on (
              inr (
                fmin raw one,
                refl,
                fmin_nonneg raw nonneg,
                fmin-le_right order raw one,
                category-too_volatile raw,
                category-known raw,
              ))
      ]

      -- Whatever the candles, the coefficient is missing, in the category unknown, or lies between 0 and 1
      -- and is called too volatile exactly if it is below 0.2.
      pub calculate_atr_coefficient_lem :
          (ohlcv : List (Candle F)) → IsCoefficient (calculate_atr_coefficient mean ohlcv)
      unfolding calculate_atr_coefficient
      calculate_atr_coefficient_lem ohlcv =
          guarded (ltb (length ohlcv) (atr_long_period + 1))
            (coefficient_of (wilder_atr mean ohlcv atr_short_period)
              (wilder_atr mean ohlcv atr_long_period))
            (coefficient_of-IsCoefficient (wilder_atr mean ohlcv atr_short_period)
              (wilder_atr mean ohlcv atr_long_period) (wilder_atr_nonneg ohlcv 13)
              (wilder_atr_nonneg ohlcv 99))
