-- ===== src/Risk/Size/Budget.antt =====
-- A size stays within the risk that the account takes on one trade.
use quantamental_engine.Base.{
  String, Bool, true, false, ◌||◌, not, List, if◌then◌else◌, or_else, ◌≡◌, refl, arith, subst,
  no_both,
}
use quantamental_engine.Float.{Float, IsMonotone, ◌≼◌, ◌≺◌, nought, one, fle, feq, fabs}
use quantamental_engine.Float.Order.{le_of_lt}
use quantamental_engine.Gate.{Logged, evaluate}
use quantamental_engine.Risk.Volatility.{AtrCoefficient, calculate_atr_coefficient}
use quantamental_engine.Risk.Volatility.Range.{
  IsMean, IsCoefficient, fabs_nonneg, positive_of, calculate_atr_coefficient_lem,
}
use quantamental_engine.Risk.Book.{calculate_slippage}
use quantamental_engine.Risk.Book.Walking.{calculate_slippage_lem}
use quantamental_engine.Risk.Size.{
  Sizing, Desk, Refusal, engine_not_ready, no_order_capability, invalid_price, zero_risk_distance,
  refused, applied_coefficient, size_chain, stop_distance, risk_of, base_of, sized,
  calculate_position_size,
}

first_false : (a b : Bool) → (a || b) ≡ false → a ≡ false
first_false a b h = ground arith

module _ {ℓ} {F : Type ℓ} ⦃f : Float F⦄ where
  by_gates :
      (P : Sizing F → Type ℓ) (no_ : Refusal F → Sizing F) (a b c d : Bool) (why : Refusal F)
      → ((r : Refusal F) → P (no_ r))
      → {s : Sizing F} → (c ≡ false → d ≡ false → P s)
      → P (
          if a
          then no_ why
          else if b
          then no_ no_order_capability
          else if c
          then no_ invalid_price
          else if d
          then no_ zero_risk_distance
          else s)
  by_gates P no_ true b c d why h k = h why
  by_gates P no_ false true c d why h k = h no_order_capability
  by_gates P no_ false false true d why h k = h invalid_price
  by_gates P no_ false false false true why h k = h zero_risk_distance
  by_gates P no_ false false false false why h k = k refl refl

  -- No size if it is refused; else at most the risk over the distance of the stop, in contracts, and not
  -- negative unless the slippage is above one.
  pub IsWithin : F → F → F → Sizing F → Type ℓ
  IsWithin risk sl_pct average s =
      (s.eligible ≡ false → s.size ≡ nought)
      × (s.eligible ≡ true
          → (s.risk_usdt ≡ risk)
            × (s.size ≼ f.div (f.div risk sl_pct) average)
            × (s.est_slippage ≼ one → nought ≼ s.size))

  module _ (laws : IsMonotone F) where
    open laws use {
      arithmetic, order, le_refl, le_trans, le_total, zero_le_one, sub_nonneg, sub-le, mul_nonneg,
      mul-le_self, div_nonneg, mul_comm, div_mono, neg_nonneg,
    }

    applied_bounds :
        (k : AtrCoefficient F)
        → IsCoefficient k
        → (nought ≼ applied_coefficient k) × (applied_coefficient k ≼ one)
    unfolding IsCoefficient
    applied_bounds k h = ground (arith, le_refl nought, le_refl one, zero_le_one)

    base_bounds :
        (x risk sl_pct : F)
        → (nought ≼ x) × (x ≼ one)
        → nought ≼ risk
        → nought ≺ sl_pct
        → (nought ≼ f.div (f.mul x risk) sl_pct) × (f.div (f.mul x risk) sl_pct ≼ f.div risk sl_pct)
    base_bounds x risk sl_pct (h, k) r p = (
      div_nonneg (f.mul x risk) sl_pct (mul_nonneg x risk h r) p,
      div_mono (f.mul x risk) risk sl_pct
          (subst (λ y. y ≼ risk) (mul_comm risk x) (mul-le_self risk x r k)) p,
    )

    size_chain-IsWithin :
        (calc_id : String) (k : AtrCoefficient F) (risk base sl_pct average slip price : F)
        → nought ≺ average
        → nought ≼ base
        → base ≼ f.div risk sl_pct
        → nought ≼ slip
        → IsWithin risk sl_pct average (size_chain calc_id k risk base average (slip, price))
    unfolding size_chain IsWithin
    size_chain-IsWithin calc_id k risk base sl_pct average slip price a b c d =
        let est = f.mul base (f.sub one slip) in
        let below : est ≼ f.div risk sl_pct =
          le_trans est base (f.div risk sl_pct)
            (mul-le_self base (f.sub one slip) b (sub-le one slip d)) c in
        let bound = div_mono est (f.div risk sl_pct) average below a in
        ground
          (arith, div_nonneg est average, mul_nonneg base (f.sub one slip) b, sub_nonneg one slip)

    refused-IsWithin :
        (risk sl_pct average : F) (calc_id : String) (why : Refusal F)
        → IsWithin risk sl_pct average (refused calc_id why)
    unfolding IsWithin
    refused-IsWithin risk sl_pct average calc_id why = ((λ _. refl), λ h. absurd (no_both h refl))

    module _ (mean : List F → F) (averages : IsMean mean) (desk : Desk F)
        (risk_nonneg : nought ≼ desk.individual_risk_per_trade) where
      sized-IsWithin :
          (calc_id symbol : String) (average sl_price total_equity : F) (side : String)
          → nought ≼ total_equity
          → nought ≺ average
          → feq (stop_distance mean desk average sl_price) nought ≡ false
          → IsWithin
              (risk_of mean desk total_equity)
              (stop_distance mean desk average sl_price)
              average
              (sized mean desk calc_id symbol average sl_price total_equity side)
      unfolding sized
      sized-IsWithin calc_id symbol average sl_price total_equity side e a d =
          let k = calculate_atr_coefficient mean (desk.ohlcv_cache symbol) in
          let risk = risk_of mean desk total_equity in
          let sl_pct = stop_distance mean desk average sl_price in
          let far : nought ≺ sl_pct =
            positive_of laws sl_pct
              (div_nonneg (fabs (f.sub sl_price average)) average
                (fabs_nonneg laws (f.sub sl_price average)) a)
              d in
          let base = base_of mean desk k risk sl_pct in
          let (low, high) =
            base_bounds (applied_coefficient k) risk sl_pct
              (applied_bounds k
                (calculate_atr_coefficient_lem laws mean averages (desk.ohlcv_cache symbol)))
              (mul_nonneg desk.individual_risk_per_trade total_equity risk_nonneg e) far in
          let slip = calculate_slippage (desk.orderbook_cache symbol) side base average in
          size_chain-IsWithin calc_id k risk base sl_pct average slip.0 slip.1 a low high
            (calculate_slippage_lem arithmetic (desk.orderbook_cache symbol) side base average low
              (le_of_lt order nought average a)).0

      -- For an account and a risk per trade that are not negative, a size that is refused is zero, and one
      -- that is not is at most the risk of the trade over the relative distance of the stop, in contracts
      -- of the entry price, and not negative as long as the slippage is at most one.
      pub calculate_position_size_lem :
          (calc_id symbol : String) (average sl_price total_equity : F) (side : String)
          (log : Logged)
          → nought ≼ total_equity
          → IsWithin
              (risk_of mean desk total_equity)
              (stop_distance mean desk average sl_price)
              average
              (calculate_position_size mean desk calc_id symbol average sl_price total_equity side
                log).0
      unfolding calculate_position_size
      calculate_position_size_lem calc_id symbol average sl_price total_equity side log e =
          let (ready, reason) = (evaluate desk.reading log).0 in
          let within =
            refused-IsWithin (risk_of mean desk total_equity)
              (stop_distance mean desk average sl_price) average calc_id in
          by_gates
            (IsWithin (risk_of mean desk total_equity) (stop_distance mean desk average sl_price)
              average)
            (refused calc_id) (not ready) (not (or_else desk.orders_capable true))
            (fle average nought || fle sl_price nought)
            (feq (stop_distance mean desk average sl_price) nought) (engine_not_ready reason) within
            (λ a d.
              sized-IsWithin calc_id symbol average sl_price total_equity side e
                (first_false (fle average nought) (fle sl_price nought) a) d)
