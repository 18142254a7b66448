-- ===== src/Cache/Mark.antt =====
-- `apply_mark_price`: what a tick of the mark price does to the positions of its symbol and to the
-- account.
use quantamental_engine.Base.{
  String, true, false, ◌||◌, not, List, [], ◌∷◌, ◌==◌, string_eq, if◌then◌else◌, map, All, filter,
  ◌≡◌, refl, ap, ◌∙◌, sym, subst, eq_of_==, arith, Bool-cases, inl, inr, ◌⊎◌,
}
use quantamental_engine.Float.{
  Float, IsOrdered, IsArithmetic, IsRounding, ◌≼◌, ◌≺◌, nought, one, flt, feq, fmax, fabs,
}
use quantamental_engine.Float.Order.{le-fmax_left, fmax_lub, le_of_lt}
use quantamental_engine.Position.{Position}
use quantamental_engine.App.{App, put}
use quantamental_engine.Portfolio.{Tables, recalculate_portfolio, figures, rolling, sum, sum_from}
use quantamental_engine.Cache.Snapshot.{recalculate-positions}
use quantamental_engine.Portfolio.Branches.{by_branches}
use quantamental_engine.Portfolio.Figures.{recalculate_portfolio-bounds}

module _ {ℓ} {F : Type ℓ} ⦃f : Float F⦄ where
  abbrev pub unrealized_at : F → Position F → F
  unrealized_at mark pos =
      if pos.direction == "LONG"
      then f.mul (f.sub mark pos.average) pos.contract_amount
      else f.mul (f.sub pos.average mark) pos.contract_amount

  -- the body of the loop, for a position of the symbol
  unfoldable pub mark_position : F → Position F → Position F
  mark_position mark pos =
      let valued = record pos {
        fair_price = mark;
        position_value_usdt = fabs (f.mul (f.mul mark pos.contract_amount) pos.contract_size);
        position_value_asset = fabs (f.mul pos.contract_amount pos.contract_size);
      } in
      let unreal = unrealized_at mark pos in
      if flt nought pos.average
      then record valued {
        individual_unrealized = unreal;
        session_mfe = if flt pos.session_mfe unreal then f.round_to 2 unreal else pos.session_mfe;
        session_mae =
            if feq pos.session_mae nought || flt unreal pos.session_mae
            then f.round_to 2 unreal
            else pos.session_mae;
      }
      else valued

  unfoldable pub mark_positions : String → F → List (Position F) → List (Position F)
  unfolding mark_position
  mark_positions symbol mark [] = []
  mark_positions symbol mark (p ∷ ps) =
      (if not (p.ticker == symbol) then p else mark_position mark p) ∷ mark_positions symbol mark ps

  -- the app before the recalculation
  unfoldable pub marked : String → F → App F → App F
  unfolding mark_positions
  marked symbol mark app =
      let positions = mark_positions symbol mark app.positions in
      let unrealized = sum (map (λ p. p.individual_unrealized) positions) in
      let margin_used = sum (map (λ p. p.individual_margin_used) positions) in
      let acc = record app.account_state {
        total_unrealized = unrealized;
        total_position_value = sum (map (λ p. p.position_value_usdt) positions);
        total_margin_used = margin_used;
      } in
      let raw_equity = f.add acc.balance_usdt unrealized in
      let equity = if flt raw_equity nought then nought else raw_equity in
      record app {
        positions = positions;
        mark_price_cache = put symbol mark app.mark_price_cache;
        account_state =
            if flt nought acc.balance_usdt
            then record acc {
              total_equity = equity;
              available_margin = fmax nought (f.sub equity margin_used);
            }
            else acc;
      }

  unfoldable pub apply_mark_price : Tables F → String → F → App F → App F
  unfolding marked
  apply_mark_price tables symbol mark app = recalculate_portfolio tables (marked symbol mark app)

  recalculate-account :
      (tables : Tables F) (app : App F)
      → ((recalculate_portfolio tables app).account_state.total_equity
          ≡ app.account_state.total_equity)
        × ((recalculate_portfolio tables app).account_state.available_margin
            ≡ app.account_state.available_margin)
  unfolding figures rolling
  recalculate-account tables app =
      by_branches
        (λ after.
          (after.account_state.total_equity ≡ app.account_state.total_equity)
          × (after.account_state.available_margin ≡ app.account_state.available_margin))
        tables app (refl, refl) (refl, refl) (λ s w l. (refl, refl))

  module _ (laws : IsArithmetic F) where
    open laws use {le_refl, le_total, le_trans}

    sum_nonneg :
        (total : F) (xs : List F)
        → nought ≼ total
        → All (λ x. nought ≼ x) xs
        → nought ≼ sum_from total xs
    unfolding sum_from
    sum_nonneg total [] h k = h
    sum_nonneg total (x ∷ xs) h k =
        sum_nonneg (f.add total x) xs (laws.add_nonneg total x h k.0) k.1

    marks_margin :
        (symbol : String) (mark : F) (ps : List (Position F))
        → map (λ p. p.individual_margin_used) (mark_positions symbol mark ps)
          ≡ map (λ p. p.individual_margin_used) ps
    unfolding mark_positions mark_position
    marks_margin symbol mark [] = refl
    marks_margin symbol mark (p ∷ ps) = ground (arith, marks_margin symbol mark ps)

    equity_bounds :
        (raw margin : F)
        → nought ≼ margin
        → let equity = if flt raw nought then nought else raw in
          (nought ≼ equity)
          × (nought ≼ fmax nought (f.sub equity margin))
          × (fmax nought (f.sub equity margin) ≼ equity)
    equity_bounds raw margin h = elim (Bool-cases (flt raw nought)) [
      | inl negative ↦ rw negative (
        le_refl nought,
        le-fmax_left laws.order nought (f.sub nought margin),
        fmax_lub laws.order nought (f.sub nought margin) nought (le_refl nought)
            (laws.sub-le nought margin h),
      )
      | inr positive ↦
          let up : nought ≼ raw = ground arith in
          rw positive (
            up,
            le-fmax_left laws.order nought (f.sub raw margin),
            fmax_lub laws.order nought (f.sub raw margin) raw up (laws.sub-le raw margin h),
          )
    ]

    marked_bounds :
        (symbol : String) (mark : F) (app : App F)
        → nought ≺ app.account_state.balance_usdt
        → All (λ x. nought ≼ x) (map (λ p. p.individual_margin_used) app.positions)
        → let m = marked symbol mark app in
          (nought ≼ m.account_state.total_equity)
          × (nought ≼ m.account_state.available_margin)
          × (m.account_state.available_margin ≼ m.account_state.total_equity)
    unfolding marked
    marked_bounds symbol mark app pos margins =
        let same = marks_margin symbol mark app.positions in
        let sum_ok = sum_nonneg nought _ (le_refl nought) (subst (All _) (sym same) margins) in
        rw pos (equity_bounds _ _ sum_ok)

    -- A tick of the mark price, while the balance is positive and no margin negative, leaves an equity
    -- that is not negative, an available margin between zero and the equity, and a drawdown between 0
    -- and 1, however large the loss.
    pub apply_mark_price-bounds :
        (tables : Tables F) (symbol : String) (mark : F) (app : App F)
        → nought ≺ app.account_state.balance_usdt
        → All (λ x. nought ≼ x) (map (λ p. p.individual_margin_used) app.positions)
        → let after = apply_mark_price tables symbol mark app in
          (nought ≼ after.account_state.total_equity)
          × (nought ≼ after.account_state.available_margin)
          × (after.account_state.available_margin ≼ after.account_state.total_equity)
          × (nought ≼ after.portfolio.drawdown)
          × (after.portfolio.drawdown ≼ one)
    unfolding apply_mark_price
    apply_mark_price-bounds tables symbol mark app pos margins =
        let m = marked symbol mark app in
        let (equity, margin) = recalculate-account tables m in
        let (low, free, within) = marked_bounds symbol mark app pos margins in
        let bounds = recalculate_portfolio-bounds laws tables m low in
        rw (equity, margin) (low, free, within, bounds.0, bounds.1)

  others_kept :
      (symbol : String) (mark : F) (ticker : String)
      → (ticker == symbol) ≡ false
      → (ps : List (Position F))
      → filter (λ p. p.ticker == ticker) (mark_positions symbol mark ps)
        ≡ filter (λ p. p.ticker == ticker) ps
  unfolding mark_positions mark_position
  others_kept symbol mark ticker h [] = refl
  others_kept symbol mark ticker h (p ∷ ps) = elim (Bool-cases (p.ticker == ticker)) [
    | inl mine ↦
        let e = eq_of_== p.ticker ticker mine in
        let apart : (p.ticker == symbol) ≡ false = rw e h in
        rw (apart, mine) (ap (λ rest. p ∷ rest) (others_kept symbol mark ticker h ps))
    | inr other ↦ ground (arith, others_kept symbol mark ticker h ps)
  ]

  -- A tick of one symbol leaves the positions of every other symbol as they were, in their order.
  pub apply_mark_price_other :
      (tables : Tables F) (symbol : String) (mark : F) (app : App F) (ticker : String)
      → (ticker == symbol) ≡ false
      → filter (λ p. p.ticker == ticker) (apply_mark_price tables symbol mark app).positions
        ≡ filter (λ p. p.ticker == ticker) app.positions
  unfolding apply_mark_price marked
  apply_mark_price_other tables symbol mark app ticker h =
      ap (filter (λ p. p.ticker == ticker)) (recalculate-positions tables (marked symbol mark app))
      ∙ others_kept symbol mark ticker h app.positions

  below_of_flt : IsOrdered F → (a b : F) → flt a b ≡ true → a ≼ b
  below_of_flt laws a b h = le_of_lt laws a b (ground arith)

  best_grows :
      (laws : IsOrdered F) (rounding : IsRounding F) (best unreal : F)
      → f.round_to 2 best ≡ best
      → let next = if flt best unreal then f.round_to 2 unreal else best in
        (best ≼ next) × (f.round_to 2 next ≡ next)
  best_grows laws rounding best unreal h = elim (Bool-cases (flt best unreal)) [
    | inl better ↦
        let up = rounding.round_mono best unreal (below_of_flt laws best unreal better) in
        rw better (subst (λ x. x ≼ f.round_to 2 unreal) h up, rounding.round_idem unreal)
    | inr worse ↦ rw worse (laws.le_refl best, h)
  ]

  worst_falls :
      (laws : IsOrdered F) (rounding : IsRounding F) (worst unreal : F)
      → f.round_to 2 worst ≡ worst
      → let next = if feq worst nought || flt unreal worst then f.round_to 2 unreal else worst in
        ((feq worst nought ≡ true) ⊎ (next ≼ worst)) × (f.round_to 2 next ≡ next)
  worst_falls laws rounding worst unreal h = elim (Bool-cases (feq worst nought)) [
    | inl unset ↦ rw unset (inl refl, rounding.round_idem unreal)
    | inr set ↦ elim (Bool-cases (flt unreal worst)) [
      | inl lower ↦
          let down = rounding.round_mono unreal worst (below_of_flt laws unreal worst lower) in
          rw (set, lower)
            (inr (subst (λ x. f.round_to 2 unreal ≼ x) h down), rounding.round_idem unreal)
      | inr higher ↦ rw (set, higher) (inr (laws.le_refl worst), h)
    ]
  ]

  -- Over a tick, given that both are rounded to cents, the best result of a session does not fall,
  -- and the worst does not rise unless it was zero, which counts as not set; both are rounded
  -- afterwards too.
  pub mark_position-session :
      (laws : IsOrdered F) (rounding : IsRounding F) (mark : F) (pos : Position F)
      → f.round_to 2 pos.session_mfe ≡ pos.session_mfe
      → f.round_to 2 pos.session_mae ≡ pos.session_mae
      → let after = mark_position mark pos in
        (pos.session_mfe ≼ after.session_mfe)
        × ((feq pos.session_mae nought ≡ true) ⊎ (after.session_mae ≼ pos.session_mae))
        × (f.round_to 2 after.session_mfe ≡ after.session_mfe)
        × (f.round_to 2 after.session_mae ≡ after.session_mae)
  unfolding mark_position
  mark_position-session laws rounding mark pos high low =
      let (up, high') = best_grows laws rounding pos.session_mfe (unrealized_at mark pos) high in
      let (down, low') = worst_falls laws rounding pos.session_mae (unrealized_at mark pos) low in
      elim (Bool-cases (flt nought pos.average)) [
        | inl priced ↦ rw priced (up, down, high', low')
        | inr unpriced ↦
            rw unpriced
              (laws.le_refl pos.session_mfe, inr (laws.le_refl pos.session_mae), high, low)
      ]
