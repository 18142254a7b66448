-- ===== src/Portfolio/Figures.antt =====
-- The bounds of the drawdown and of the equity's extremes, and the exposure of each sector.
use quantamental_engine.Base.{
  String, true, Option, none, some, List, [], ◌∷◌, ◌==◌, string_eq, if◌then◌else◌, or_else, ◌≡◌,
  refl, ◌∙◌, arith, filter, map, no_both, subst, sym, Bool-cases, inl, inr, ==_refl, eq_of_==,
}
use quantamental_engine.Float.{Float, IsArithmetic, ◌≼◌, nought, one, fmax, fmin, flt}
use quantamental_engine.Float.Order.{le-fmax_left, le-fmax_right, fmin-le_right, fmax_lub}
use quantamental_engine.Position.{Position}
use quantamental_engine.App.{App}
use quantamental_engine.Portfolio.Branches.{by_branches}
use quantamental_engine.Portfolio.{
  Tables, ratio, figures, rolling, rolling_dd, fetch_rolling_peak_equity, recalculate_portfolio,
  add_to, sector_net, net_value,
}

module _ {ℓ} {F : Type ℓ} ⦃f : Float F⦄ where
  module _ (laws : IsArithmetic F) where
    open laws use {le_refl, le_total, le_trans}

    -- A fall from a peak as a share of the peak.
    share_bounds :
        (peak equity : F)
        → nought ≼ equity
        → equity ≼ peak
        → (nought ≼ ratio (f.sub peak equity) peak) × (ratio (f.sub peak equity) peak ≼ one)
    share_bounds peak equity h k = ground (
      arith,
      le_refl nought,
      laws.zero_le_one,
      laws.div_nonneg (f.sub peak equity) peak (laws.sub_nonneg peak equity k),
      laws.div-le_one (f.sub peak equity) peak (laws.sub-le peak equity h),
    )

    fetch-ge :
        (row : Option (Option F)) (equity : F) → equity ≼ fetch_rolling_peak_equity row equity
    unfolding fetch_rolling_peak_equity
    fetch-ge none equity = le_refl equity
    fetch-ge (some r) equity = le-fmax_right laws.order (or_else r nought) equity

    rolling_bounds :
        (peak equity : F)
        → nought ≼ equity
        → equity ≼ peak
        → (nought ≼ rolling_dd peak equity) × (rolling_dd peak equity ≼ one)
    rolling_bounds peak equity h k = (
      le-fmax_right laws.order _ nought,
      fmax_lub laws.order _ nought one (share_bounds peak equity h k).1 laws.zero_le_one,
    )

    min_le : (low equity : F) → (if flt nought low then fmin low equity else equity) ≼ equity
    min_le low equity = ground (arith, le_refl equity, fmin-le_right laws.order low equity)

    abbrev pub HasBounds : App F → App F → Type 0
    HasBounds app after =
        (nought ≼ after.portfolio.drawdown)
        × (after.portfolio.drawdown ≼ one)
        × (app.account_state.total_equity ≼ after.account_state.max_total_equity)
        × (app.account_state.max_total_equity ≼ after.account_state.max_total_equity)
        × (after.account_state.min_total_equity ≼ app.account_state.total_equity)

    -- While the equity is not negative, every branch of the recalculation, the fallback included, leaves
    -- a drawdown between 0 and 1, a maximum that is no lower than the equity and than it was, and a
    -- minimum that is no higher than the equity.
    pub recalculate_portfolio-bounds :
        (tables : Tables F) (app : App F)
        → nought ≼ app.account_state.total_equity
        → HasBounds app (recalculate_portfolio tables app)
    unfolding figures rolling
    recalculate_portfolio-bounds tables app h =
        let acc = app.account_state in
        let equity = acc.total_equity in
        let up = le-fmax_right laws.order acc.max_total_equity equity in
        let share = share_bounds (fmax acc.max_total_equity equity) equity h up in
        let extremes : (equity ≼ fmax acc.max_total_equity equity)
            × (acc.max_total_equity ≼ fmax acc.max_total_equity equity)
            × ((if flt nought acc.min_total_equity
                  then fmin acc.min_total_equity equity
                  else equity)
                ≼ equity) =
          (
            up,
            le-fmax_left laws.order acc.max_total_equity equity,
            min_le acc.min_total_equity equity,
          ) in
        by_branches (HasBounds app) tables app
          (share.0, share.1, extremes.0, extremes.1, extremes.2)
          (share.0, share.1, extremes.0, extremes.1, extremes.2)
          (λ s warn_t limit_t.
            let row = tables.max_equity app.active_account_id s.dd_rolling_window_days in
            let bounds =
              rolling_bounds (fetch_rolling_peak_equity row equity) equity h
                (fetch-ge row equity) in
            (bounds.0, bounds.1, extremes.0, extremes.1, extremes.2))

  -- `d.get(key)` on the dictionary of sectors
  unfoldable pub get : String → List (String × F) → Option F
  get key [] = none
  get key ((k, v) ∷ d) = if k == key then some v else get key d

  unfoldable pub add_net : Option F → F → F
  add_net none net = f.add nought net
  add_net (some v) net = f.add v net

  get-add_to :
      (key k : String) (net : F) (d : List (String × F))
      → get key (add_to k net d) ≡ (if k == key then some (add_net (get k d) net) else get key d)
  unfolding get add_to add_net
  get-add_to key k net [] = refl
  get-add_to key k net ((k', v) ∷ d) = elim (Bool-cases (k' == k)) [
    | inl same ↦ let e = eq_of_== k' k same in rw (same, e) (ground arith)
    | inr other ↦ rw other (elim (Bool-cases (k' == key)) [
      | inl here ↦
          let e = eq_of_== k' key here in
          let apart = λ (t : (k == key) ≡ true).
            no_both (subst (λ x. (k' == x) ≡ true) (e ∙ sym (eq_of_== k key t)) (==_refl k'))
              other in
          rw here (elim (Bool-cases (k == key)) [
            | inl t ↦ absurd (apart t)
            | inr differs ↦ rw differs refl
          ])
      | inr there ↦ rw there (get-add_to key k net d)
    ])
  ]

  -- the signed values of the positions of a sector, in their order: that of a long is positive
  abbrev pub nets_of : String → List (Position F) → List F
  nets_of key ps =
      map
        (λ p. if p.direction == "LONG" then p.position_value_usdt else f.neg p.position_value_usdt)
        (filter (λ p. p.sector == key) ps)

  unfoldable pub total_from : Option F → List F → Option F
  total_from start [] = start
  total_from start (x ∷ xs) = total_from (some (add_net start x)) xs

  pub get-sector_net :
      (key : String) (ps : List (Position F)) (d : List (String × F))
      → get key (sector_net ps d) ≡ total_from (get key d) (nets_of key ps)
  unfolding sector_net total_from
  get-sector_net key [] d = refl
  get-sector_net key (p ∷ ps) d = elim (Bool-cases (p.sector == key)) [
    | inl here ↦
        get-sector_net key ps (add_to p.sector (net_value p) d)
        ∙ rw here
            (ground (arith, get-add_to key p.sector (net_value p) d, eq_of_== p.sector key here))
    | inr other ↦
        get-sector_net key ps (add_to p.sector (net_value p) d)
        ∙ rw other (ground (arith, get-add_to key p.sector (net_value p) d))
  ]

  -- The exposure that the recalculation keeps for a sector is the sum, from zero on and in the order of
  -- the positions, of the signed values of the positions in that sector, a short counting negative; a
  -- sector without positions has no entry.
  pub sector_exposure :
      (tables : Tables F) (app : App F) (key : String)
      → get key (recalculate_portfolio tables app).portfolio.total_correlated_exposure
        ≡ total_from none (nets_of key app.positions)
  unfolding figures rolling get
  sector_exposure tables app key =
      let total = get-sector_net key app.positions [] in
      by_branches
        (λ after.
          get key after.portfolio.total_correlated_exposure
          ≡ total_from none (nets_of key app.positions))
        tables app total total (λ s w l. total)
