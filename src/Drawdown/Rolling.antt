-- ===== src/Drawdown/Rolling.antt =====
-- The bounds of the rolling drawdown, and what its peak is the peak of.
use quantamental_engine.Base.{
  ℕ, true, List, [], ◌∷◌, ◌≡◌, refl, inl, inr, arith, All, All-map, Bool-cases,
}
use quantamental_engine.Float.{Float, IsArithmetic, IsOrdered, ◌≼◌, nought, one, fle, fmax}
use quantamental_engine.Float.Order.{le-fmax_left, le-fmax_right, fmax_lub}
use quantamental_engine.Drawdown.{in_window, peak_of, compute_rolling_drawdown}

module _ {ℓ} {F : Type ℓ} ⦃f : Float F⦄ (now window_days : ℕ) where
  -- every equity of the window is at most `peak`
  abbrev pub Bounds : F → List (ℕ × F) → Type 0
  Bounds peak = All (λ e. in_window now window_days e.0 ≡ true → e.1 ≼ peak)

  module _ (laws : IsOrdered F) where
    open laws use {le_refl, le_trans}

    peak_of-ge :
        (series : List (ℕ × F)) (start p : F)
        → peak_of now window_days series start ≡ p
        → (start ≼ p) × Bounds p series
    unfolding peak_of
    peak_of-ge [] start p e = (rw e (le_refl p), tt)
    peak_of-ge ((ts, eq) ∷ series) start p e = elim (Bool-cases (in_window now window_days ts)) [
      | inl inside ↦
          let (up, rest) = peak_of-ge series (fmax start eq) p (rw inside at e) in
          (
            le_trans _ _ _ (le-fmax_left laws start eq) up,
            ((λ _. le_trans _ _ _ (le-fmax_right laws start eq) up), rest),
          )
      | inr outside ↦
          let (up, rest) = peak_of-ge series start p (rw outside at e) in
          (up, ((λ h. ground arith), rest))
    ]

    peak_of_lub :
        (bound : F) (series : List (ℕ × F)) (start : F)
        → start ≼ bound
        → Bounds bound series
        → peak_of now window_days series start ≼ bound
    unfolding peak_of
    peak_of_lub bound [] start h k = h
    peak_of_lub bound ((ts, eq) ∷ series) start h k =
        elim (Bool-cases (in_window now window_days ts)) [
          | inl inside ↦ rw inside (
              peak_of_lub bound series (fmax start eq) (fmax_lub laws start eq bound h (k.0 inside))
                k.1)
          | inr outside ↦ rw outside (peak_of_lub bound series start h k.1)
        ]

  -- While the current equity is not negative, the drawdown lies between 0 and 1, and the peak is the
  -- least upper bound of the current equity and of the equities in the window: the entries outside
  -- the window have no part in it.
  pub compute_rolling_drawdown_lem :
      (laws : IsArithmetic F) (series : List (ℕ × F)) (current : F)
      → nought ≼ current
      → let (dd, peak) = compute_rolling_drawdown series current window_days now in
        (nought ≼ dd)
        × (dd ≼ one)
        × (current ≼ peak)
        × Bounds peak series
        × ((bound : F) → current ≼ bound → Bounds bound series → peak ≼ bound)
  unfolding compute_rolling_drawdown
  compute_rolling_drawdown_lem laws series current h =
      let peak = peak_of now window_days series current in
      let (up, rest) = peak_of-ge laws.order series current peak refl in
      elim (Bool-cases (fle peak nought)) [
        | inl empty ↦
            let below =
              λ (e : ℕ × F) (k : in_window now window_days e.0 ≡ true → e.1 ≼ peak)
                  (inside : in_window now window_days e.0 ≡ true).
                laws.le_trans e.1 peak nought (k inside) empty in
            rw empty (
              laws.le_refl nought,
              laws.zero_le_one,
              laws.le_trans current peak nought up empty,
              All-map below series rest,
              λ bound k _. laws.le_trans nought current bound h k,
            )
        | inr some_equity ↦
            let ratio =
              laws.div-le_one (f.sub peak current) peak (laws.sub-le peak current h) some_equity in
            rw some_equity (
              le-fmax_right laws.order _ nought,
              fmax_lub laws.order _ nought one ratio laws.zero_le_one,
              up,
              rest,
              λ bound. peak_of_lub laws.order bound series current,
            )
      ]
