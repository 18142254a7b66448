-- ===== src/Drawdown/Recovery.antt =====
-- Runs of the drawdown states: how a block on new entries begins, how long it holds, and what ends it.
use quantamental_engine.Base.{
  List, [], ◌∷◌, ◌++◌, ◌∙◌, ap, ◌≡◌, ◌≢◌, refl, inl, inr, arith, Bool-cases,
}
use quantamental_engine.Float.{Float, IsOrdered, ◌≼◌, ◌≺◌, nought, one, fle, fmax}
use quantamental_engine.Float.Order.{le-fmax_left, le-fmax_right, fmax-eq, lt-of_lt-le, lt-of_le-lt}
use quantamental_engine.Drawdown.{
  DdState, ok, warning, limit, dd_state_from_drawdown, dd_state_with_recovery,
}

module _ {ℓ} {F : Type ℓ} ⦃f : Float F⦄ (warn_t limit_t recov_t : F) where
  -- The states that a series of drawdowns drives the machine through.
  unfoldable pub run : DdState → F → List F → DdState × F
  run state peak [] = (state, peak)
  run state peak (dd ∷ dds) =
      let (state', peak') = dd_state_with_recovery state dd peak warn_t limit_t recov_t in
      run state' peak' dds

  -- the highest of a peak and the drawdowns after it
  unfoldable pub highest : F → List F → F
  highest peak [] = peak
  highest peak (dd ∷ dds) = highest (fmax peak dd) dds

  -- What the episode peak tells of each state.
  abbrev pub Consistent : DdState → F → Type 0
  Consistent ok peak = peak ≼ nought
  Consistent warning peak = (warn_t ≼ peak) × (peak ≺ limit_t)
  Consistent limit peak = limit_t ≼ peak

  module _ (laws : IsOrdered F) where
    open laws use {le_refl, le_trans, le_total}

    step-Consistent :
        (state : DdState) (dd peak : F)
        → nought ≺ limit_t
        → Consistent state peak
        → let (state', peak') = dd_state_with_recovery state dd peak warn_t limit_t recov_t in
          Consistent state' peak'
    unfolding dd_state_with_recovery dd_state_from_drawdown
    step-Consistent ok dd peak h k = ground (
      arith,
      le_refl nought,
      le-fmax_right laws peak dd,
      le_trans warn_t dd (fmax peak dd),
      le_trans limit_t dd (fmax peak dd),
      fmax-eq laws peak dd,
      lt-of_le-lt laws peak nought limit_t k h,
    )
    step-Consistent warning dd peak h k = ground (
      arith,
      le_refl nought,
      le-fmax_right laws peak dd,
      le_trans warn_t dd (fmax peak dd),
      le_trans limit_t dd (fmax peak dd),
      fmax-eq laws peak dd,
    )
    step-Consistent limit dd peak h k = ground (
      arith,
      le_refl nought,
      le-fmax_left laws peak dd,
      le_trans limit_t peak (fmax peak dd) k,
      lt-of_lt-le laws nought limit_t (fmax peak dd) h,
    )

    held_block :
        (peak dd : F) (dds : List F)
        → nought ≺ fmax peak dd
        → f.mul (fmax peak dd) (f.sub one recov_t) ≺ dd
        → run limit peak (dd ∷ dds) ≡ run limit (fmax peak dd) dds
    unfolding run dd_state_with_recovery
    held_block peak dd dds h k = ground arith

    -- A run of drawdowns that starts at the limit with a positive episode peak and ends elsewhere has a
    -- first drawdown that had recovered: up to it the run stays at the limit, with the highest drawdown so
    -- far as its episode peak, and it is at most (1 - recovery threshold) of the higher of that peak and
    -- itself. Nothing else lifts the limit.
    pub release_recovered :
        (peak : F) (dds : List F)
        → nought ≺ peak
        → (run limit peak dds).0 ≢ limit
        → (before : List F) × (dd : F) × (after : List F) × (dds ≡ before ++ (dd ∷ after))
          × (run limit peak before ≡ (limit, highest peak before))
          × (dd ≼ f.mul (fmax (highest peak before) dd) (f.sub one recov_t))
    unfolding run highest
    release_recovered peak [] h k = absurd (k refl)
    release_recovered peak (dd ∷ dds) h k =
        let worst = fmax peak dd in
        let positive = lt-of_lt-le laws nought peak worst h (le-fmax_left laws peak dd) in
        elim (Bool-cases (fle dd (f.mul worst (f.sub one recov_t)))) [
          | inl recovered ↦ ([], dd, dds, refl, refl, recovered)
          | inr held ↦
              let (before, d, after, split, stays, recovered) =
                release_recovered worst dds positive
                  (rw (held_block peak dd dds positive held) at k) in
              (
                dd ∷ before,
                d,
                after,
                ap (λ ds. dd ∷ ds) split,
                held_block peak dd before positive held ∙ stays,
                recovered,
              )
        ]

    -- Along every run, the state agrees with the episode peak: no peak while ok, a peak from the warning
    -- threshold and below the limit while warning, and a peak from the limit threshold on at the limit,
    -- given that the run starts so and that the limit threshold is positive.
    pub run-Consistent :
        (state : DdState) (peak : F) (dds : List F)
        → nought ≺ limit_t
        → Consistent state peak
        → let (state', peak') = run state peak dds in Consistent state' peak'
    unfolding run
    run-Consistent state peak [] h k = k
    run-Consistent state peak (dd ∷ dds) h k =
        let (state', peak') = dd_state_with_recovery state dd peak warn_t limit_t recov_t in
        run-Consistent state' peak' dds h (step-Consistent state dd peak h k)

    -- Where the limit threshold is positive, a drawdown that has recovered from its peak and still
    -- is at or above the limit threshold is released for one evaluation only: a second evaluation
    -- of the same drawdown is at the limit again, with that drawdown as its episode peak.
    pub recovery_undone :
        (dd peak : F)
        → nought ≺ limit_t
        → limit_t ≼ dd
        → dd ≼ f.mul (fmax peak dd) (f.sub one recov_t)
        → (run limit peak (dd ∷ []) ≡ (ok, nought)) × (run limit peak (dd ∷ dd ∷ []) ≡ (limit, dd))
    unfolding run dd_state_with_recovery dd_state_from_drawdown
    recovery_undone dd peak h over recovered =
        let positive =
          lt-of_lt-le laws nought dd (fmax peak dd) (lt-of_lt-le laws nought limit_t dd h over)
            (le-fmax_right laws peak dd) in
        let above = lt-of_lt-le laws nought limit_t dd h over in ground arith
