-- ===== src/Risk/Calculator/Unblocked.antt =====
-- The check against the exchange's constraints cannot stop a position.
use quantamental_engine.Base.{
  String, Bool, true, false, some, Option, List, string_eq, ◌≡◌, arith, ◌∙◌, ap, sym,
}
use quantamental_engine.Float.{Float, feq}
use quantamental_engine.Gate.{Logged}
use quantamental_engine.Contract.{Decimals, ContractSpec, ValidationResult, validate_and_snap_size}
use quantamental_engine.Risk.Size.{Sizing, Desk, calculate_position_size}
use quantamental_engine.Risk.Calculator.{
  Request, side_for, output_of, output_with, wanted_size, after_validation, run_risk_calculator,
  equity_of,
}

module _ {ℓ} {F D : Type ℓ} ⦃f : Float F⦄ ⦃d : Float D⦄ (c : Decimals F D) where
  after_invalid :
      (size : F) (vr : ValidationResult D) → vr.valid ≡ false → after_validation c size vr ≡ size
  unfolding after_validation
  after_invalid size vr h = ground arith

  after_agreed :
      (size : F) (vr : ValidationResult D) (x : D)
      → vr.snapped_size ≡ some x
      → feq (c.to_float x) size ≡ true
      → after_validation c size vr ≡ size
  unfolding after_validation
  after_agreed size vr x e h = ground arith

  module _ (mean : List F → F) (desk : Desk F) (calc_id : String) (q : Request F)
      (log : Logged) where
    abbrev pub sizing_of : Sizing F
    sizing_of =
        (calculate_position_size mean desk calc_id q.ticker q.average q.sl_price (equity_of desk)
          (side_for q) log).0

    -- whether the contract check calls the size valid
    abbrev pub passes : Option (ContractSpec D) → Bool
    passes spec =
        (validate_and_snap_size c spec (wanted_size desk q sizing_of)
          sizing_of.est_fill_price).valid

    -- whether the contract check calls the size valid and hands it back as it is
    abbrev pub Agrees : Option (ContractSpec D) → Type ℓ
    Agrees spec =
        let wanted = wanted_size desk q sizing_of in
        let answer = validate_and_snap_size c spec wanted sizing_of.est_fill_price in
        (answer.valid ≡ true)
        × ((x : D) × (answer.snapped_size ≡ some x) × (feq (c.to_float x) wanted ≡ true))

    -- A size that the contract check calls invalid is treated as one that the check agrees with: the
    -- whole output, its eligibility included, and the log are those of any other spec by which the
    -- size is valid and already a multiple of the step.
    pub invalid_unblocked :
        (spec other : Option (ContractSpec D))
        → passes spec ≡ false
        → Agrees other
        → run_risk_calculator c mean desk spec calc_id q log
          ≡ run_risk_calculator c mean desk other calc_id q log
    unfolding run_risk_calculator output_of output_with
    invalid_unblocked spec other refused agreed =
        let wanted = wanted_size desk q sizing_of in
        let price = sizing_of.est_fill_price in
        let unchanged = after_invalid wanted (validate_and_snap_size c spec wanted price) refused in
        let (x, snapped, equal) = agreed.1 in
        let same =
          after_agreed wanted (validate_and_snap_size c other wanted price) x snapped equal in
        ap
          (λ size. (
            output_with desk q (side_for q) sizing_of size,
            (calculate_position_size mean desk calc_id q.ticker q.average q.sl_price
                (equity_of desk) (side_for q) log).1,
          ))
          (unchanged ∙ sym same)
