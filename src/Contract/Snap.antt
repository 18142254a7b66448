-- ===== src/Contract/Snap.antt =====
-- A size that passes the check is safe to send.
use quantamental_engine.Base.{true, Option, none, some, ◌≡◌, refl, arith, ◌⊎◌, no_both}
use quantamental_engine.Float.{Float, nought, one, ◌≼◌, ◌≺◌}
use quantamental_engine.Contract.{
  Decimals, IsDecimal, ContractSpec, ValidationResult, validate_and_snap_size, check_size,
  check_decimals, snap, suggested_for_notional,
}

module _ {ℓ} {F D : Type ℓ} ⦃f : Float F⦄ ⦃d : Float D⦄ (c : Decimals F D) where
  -- q is a size that the exchange takes for the wanted size: no larger, less than a lot step below it, a
  -- whole number of lot steps, and at or above both minima that the spec has.
  abbrev pub IsSendable : ContractSpec D → D → D → D → Type ℓ
  IsSendable spec size price q =
      (nought ≺ spec.lot_step
        → (q ≡ d.mul (c.int_div size spec.lot_step) spec.lot_step)
          × (q ≼ size)
          × (size ≺ d.mul (d.add (c.int_div size spec.lot_step) one) spec.lot_step))
      × (spec.lot_step ≼ nought → q ≡ size)
      × (nought ≺ spec.min_qty → spec.min_qty ≼ q)
      × (nought ≺ spec.min_notional → spec.min_notional ≼ d.mul q price)

  module _ (laws : IsDecimal c) (spec : ContractSpec D) (size price : D) where
    open laws use {int_div-le, int_div-lt}

    check_size-IsSendable :
        (q : D)
        → nought ≼ size
        → (check_size c spec size price).valid ≡ true
        → (check_size c spec size price).snapped_size ≡ some q
        → IsSendable spec size price q
    unfolding check_size
    check_size-IsSendable q p v s =
        ground (arith, int_div-le size spec.lot_step, int_div-lt size spec.lot_step)

    -- What a suggestion is: the minimum quantity, or for want of notional a whole number of lot steps
    -- that is above the quotient of the minimum notional by the price.
    abbrev pub IsSuggestion : ValidationResult D → D → Type ℓ
    IsSuggestion r s =
        ((r.reason ≡ some "below_min_qty") × (s ≡ spec.min_qty))
        ⊎ ((r.reason ≡ some "below_min_notional")
            × (nought ≺ price
                → nought ≺ spec.lot_step
                → (s ≡ suggested_for_notional c spec price) × (d.div spec.min_notional price ≺ s)))

    check_size-IsSuggestion :
        (s : D)
        → nought ≼ d.div spec.min_notional price
        → (check_size c spec size price).suggested_size ≡ some s
        → IsSuggestion (check_size c spec size price) s
    unfolding check_size
    check_size-IsSuggestion s p h =
        ground (arith, int_div-lt (d.div spec.min_notional price) spec.lot_step)

  check_size-snapped :
      (spec : ContractSpec D) (size price : D)
      → (check_size c spec size price).snapped_size ≡ some (snap c spec size)
  unfolding check_size
  check_size-snapped spec size price = ground arith

  check_decimals-IsSendable :
      (laws : IsDecimal c) (spec : Option (ContractSpec D)) (size price : Option D)
      → ((x : D) → size ≡ some x → nought ≼ x)
      → (check_decimals c spec size price).valid ≡ true
      → (s : ContractSpec D) × (x : D) × (y : D) × (q : D) × (spec ≡ some s)
        × (size ≡ some x)
        × (price ≡ some y)
        × ((check_decimals c spec size price).snapped_size ≡ some q)
        × IsSendable s x y q
  unfolding check_decimals
  check_decimals-IsSendable laws spec none price p h = absurd (no_both h refl)
  check_decimals-IsSendable laws spec (some x) none p h = absurd (no_both h refl)
  check_decimals-IsSendable laws none (some x) (some y) p h = absurd (no_both h refl)
  check_decimals-IsSendable laws (some s) (some x) (some y) p h =
      let q = snap c s x in
      let snapped = check_size-snapped s x y in
      (
        s,
        x,
        y,
        q,
        refl,
        refl,
        refl,
        snapped,
        check_size-IsSendable laws s x y q (p x refl) h snapped,
      )

  -- A size that the check calls valid comes with a snapped size, both numbers are decimals and there is a
  -- spec, and the exchange can take the snapped size: for a lot step above zero it is the largest whole
  -- number of steps not above the wanted size, and otherwise the size itself; and it meets each minimum
  -- above zero. The wanted size is not negative.
  pub validate_and_snap_size_lem :
      (laws : IsDecimal c) (spec : Option (ContractSpec D)) (size price : F)
      → ((x : D) → c.of_float size ≡ some x → nought ≼ x)
      → (validate_and_snap_size c spec size price).valid ≡ true
      → (s : ContractSpec D) × (x : D) × (y : D) × (q : D) × (spec ≡ some s)
        × (c.of_float size ≡ some x)
        × (c.of_float price ≡ some y)
        × ((validate_and_snap_size c spec size price).snapped_size ≡ some q)
        × IsSendable s x y q
  unfolding validate_and_snap_size
  validate_and_snap_size_lem laws spec size price =
      check_decimals-IsSendable laws spec (c.of_float size) (c.of_float price)
