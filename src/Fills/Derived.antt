-- ===== src/Fills/Derived.antt =====
-- What the flags of a snapshot say of each other and of the position.
use quantamental_engine.Base.{
  String, true, false, ◌&&◌, ◌||◌, not, Option, some, List, if◌then◌else◌, or_else, ◌≡◌, ap, arith,
  Bool-cases, inl, inr,
}
use quantamental_engine.Float.{Float, IsOrdered, IsMonotone, ◌≺◌, nought, flt, fabs}
use quantamental_engine.Position.{Position}
use quantamental_engine.Fills.{
  StateFill, one_way, FillSnapshot, effect_of, compute_fill_snapshot, snapshot_and_fix_isclose,
  mode_of, net_quantity, position_of, reads_as, quantity_after,
}

module _ {ℓ} {F : Type ℓ} ⦃f : Float F⦄ where
  -- a fill opens or closes, and what is a partial close does close, and does not open
  abbrev pub IsCoherent : FillSnapshot F → Type 0
  IsCoherent s =
      (s.is_open || s.is_close ≡ true)
      × (s.is_partial_close && (s.is_open || not s.is_close) ≡ false)

  module _ (order : IsOrdered F) where
    open order use {le_total}

    one_sign : (x : F) → (flt nought x && flt x nought) ≡ false
    one_sign x = elim (le_total nought x) [
      | inl up ↦ ground (arith, up)
      | inr down ↦ ground (arith, down)
    ]

    effect_of_coherent :
        (before after : F) (side : Option String)
        → let (is_open, is_close, is_partial) = effect_of before after side in
          (is_open || is_close ≡ true) × (is_partial && (is_open || not is_close) ≡ false)
    unfolding effect_of
    effect_of_coherent before after side = ground (arith, one_sign (f.mul before after))

  module _ (laws : IsMonotone F) where
    open laws use {order, neg_below}

    long_closes :
        (before after : F) (side : Option String)
        → nought ≺ before
        → (effect_of before after side).1 ≡ reads_as side "sell"
    unfolding effect_of
    long_closes before after side h = ground (arith, h, one_sign order before)

    short_closes :
        (before after : F) (side : Option String)
        → before ≺ nought
        → (effect_of before after side).1 ≡ reads_as side "buy"
    unfolding effect_of
    short_closes before after side h = ground (arith, h, one_sign order before)

    effect_closes :
        (p : Position F) (after : F) (side : Option String)
        → nought ≺ fabs p.contract_amount
        → (effect_of (net_quantity (some p)) after side).1
          ≡ reads_as side (if reads_as (some p.direction) "short" then "buy" else "sell")
    effect_closes p after side held = elim (Bool-cases (reads_as (some p.direction) "short")) [
      | inl short ↦ rw short (
          short_closes (f.neg (fabs p.contract_amount)) after side
            (neg_below (fabs p.contract_amount) held))
      | inr long ↦ rw long (long_closes (fabs p.contract_amount) after side held)
    ]

    -- In one-way mode, a fill that meets a position which is not empty is corrected to close exactly if its
    -- side works against the position: a buy against a short one, a sell against any other. The snapshot
    -- says the same; the fill opens or closes, and a partial close closes and does not open.
    pub snapshot_and_fix_isclose_lem :
        (fill : StateFill F) (positions : List (Position F)) (p : Position F)
        → mode_of fill.direction ≡ one_way
        → position_of (or_else fill.symbol "") positions ≡ some p
        → nought ≺ fabs p.contract_amount
        → let (fixed_fill, snapshot) = snapshot_and_fix_isclose fill positions in
          let against =
            reads_as fill.side (if reads_as (some p.direction) "short" then "buy" else "sell") in
          (fixed_fill.is_close ≡ some against) × (snapshot.is_close ≡ against) × IsCoherent snapshot
    unfolding snapshot_and_fix_isclose compute_fill_snapshot
    snapshot_and_fix_isclose_lem fill positions p mode_ found held =
        let before = net_quantity (some p) in
        let after = quantity_after before fill.side (fabs (or_else fill.quantity nought)) in
        let closes = effect_closes p after fill.side held in
        rw (mode_, found) (ap some closes, closes, effect_of_coherent order before after fill.side)
