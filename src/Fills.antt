-- ===== src/Fills.antt =====
-- core/position_snapshot.py, compute_fill_snapshot: what a fill does to the position that it meets, and
-- OrderManager._snapshot_and_fix_isclose of core/order_manager.py, which corrects the fill by it. Sides
-- and directions are of ASCII. An error there is taken not to arise.
pub mod Derived
mod Tests
use quantamental_engine.Base.{
  ℕ, String, Bool, true, false, ◌&&◌, ◌||◌, not, Option, none, some, List, [], ◌∷◌, ◌==◌, nat_eq,
  string_eq, if◌then◌else◌, or_else, find,
}
use quantamental_engine.Float.{Float, nought, flt, feq, fabs}
use quantamental_engine.Gate.{lower_in}
use quantamental_engine.Position.{Position}

-- the keys of the fill that are read
pub record StateFill {ℓ} (F : Type ℓ) : Type ℓ where
  pub exchange_fill_id : Option String
  pub symbol : Option String
  pub side : Option String
  pub quantity : Option F
  pub direction : Option String
  pub position_side : Option String
  pub is_close : Option Bool
  pub timestamp_ms : Option ℕ

pub data Mode : Type 0 where
  one_way hedge : Mode

pub record FillSnapshot {ℓ} (F : Type ℓ) : Type ℓ where
  pub fill_id : String
  pub symbol : String
  pub mode : Mode
  pub position_side : Option String
  pub qty_before : F
  pub qty_after : F
  pub is_open : Bool
  pub is_close : Bool
  pub is_partial_close : Bool
  pub timestamp_ms : ℕ

-- `(text or "").upper() == word`, the word in lower case
abbrev pub reads_as : Option String → String → Bool
reads_as text word = lower_in (or_else text "") (word ∷ [])

abbrev pub mode_of : Option String → Mode
mode_of none = one_way
mode_of (some d) = if d == "" || d == "BOTH" then one_way else hedge

module _ {ℓ} {F : Type ℓ} ⦃f : Float F⦄ where
  abbrev pub position_of : String → List (Position F) → Option (Position F)
  position_of symbol positions = find (λ p. p.ticker == symbol) positions

  abbrev pub amount_of : Option (Position F) → F
  amount_of none = nought
  amount_of (some p) = p.contract_amount

  -- long is positive, short is negative
  abbrev pub net_quantity : Option (Position F) → F
  net_quantity none = nought
  net_quantity (some p) =
      if reads_as (some p.direction) "short"
      then f.neg (fabs p.contract_amount)
      else fabs p.contract_amount

  abbrev pub quantity_after : F → Option String → F → F
  quantity_after before side quantity =
      if reads_as side "buy"
      then f.add before quantity
      else if reads_as side "sell"
      then f.sub before quantity
      else before

  -- the fill works against the position
  abbrev pub reduces : F → Option String → Bool
  reduces before side =
      (flt nought before && reads_as side "sell") || (flt before nought && reads_as side "buy")

  -- (is_open, is_close, is_partial)
  unfoldable pub effect_of : F → F → Option String → Bool × Bool × Bool
  effect_of before after side =
      if feq before nought
      then (true, false, false)
      else if reduces before side
      then (
        flt (f.mul before after) nought,
        true,
        flt nought (fabs after) && flt nought (f.mul before after),
      )
      else (true, false, false)

  unfoldable pub compute_fill_snapshot : StateFill F → List (Position F) → Mode → FillSnapshot F
  unfolding effect_of
  compute_fill_snapshot fill positions hedge =
      let symbol = or_else fill.symbol "" in
      let before = amount_of (position_of symbol positions) in
      let closes = or_else fill.is_close false in
      record {
        fill_id = or_else fill.exchange_fill_id "";
        symbol = symbol;
        mode = hedge;
        position_side = some (or_else fill.direction (or_else fill.position_side ""));
        qty_before = before;
        qty_after = before;
        is_open = not closes;
        is_close = closes;
        is_partial_close = false;
        timestamp_ms = or_else fill.timestamp_ms 0;
      }
  compute_fill_snapshot fill positions one_way =
      let symbol = or_else fill.symbol "" in
      let before = net_quantity (position_of symbol positions) in
      let after = quantity_after before fill.side (fabs (or_else fill.quantity nought)) in
      let (is_open, is_close, is_partial) = effect_of before after fill.side in
      record {
        fill_id = or_else fill.exchange_fill_id "";
        symbol = symbol;
        mode = one_way;
        position_side = none;
        qty_before = before;
        qty_after = after;
        is_open = is_open;
        is_close = is_close;
        is_partial_close = is_partial;
        timestamp_ms = or_else fill.timestamp_ms 0;
      }

  -- the corrected fill, and the snapshot that is stored
  unfoldable pub snapshot_and_fix_isclose :
      StateFill F → List (Position F) → StateFill F × FillSnapshot F
  unfolding compute_fill_snapshot
  snapshot_and_fix_isclose fill positions =
      let snapshot = compute_fill_snapshot fill positions (mode_of fill.direction) in
      (record fill { is_close = some snapshot.is_close }, snapshot)
