-- ===== src/Fills/Tests.antt =====
-- A buy that meets a short position, in thousandths.
use quantamental_engine.Base.{true, false, none, some, [], ◌∷◌, string_eq, ◌≡◌, refl}
use quantamental_engine.Base.Int.{ℤ, pos, negsuc, quot, ◌*ℤ◌, ◌-ℤ◌, ◌+ℤ◌}
use quantamental_engine.Float.Fixed.{fixed, fixed-IsMonotone, literal, times}
use quantamental_engine.Position.{Position, fresh}
use quantamental_engine.Fills.{
  StateFill, one_way, compute_fill_snapshot, snapshot_and_fix_isclose, effect_of,
}
use quantamental_engine.Fills.Derived.{IsCoherent, snapshot_and_fix_isclose_lem}

abbrev short_position : Position ℤ
short_position = record fresh {
  ticker = "SOLUSDT";
  direction = "SHORT";
  contract_amount = pos 3000;
}

abbrev buy : ℤ → StateFill ℤ
buy quantity = record {
  exchange_fill_id = some "F9";
  symbol = some "SOLUSDT";
  side = some "buy";
  quantity = some quantity;
  direction = some "BOTH";
  position_side = none;
  is_close = some false;
  timestamp_ms = some 5;
}

partly_closed : compute_fill_snapshot (buy (pos 1000)) (short_position ∷ []) one_way ≡ record {
  fill_id = "F9";
  symbol = "SOLUSDT";
  mode = one_way;
  position_side = none;
  qty_before = negsuc 2999;
  qty_after = negsuc 1999;
  is_open = false;
  is_close = true;
  is_partial_close = true;
  timestamp_ms = 5;
}
unfolding compute_fill_snapshot fresh literal times quot ◌*ℤ◌ ◌-ℤ◌ ◌+ℤ◌ effect_of
partly_closed = refl

-- more than the position holds: it is closed and opened the other way
turned : (compute_fill_snapshot (buy (pos 5000)) (short_position ∷ []) one_way).is_open ≡ true
unfolding compute_fill_snapshot fresh literal times quot ◌*ℤ◌ ◌-ℤ◌ ◌+ℤ◌ effect_of
turned = refl

snapshot_and_fix_isclose_lem_example :
    ((snapshot_and_fix_isclose (buy (pos 1000)) (short_position ∷ [])).0.is_close ≡ some true)
    × ((snapshot_and_fix_isclose (buy (pos 1000)) (short_position ∷ [])).1.is_close ≡ true)
    × IsCoherent (snapshot_and_fix_isclose (buy (pos 1000)) (short_position ∷ [])).1
unfolding literal ◌-ℤ◌ fresh
snapshot_and_fix_isclose_lem_example =
    snapshot_and_fix_isclose_lem fixed-IsMonotone (buy (pos 1000)) (short_position ∷ [])
      short_position refl refl refl
