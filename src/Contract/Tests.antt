-- ===== src/Contract/Tests.antt =====
-- The check of a size and the cache of specs at concrete inputs, in thousandths.
use quantamental_engine.Base.{String, Option, some, ◌≡◌, refl, arith}
use quantamental_engine.Base.Int.{ℤ, pos, quot, ◌*ℤ◌, ◌+ℤ◌}
use quantamental_engine.Float.Fixed.{fixed, literal, times, divide}
use quantamental_engine.Contract.{ContractSpec, validate_and_snap_size}
use quantamental_engine.Contract.Fixed.{decimals, decimals-IsDecimal, whole_div}
use quantamental_engine.Contract.Snap.{IsSendable, validate_and_snap_size_lem}

-- lots of 0.1, at least 0.2, worth at least 5
abbrev pub lots : ContractSpec ℤ
lots = record {
  symbol = "SOLUSDT";
  tick_size = pos 10;
  lot_step = pos 100;
  min_qty = pos 200;
  min_notional = pos 5000;
  fetched_at = 1000;
}

snapped :
    (validate_and_snap_size decimals (some lots) (pos 1250) (pos 10000)).snapped_size
    ≡ some (pos 1200)
unfolding validate_and_snap_size whole_div literal times divide quot ◌*ℤ◌ ◌+ℤ◌
snapped = refl

too_small :
    (validate_and_snap_size decimals (some lots) (pos 150) (pos 10000)).suggested_size
    ≡ some (pos 200)
unfolding validate_and_snap_size whole_div literal times divide quot ◌*ℤ◌ ◌+ℤ◌
too_small = refl

too_cheap :
    (validate_and_snap_size decimals (some lots) (pos 250) (pos 10000)).suggested_size
    ≡ some (pos 600)
unfolding validate_and_snap_size whole_div literal times divide quot ◌*ℤ◌ ◌+ℤ◌
too_cheap = refl

validate_and_snap_size_lem_example :
    (s : ContractSpec ℤ) × (x : ℤ) × (y : ℤ) × (q : ℤ) × (some lots ≡ some s)
    × (some (pos 1250) ≡ some x)
    × (some (pos 10000) ≡ some y)
    × ((validate_and_snap_size decimals (some lots) (pos 1250) (pos 10000)).snapped_size ≡ some q)
    × IsSendable decimals s x y q
unfolding validate_and_snap_size whole_div literal times divide quot ◌*ℤ◌ ◌+ℤ◌
validate_and_snap_size_lem_example =
    validate_and_snap_size_lem decimals decimals-IsDecimal (some lots) (pos 1250) (pos 10000)
      (λ x h. ground arith) refl

abbrev adapter : String → Option (ContractSpec ℤ)
adapter symbol = some (record lots { fetched_at = 20000000 })
