-- ===== src/Contract.antt =====
-- core/contract_validation.py: the constraints of an exchange on the size of an order, the cache that
-- holds them, and the check that snaps a size down to the lot step. Python's `Decimal` is a second type
-- with the interface `Float`; what the check uses of it besides is the record `Decimals`. Times are
-- milliseconds, and the text of a reason is data.
pub mod Specs
pub mod Snap
pub mod Fixed
pub mod Tests
use quantamental_engine.Base.{
  ℕ, ◌+◌, ◌-◌, ◌*◌, ◌<◌, String, Bool, true, false, ◌&&◌, Option, none, some, List, [], ◌∷◌, ◌==◌,
  string_eq, if◌then◌else◌, or_else, ltb, length, ◌≡◌,
}
use quantamental_engine.Float.{Float, nought, one, flt, truthy, ◌≼◌, ◌≺◌}

-- `Decimal(str(x))` (`none` where it raises), `float(d)`, and `a // b`, which drops the fraction.
pub record Decimals {ℓ} (F D : Type ℓ) : Type ℓ where
  pub of_float : F → Option D
  pub to_float : D → F
  pub int_div : D → D → D

-- What the check relies on: the whole part of a quotient of non-negative numbers, times the divisor, is
-- at most the dividend, and one more would be above it.
pub record IsDecimal {ℓ} {F D : Type ℓ} ⦃d : Float D⦄ (c : Decimals F D) : Type ℓ where
  pub int_div-le : (a b : D) → nought ≼ a → nought ≺ b → d.mul (c.int_div a b) b ≼ a
  pub int_div-lt : (a b : D) → nought ≼ a → nought ≺ b → a ≺ d.mul (d.add (c.int_div a b) one) b

pub record ContractSpec {ℓ} (D : Type ℓ) : Type ℓ where
  pub symbol : String
  pub tick_size : D
  pub lot_step : D
  pub min_qty : D
  pub min_notional : D
  pub fetched_at : ℕ

-- a precision as the market gives it: decimal places, or the step itself
pub data Precision {ℓ} (F : Type ℓ) : Type ℓ where
  places : ℕ → Precision F
  step : F → Precision F

-- the entries of `markets[symbol]` that are read
pub record Market {ℓ} (F : Type ℓ) : Type ℓ where
  pub amount_precision : Option (Precision F)
  pub price_precision : Option (Precision F)
  pub min_amount : Option F
  pub min_cost : Option F

pub record ValidationResult {ℓ} (D : Type ℓ) : Type ℓ where
  pub valid : Bool
  pub snapped_size : Option D
  pub original_size : D
  pub reason : Option String
  pub suggested_size : Option D

-- the dictionary of specs
abbrev pub SpecCache {ℓ} : Type ℓ → Type ℓ
SpecCache D = List (String × ContractSpec D)

abbrev pub spec_ttl_ms : ℕ
spec_ttl_ms = 14400 * 1000

module _ {ℓ} {D : Type ℓ} where
  abbrev pub get_spec : String → SpecCache D → Option (ContractSpec D)
  get_spec symbol [] = none
  get_spec symbol ((k, s) ∷ cache) =
      let rest = get_spec symbol cache in if k == symbol then some s else rest

  abbrev pub set_spec : String → ContractSpec D → SpecCache D → SpecCache D
  set_spec symbol spec [] = (symbol, spec) ∷ []
  set_spec symbol spec ((k, s) ∷ cache) =
      let rest = set_spec symbol spec cache in
      if k == symbol then (k, spec) ∷ cache else (k, s) ∷ rest

  abbrev pub is_fresh_spec : ℕ → ContractSpec D → Bool
  is_fresh_spec now s = ltb (now - s.fetched_at) spec_ttl_ms

  abbrev pub keep_spec : String → Option (ContractSpec D) → SpecCache D → SpecCache D
  keep_spec symbol none cache = cache
  keep_spec symbol (some s) cache = set_spec symbol s cache

  abbrev pub fetched :
      (String → Option (ContractSpec D))
      → String
      → SpecCache D
      → Option (ContractSpec D) × SpecCache D
  fetched fetch symbol cache = (fetch symbol, keep_spec symbol (fetch symbol) cache)

  -- `fetch` is `_fetch_spec_from_adapter`. The clock does not go back, so that the truncated difference
  -- is the age.
  unfoldable pub get_contract_spec :
      (String → Option (ContractSpec D))
      → ℕ
      → String
      → SpecCache D
      → Option (ContractSpec D) × SpecCache D
  get_contract_spec fetch now symbol cache = elim (get_spec symbol cache) [
    | none ↦ fetched fetch symbol cache
    | some s ↦ if is_fresh_spec now s then (some s, cache) else fetched fetch symbol cache
  ]

  unfoldable pub force_refresh_specs : SpecCache D → ℕ × SpecCache D
  force_refresh_specs cache = (length cache, [])

  unfoldable pub inject_spec : String → ContractSpec D → SpecCache D → SpecCache D
  inject_spec symbol spec cache = set_spec symbol spec cache

  unfoldable pub clear_cache : SpecCache D → SpecCache D
  clear_cache cache = []

module _ {ℓ} {F D : Type ℓ} ⦃f : Float F⦄ ⦃d : Float D⦄ (c : Decimals F D) where
  -- `Decimal(10) ** -n`, or the decimal of the step
  abbrev pub precision_step : Precision F → Option D
  precision_step (places n) = some (d.lit 1 n)
  precision_step (step x) = c.of_float x

  -- `Decimal(str(x or 0))`
  abbrev pub minimum : Option F → Option D
  minimum none = some nought
  minimum (some x) = if truthy x then c.of_float x else some nought

  -- `none` where the code returns None: no such market, or a number that is no decimal.
  unfoldable pub fetch_spec_from_adapter :
      (String → Option (Market F)) → ℕ → String → Option (ContractSpec D)
  fetch_spec_from_adapter markets now symbol = elim (markets symbol) [
    | none ↦ none
    | some m ↦ elim (precision_step (or_else m.amount_precision (places 8))) [
      | none ↦ none
      | some lot ↦ elim (precision_step (or_else m.price_precision (places 8))) [
        | none ↦ none
        | some tick ↦ elim (minimum m.min_amount) [
          | none ↦ none
          | some qty ↦ elim (minimum m.min_cost) [
            | none ↦ none
            | some cost ↦ some (record {
              symbol = symbol;
              tick_size = tick;
              lot_step = lot;
              min_qty = qty;
              min_notional = cost;
              fetched_at = now;
            })
          ]
        ]
      ]
    ]
  ]

  abbrev pub snap : ContractSpec D → D → D
  snap spec size =
      if flt nought spec.lot_step then d.mul (c.int_div size spec.lot_step) spec.lot_step else size

  -- a size that meets the minimum notional, up to the lot step
  abbrev pub suggested_for_notional : ContractSpec D → D → D
  suggested_for_notional spec price =
      if flt nought price && flt nought spec.lot_step
      then d.mul (d.add (c.int_div (d.div spec.min_notional price) spec.lot_step) one) spec.lot_step
      else spec.min_qty

  -- the checks once the numbers are decimals and the spec is there
  unfoldable pub check_size : ContractSpec D → D → D → ValidationResult D
  check_size spec size price =
      let snapped = snap spec size in
      if flt nought spec.min_qty && flt snapped spec.min_qty
      then record {
        valid = false;
        snapped_size = some snapped;
        original_size = size;
        reason = some "below_min_qty";
        suggested_size = some spec.min_qty;
      }
      else if flt nought spec.min_notional && flt (d.mul snapped price) spec.min_notional
      then record {
        valid = false;
        snapped_size = some snapped;
        original_size = size;
        reason = some "below_min_notional";
        suggested_size = some (suggested_for_notional spec price);
      }
      else record {
        valid = true;
        snapped_size = some snapped;
        original_size = size;
        reason = none;
        suggested_size = none;
      }

  abbrev pub rejected : D → String → ValidationResult D
  rejected size reason = record {
    valid = false;
    snapped_size = none;
    original_size = size;
    reason = some reason;
    suggested_size = none;
  }

  -- by the spec and the two decimals
  unfoldable pub check_decimals : Option (ContractSpec D) → Option D → Option D → ValidationResult D
  unfolding check_size
  check_decimals spec none price = rejected nought "invalid_numeric_input"
  check_decimals spec (some size) none = rejected nought "invalid_numeric_input"
  check_decimals none (some size) (some price) = rejected size "exchange_info_unavailable"
  check_decimals (some spec) (some size) (some price) = check_size spec size price

  -- `spec` is what `get_contract_spec` gives; it is asked only once the numbers are decimals.
  unfoldable pub validate_and_snap_size : Option (ContractSpec D) → F → F → ValidationResult D
  unfolding check_decimals
  validate_and_snap_size spec size price = check_decimals spec (c.of_float size) (c.of_float price)
