-- ===== src/Risk/Book.antt =====
-- core/risk_engine.py: the walk through a side of the order book, slippage, and depth. A level is a
-- pair of price and quantity.
pub mod Walking
use quantamental_engine.Base.{
  ℕ, ◌+◌, ◌-◌, ◌≤◌, String, Bool, true, false, ◌&&◌, ◌||◌, not, Option, none, some, List, [], ◌∷◌,
  ◌==◌, string_eq, contains, if◌then◌else◌, or_else, ltb, leb, length, is_empty, filter, map, zero,
  suc, drop,
}
use quantamental_engine.Float.{Float, nought, one, fle, flt, feq, fmax, fmin, fabs, truthy}
use quantamental_engine.Gate.{Reading, Logged, Reason, evaluate, lower_in}
use quantamental_engine.Contract.{Decimals, ContractSpec, ValidationResult, validate_and_snap_size}
use quantamental_engine.Position.{Position}
use quantamental_engine.Portfolio.{sector_net, sum}

pub record OrderBook {ℓ} (F : Type ℓ) : Type ℓ where
  pub asks : List (F × F)
  pub bids : List (F × F)

-- what the walk carries: `remaining_usdt`, `total_cost`, `total_qty`
pub record Walk {ℓ} (F : Type ℓ) : Type ℓ where
  pub remaining : F
  pub total_cost : F
  pub total_qty : F

module _ {ℓ} {F : Type ℓ} ⦃f : Float F⦄ where
  abbrev pub is_valid_level : F × F → Bool
  is_valid_level (price, qty) = flt nought price && flt nought qty

  -- one level taken
  abbrev pub fill_level : F × F → Walk F → Walk F
  fill_level (price, qty) w =
      let fill_usdt = fmin w.remaining (f.mul price qty) in
      record {
        remaining = f.sub w.remaining fill_usdt;
        total_cost = f.add w.total_cost fill_usdt;
        total_qty = f.add w.total_qty (f.div fill_usdt price);
      }

  unfoldable pub walk : List (F × F) → Walk F → Walk F
  walk [] w = w
  walk (level ∷ levels) w =
      let w' = fill_level level w in
      elim (is_valid_level level) [
        | false ↦ walk levels w
        | true ↦ elim (fle w'.remaining nought) [ true ↦ w' | false ↦ walk levels w' ]
      ]

  abbrev pub side_of : String → OrderBook F → List (F × F)
  side_of side ob = if side == "long" then ob.asks else ob.bids

  abbrev pub new_walk : F → Walk F
  new_walk notional_usdt = record {
    remaining = notional_usdt;
    total_cost = nought;
    total_qty = nought;
  }

  -- the price of a finished walk
  abbrev pub fill_price : F → Walk F → F
  fill_price entry_price w =
      if feq w.total_qty nought then entry_price else f.div w.total_cost w.total_qty

  -- for a side of the book; an empty one, as a book that is missing, gives the entry price
  unfoldable pub estimate_vwap_fill : List (F × F) → F → F → F
  unfolding walk
  estimate_vwap_fill [] notional_usdt entry_price = entry_price
  estimate_vwap_fill (l ∷ ls) notional_usdt entry_price =
      fill_price entry_price (walk (l ∷ ls) (new_walk notional_usdt))

  -- (est_slippage, est_fill_price) on a side of the book
  unfoldable pub slippage_on : List (F × F) → String → F → F → F × F
  unfolding estimate_vwap_fill
  slippage_on [] side notional_usdt entry_price = (nought, entry_price)
  slippage_on ((best_price, qty) ∷ ls) side notional_usdt entry_price =
      let est_fill_price = estimate_vwap_fill ((best_price, qty) ∷ ls) notional_usdt entry_price in
      let moved =
        if side == "long"
        then f.sub est_fill_price best_price
        else f.sub best_price est_fill_price in
      if fle best_price nought
      then (nought, entry_price)
      else (fmax nought (f.div moved best_price), est_fill_price)

  unfoldable pub calculate_slippage : Option (OrderBook F) → String → F → F → F × F
  unfolding slippage_on
  calculate_slippage none side notional_usdt entry_price = (nought, entry_price)
  calculate_slippage (some ob) side notional_usdt entry_price =
      if fle entry_price nought
      then (nought, entry_price)
      else slippage_on (side_of side ob) side notional_usdt entry_price

  unfoldable pub add_depth : F → F → List (F × F) → F → F
  add_depth lo hi [] depth = depth
  add_depth lo hi ((price, qty) ∷ ls) depth =
      add_depth lo hi ls
        (if fle lo price && fle price hi then f.add depth (f.mul price qty) else depth)

  unfoldable pub calculate_one_percent_depth : Option (OrderBook F) → F → F
  unfolding add_depth
  calculate_one_percent_depth none entry_price = nought
  calculate_one_percent_depth (some ob) entry_price =
      let lo = f.mul entry_price (f.lit 99 2) in
      let hi = f.mul entry_price (f.lit 101 2) in
      if fle entry_price nought
      then nought
      else add_depth lo hi ob.bids (add_depth lo hi ob.asks nought)
