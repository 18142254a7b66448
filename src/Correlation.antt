-- ===== src/Correlation.antt =====
-- core/calc_correlation.py, correlate_order_to_calc: the calculation of the log that an entry order
-- came from. The log and the orders table are lists of rows of the database that the order's account
-- resolves to. The first of the two queries has no effect, since the second replaces its rows.
pub mod Sorting
pub mod Latest
pub mod Tests
use Prim.Native.Char.{code}
use quantamental_engine.Base.{
  ℕ, ◌+◌, String, Bool, true, false, ◌&&◌, ◌||◌, not, Option, none, some, List, [], ◌∷◌, ◌==◌,
  string_eq, if◌then◌else◌, or_else, leb, filter, any,
}
use quantamental_engine.Base.Text.{codes, codes_le, text_le}
use quantamental_engine.Float.{Float, fle, fabs, truthy}
use quantamental_engine.Orders.Row.{Order}
use quantamental_engine.Orders.Store.{lower_codes}

-- the columns of `pre_trade_log` that are read
pub record LogRow {ℓ} (F : Type ℓ) : Type ℓ where
  pub account_id : ℕ
  pub calc_id : Option String
  pub ticker : String
  pub side : String
  pub effective_entry : F
  pub tp_price : F
  pub sl_price : F
  pub timestamp : String

-- the keys of the order that are read
pub record EntryOrder {ℓ} (F : Type ℓ) : Type ℓ where
  pub order_type : Option String
  pub price : Option F
  pub tp_trigger_price : Option F
  pub sl_trigger_price : Option F
  pub symbol : String
  pub side : String

-- `(order_type or "").lower() == "market"`, for letters of ASCII
abbrev pub is_market : Option String → Bool
is_market none = false
is_market (some t) =
    codes_le (lower_codes t) (codes "market") && codes_le (codes "market") (lower_codes t)

-- The prices to match; a market order has no entry.
pub record Legs {ℓ} (F : Type ℓ) : Type ℓ where
  pub entry : Option F
  pub tp : F
  pub sl : F

module _ {ℓ} {F : Type ℓ} where
  abbrev pub has_calc_id : String → Order F → Bool
  has_calc_id calc_id order = elim order.calc_id [ none ↦ false | some c ↦ c == calc_id ]

  -- `ORDER BY timestamp DESC`; rows of one time keep their order
  unfoldable pub insert_latest : LogRow F → List (LogRow F) → List (LogRow F)
  insert_latest r [] = r ∷ []
  insert_latest r (x ∷ xs) =
      let rest = insert_latest r xs in
      if text_le x.timestamp r.timestamp then r ∷ x ∷ xs else x ∷ rest

  unfoldable pub by_latest : List (LogRow F) → List (LogRow F)
  unfolding insert_latest
  by_latest [] = []
  by_latest (r ∷ rs) = insert_latest r (by_latest rs)

module _ {ℓ} {F : Type ℓ} ⦃f : Float F⦄ where
  -- a price that is there and not zero
  abbrev pub given : Option F → Option F
  given none = none
  given (some p) = if truthy p then some p else none

  abbrev pub limit_legs : Option F → Option F → Option F → Option (Legs F)
  limit_legs (some e) (some tp) (some sl) = some (record { entry = some e; tp = tp; sl = sl })
  limit_legs _ _ _ = none

  abbrev pub market_legs : Option F → Option F → Option (Legs F)
  market_legs (some tp) (some sl) = some (record { entry = none; tp = tp; sl = sl })
  market_legs _ _ = none

  -- the early returns
  unfoldable pub wanted : EntryOrder F → Option (Legs F)
  wanted o =
      let tp = given o.tp_trigger_price in
      let sl = given o.sl_trigger_price in
      let legs =
        if is_market o.order_type then market_legs tp sl else limit_legs (given o.price) tp sl in
      if o.symbol == "" || o.side == "" then none else legs

  abbrev pub near : F → F → F → Bool
  near tick_size a b = fle (fabs (f.sub a b)) tick_size

  abbrev pub entry_ok : F → LogRow F → Option F → Bool
  entry_ok tick_size row none = true
  entry_ok tick_size row (some e) = near tick_size row.effective_entry e

  abbrev pub legs_ok : F → Legs F → LogRow F → Bool
  legs_ok tick_size legs row =
      entry_ok tick_size row legs.entry
      && near tick_size row.tp_price legs.tp
      && near tick_size row.sl_price legs.sl

  -- The body of the loop: the row's calculation, if it is a match that no order uses.
  unfoldable pub match_row : F → Legs F → List (Order F) → LogRow F → Option String
  match_row tick_size legs orders row = elim row.calc_id [
    | none ↦ none
    | some c ↦
        if not (c == "") && legs_ok tick_size legs row && not (any (has_calc_id c) orders)
        then some c
        else none
  ]

  unfoldable pub first_match : F → Legs F → List (Order F) → List (LogRow F) → Option String
  first_match tick_size legs orders [] = none
  first_match tick_size legs orders (row ∷ rows) =
      let rest = first_match tick_size legs orders rows in
      elim (match_row tick_size legs orders row) [ none ↦ rest | some c ↦ some c ]

  -- the `WHERE` of the query
  abbrev pub selected : EntryOrder F → String → LogRow F → Bool
  selected o cutoff row =
      row.ticker == o.symbol && row.side == o.side && text_le cutoff row.timestamp

  -- `cutoff` is the time 24 hours ago. A row whose calc_id is NULL is left out by the query in the code,
  -- and by the loop here.
  unfoldable pub correlate_order_to_calc :
      EntryOrder F → F → String → List (LogRow F) → List (Order F) → Option String
  unfolding wanted first_match by_latest
  correlate_order_to_calc order tick_size cutoff log orders = elim (wanted order) [
    | none ↦ none
    | some legs ↦ first_match tick_size legs orders (by_latest (filter (selected order cutoff) log))
  ]
