-- ===== src/Enrichment.antt =====
-- core/order_enrichment.py: what is filled in on an order and on a fill once they are stored. Each
-- statement is taken not to raise; the orders, the fills and the log of calculations are tables of one
-- database.
pub mod Traced
pub mod Links
pub mod Unattached
pub mod Fill
mod Tests
use quantamental_engine.Base.{
  ℕ, ◌+◌, String, Bool, true, false, ◌&&◌, ◌||◌, not, Option, none, some, List, [], ◌∷◌, ◌==◌,
  nat_eq, string_eq, if◌then◌else◌, or_else, is_some, map, find, any, filter,
}
use quantamental_engine.Float.{Float, nought, flt, fmax, truthy}
use quantamental_engine.Gate.{lower_in}
use quantamental_engine.Orders.Row.{Order, OrderDict, present}
use quantamental_engine.Orders.Store.{same_id}
use quantamental_engine.Correlation.{LogRow, EntryOrder, correlate_order_to_calc}

abbrev pub sl_types : List String
sl_types = "stop_loss" ∷ "stop_market" ∷ "stop_loss_limit" ∷ []

abbrev pub tp_types : List String
tp_types = "take_profit" ∷ "take_profit_market" ∷ "take_profit_limit" ∷ []

-- types that close a position
abbrev pub is_close_type : String → Bool
is_close_type t = lower_in t sl_types || lower_in t tp_types || lower_in t ("trailing_stop" ∷ [])

-- a text that is there and not empty
abbrev pub nonempty : Option String → Option String
nonempty none = none
nonempty (some c) = if c == "" then none else some c

-- an UPDATE
unfoldable pub update {ℓ} : {A : Type ℓ} → (A → Bool) → (A → A) → List A → List A
update p g [] = []
update p g (r ∷ t) = let rest = update p g t in (if p r then g r else r) ∷ rest

module _ {ℓ} {F : Type ℓ} where
  -- `WHERE account_id = ? AND exchange_order_id = ?`; nothing equals NULL
  abbrev pub is_order : ℕ → Option String → Order F → Bool
  is_order aid eid r = r.account_id == aid && same_id r.exchange_order_id eid

  -- an order that closes a position, which is a child and no entry
  abbrev pub is_child : OrderDict F → Bool
  is_child o = is_close_type (or_else o.order_type "") || or_else o.reduce_only false

  -- `COALESCE(new, old)`
  abbrev pub coalesce : Option F → Option F → Option F
  coalesce none old = old
  coalesce (some x) old = some x

  abbrev pub set_triggers : Option F × Option F → Order F → Order F
  set_triggers (tp, sl) r = record r {
    tp_trigger_price = coalesce tp r.tp_trigger_price;
    sl_trigger_price = coalesce sl r.sl_trigger_price;
  }

  abbrev pub entry_of : OrderDict F → Order F → EntryOrder F
  entry_of o row = record {
    order_type = o.order_type;
    price = some row.price;
    tp_trigger_price = row.tp_trigger_price;
    sl_trigger_price = row.sl_trigger_price;
    symbol = or_else o.symbol "";
    side = or_else o.side "";
  }

  abbrev pub set_calc : String → Order F → Order F
  set_calc c r = record r { calc_id = some c }

  abbrev pub unlinked_order : ℕ → Option String → Order F → Bool
  unlinked_order aid eid r = is_order aid eid r && not (is_some r.calc_id)

module _ {ℓ} {F : Type ℓ} ⦃f : Float F⦄ where
  -- the rows attached to a position, apart from the order
  abbrev pub is_attached : ℕ → String → Option String → Order F → Bool
  is_attached aid pos_id eid r =
      r.account_id == aid
      && r.exchange_position_id == pos_id
      && r.reduce_only
      && elim r.exchange_order_id [ none ↦ false | some i ↦ not (i == or_else eid "") ]

  -- `stop_price`, or else `price`, if not zero
  abbrev pub trigger_of : Order F → Option F
  trigger_of r =
      if truthy r.stop_price
      then some r.stop_price
      else if truthy r.price
      then some r.price
      else none

  -- (tp_price, sl_price): the last of each
  unfoldable pub triggers : List (Order F) → Option F × Option F → Option F × Option F
  triggers [] found = found
  triggers (r ∷ rs) (tp, sl) =
      let is_tp = lower_in r.order_type tp_types && is_some (trigger_of r) in
      let is_sl = lower_in r.order_type sl_types && is_some (trigger_of r) in
      triggers rs
        (if is_tp then (trigger_of r, sl) else if is_sl then (tp, trigger_of r) else (tp, sl))

  unfoldable pub populate_tp_sl_trigger_prices : OrderDict F → List (Order F) → List (Order F)
  unfolding update triggers
  populate_tp_sl_trigger_prices o table =
      let eid = o.exchange_order_id in
      let aid = or_else o.account_id 1 in
      let pos_id = or_else o.exchange_position_id "" in
      let found = triggers (filter (is_attached aid pos_id eid) table) (none, none) in
      if is_child o || pos_id == ""
      then table
      else if is_some found.0 || is_some found.1
      then update (is_order aid eid) (set_triggers found) table
      else table

  -- The precision of a symbol that the adapter gives, in decimal places, `none` where there is none.
  unfoldable pub get_tick_size : Option ℕ → F → F
  get_tick_size none price =
      let cent = f.lit 1 2 in if flt nought price then fmax (f.mul price (f.lit 1 4)) cent else cent
  get_tick_size (some places) price = f.lit 1 places

  abbrev pub nonzero : Option F → Bool
  nonzero none = false
  nonzero (some x) = truthy x

  module _ (precision : String → Option ℕ) (cutoff : String) (log : List (LogRow F)) where
    -- the calculation for a stored order, `none` where the code returns early or finds none
    unfoldable pub calc_for : OrderDict F → Order F → List (Order F) → Option String
    calc_for o row table =
        let tick_size = get_tick_size (precision (or_else o.symbol "")) row.price in
        if is_some (nonempty row.calc_id)
        then none
        else if not (nonzero row.tp_trigger_price) || not (nonzero row.sl_trigger_price)
        then none
        else correlate_order_to_calc (entry_of o row) tick_size cutoff log table

    abbrev pub link : ℕ → Option String → Option String → List (Order F) → List (Order F)
    link aid eid none table = table
    link aid eid (some c) table =
        if c == "" then table else update (unlinked_order aid eid) (set_calc c) table

    unfoldable pub try_correlate : OrderDict F → List (Order F) → List (Order F)
    unfolding update calc_for
    try_correlate o table =
        let eid = o.exchange_order_id in
        let aid = or_else o.account_id 1 in
        if is_child o then table else elim (find (is_order aid eid) table) [
          | none ↦ table
          | some row ↦ link aid eid (calc_for o row table) table
        ]

    unfoldable pub enrich_order : OrderDict F → List (Order F) → List (Order F)
    unfolding try_correlate populate_tp_sl_trigger_prices
    enrich_order o table = try_correlate o (populate_tp_sl_trigger_prices o table)
