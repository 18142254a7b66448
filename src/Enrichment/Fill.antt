-- ===== src/Enrichment/Fill.antt =====
-- core/order_enrichment.py: what is filled in on a fill. A key that a dictionary may lack is an option;
-- a row of the fills table, read as a dictionary, has no `reduce_only`.
pub mod Repeated
use quantamental_engine.Base.{
  ℕ, ◌+◌, String, Bool, true, false, ◌&&◌, ◌||◌, not, Option, none, some, List, [], ◌∷◌, ◌==◌,
  nat_eq, string_eq, if◌then◌else◌, or_else, is_some, find,
}
use quantamental_engine.Float.{Float, nought, truthy}
use quantamental_engine.Gate.{lower_in}
use quantamental_engine.Orders.Row.{Order}
use quantamental_engine.Orders.Store.{same_id}
use quantamental_engine.Correlation.{LogRow}
use quantamental_engine.Enrichment.{is_order, nonempty, update, tp_types, sl_types}

pub record FillDict {ℓ} (F : Type ℓ) : Type ℓ where
  pub account_id : Option ℕ
  pub exchange_fill_id : Option String
  pub exchange_order_id : Option String
  pub price : Option F
  pub is_close : Option Bool
  pub reduce_only : Option Bool
  pub calc_id : Option String

-- the columns of a row of `fills` that are read or written
pub record FillRow {ℓ} (F : Type ℓ) : Type ℓ where
  pub account_id : ℕ
  pub exchange_fill_id : Option String
  pub exchange_order_id : String
  pub price : F
  pub is_close : Bool
  pub calc_id : Option String
  pub fill_type : Option String
  pub slippage_actual : Option F

module _ {ℓ} {F : Type ℓ} where
  abbrev pub dict_of : FillRow F → FillDict F
  dict_of r = record {
    account_id = some r.account_id;
    exchange_fill_id = r.exchange_fill_id;
    exchange_order_id = some r.exchange_order_id;
    price = some r.price;
    is_close = some r.is_close;
    reduce_only = none;
    calc_id = r.calc_id;
  }

  -- the row that is there, or else the fill as it came
  abbrev pub data_of : FillDict F → Option (FillRow F) → FillDict F
  data_of fill none = fill
  data_of fill (some r) = dict_of r

  abbrev pub is_fill : ℕ → String → FillRow F → Bool
  is_fill aid fill_id r = r.account_id == aid && same_id r.exchange_fill_id (some fill_id)

  -- the parent's order type is one of these
  abbrev pub parent_in : List String → Option (Order F) → Bool
  parent_in types none = false
  parent_in types (some p) = lower_in p.order_type types

  abbrev pub parent_reduces : Option (Order F) → Bool
  parent_reduces none = false
  parent_reduces (some p) = p.reduce_only

  unfoldable pub classify_fill_type : FillDict F → Option (Order F) → String
  classify_fill_type fill parent =
      if parent_in tp_types parent
      then "tp"
      else if parent_in sl_types parent
      then "sl"
      else if or_else fill.is_close false
      then "manual"
      else if or_else fill.reduce_only false || parent_reduces parent
      then "reduce_only"
      else "entry"

  abbrev pub set_fill_calc : String → FillRow F → FillRow F
  set_fill_calc c r = record r { calc_id = some c }

  abbrev pub set_class : String × Option F → FillRow F → FillRow F
  set_class (fill_type, slip) r = record r { fill_type = some fill_type; slippage_actual = slip }

  module _ (orders : List (Order F)) where
    -- the parent order of a fill
    abbrev pub parent_of : ℕ → Option String → Option (Order F)
    parent_of aid order_id = elim (nonempty order_id) [
      | none ↦ none
      | some i ↦ find (is_order aid (some i)) orders
    ]

    abbrev pub row_calc : Option (FillRow F) → Option String
    row_calc none = none
    row_calc (some r) = nonempty r.calc_id

    abbrev pub order_calc : Option (Order F) → Option String
    order_calc none = none
    order_calc (some o) = nonempty o.calc_id

    -- The calculation to hand on, for the row that is there.
    abbrev pub calc_to_set : Option (Order F) → Option (FillRow F) → Option String
    calc_to_set parent row = if is_some (row_calc row) then none else order_calc parent

    abbrev pub set_calc_where :
        (FillRow F → Bool) → Option String → List (FillRow F) → List (FillRow F)
    set_calc_where p none fills = fills
    set_calc_where p (some c) fills = update p (set_fill_calc c) fills

    unfoldable pub propagate_to : FillDict F → Option String → List (FillRow F) → List (FillRow F)
    unfolding update
    propagate_to fill none fills = fills
    propagate_to fill (some fill_id) fills =
        let aid = or_else fill.account_id 1 in
        let p = is_fill aid fill_id in
        set_calc_where p (calc_to_set (parent_of aid fill.exchange_order_id) (find p fills)) fills

    unfoldable pub propagate_calc_id_to_fill : FillDict F → List (FillRow F) → List (FillRow F)
    unfolding propagate_to
    propagate_calc_id_to_fill fill = propagate_to fill (nonempty fill.exchange_fill_id)

module _ {ℓ} {F : Type ℓ} ⦃f : Float F⦄ where
  -- `(price - expected) / expected`, if expected is not zero
  abbrev pub deviation : F → F → Option F
  deviation price expected =
      if truthy expected then some (f.div (f.sub price expected) expected) else none

  abbrev pub is_calc_row : String → ℕ → LogRow F → Bool
  is_calc_row c aid r = r.account_id == aid && same_id r.calc_id (some c)

  abbrev pub entry_slippage : List (LogRow F) → FillDict F → F → Option F
  entry_slippage log fill price = elim (nonempty fill.calc_id) [
    | none ↦ none
    | some c ↦ elim (find (is_calc_row c (or_else fill.account_id 1)) log) [
      | none ↦ none
      | some r ↦ deviation price r.effective_entry
    ]
  ]

  abbrev pub exit_slippage : Option (Order F) → F → Option F
  exit_slippage none price = none
  exit_slippage (some p) price =
      deviation price (if truthy p.stop_price then p.stop_price else p.price)

  unfoldable pub compute_slippage_actual :
      List (LogRow F) → FillDict F → Option (Order F) → String → Option F
  compute_slippage_actual log fill parent fill_type =
      let price = or_else fill.price nought in
      if not (truthy price)
      then none
      else if fill_type == "entry"
      then entry_slippage log fill price
      else if fill_type == "tp" || fill_type == "sl"
      then exit_slippage parent price
      else none

  module _ (log : List (LogRow F)) (orders : List (Order F)) where
    -- the type and the slippage
    abbrev pub class_for : FillDict F → Option (Order F) → Option (FillRow F) → String × Option F
    class_for fill parent row =
        let fill_data = data_of fill row in
        let ftype = classify_fill_type fill_data parent in
        (ftype, compute_slippage_actual log fill_data parent ftype)

    unfoldable pub classify_at : FillDict F → Option String → List (FillRow F) → List (FillRow F)
    unfolding update
    classify_at fill none fills = fills
    classify_at fill (some fill_id) fills =
        let aid = or_else fill.account_id 1 in
        let p = is_fill aid fill_id in
        let parent = parent_of orders aid fill.exchange_order_id in
        update p (set_class (class_for fill parent (find p fills))) fills

    unfoldable pub classify_and_compute_slippage : FillDict F → List (FillRow F) → List (FillRow F)
    unfolding classify_at
    classify_and_compute_slippage fill = classify_at fill (nonempty fill.exchange_fill_id)

    unfoldable pub enrich_fill : FillDict F → List (FillRow F) → List (FillRow F)
    enrich_fill fill fills =
        classify_and_compute_slippage fill (propagate_calc_id_to_fill orders fill fills)
