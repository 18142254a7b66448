-- ===== src/Orders/Status.antt =====
-- core/order_state.py: the statuses of an order, the transitions between them, and the names that
-- the terminal gives them.
pub mod Lifecycle
use quantamental_engine.Base.{
  String, Bool, true, false, ◌&&◌, ◌||◌, not, Option, none, some, List, [], ◌∷◌, ◌==◌, Comparable,
  string_eq, contains, ◌≡◌, ◌↔◌, refl, arith, if◌then◌else◌,
}

pub data OrderStatus : Type 0 where
  new partially_filled filled canceled expired rejected : OrderStatus

-- the value of a member
unfoldable pub value : OrderStatus → String
value new = "new"
value partially_filled = "partially_filled"
value filled = "filled"
value canceled = "canceled"
value expired = "expired"
value rejected = "rejected"

abbrev status_beq : OrderStatus → OrderStatus → Bool
status_beq new new = true
status_beq partially_filled partially_filled = true
status_beq filled filled = true
status_beq canceled canceled = true
status_beq expired expired = true
status_beq rejected rejected = true
status_beq _ _ = false

pub status_beq_iff : (a b : OrderStatus) → (status_beq a b ≡ true) ↔ (a ≡ b)
status_beq_iff a b = ground arith

instance abbrev pub status_eq : Comparable OrderStatus
status_eq = record { same = status_beq; same_iff = status_beq_iff }

-- `OrderStatus(text)`; `none` is its ValueError
unfoldable pub order_status : String → Option OrderStatus
order_status s =
    if s == "new"
    then some new
    else if s == "partially_filled"
    then some partially_filled
    else if s == "filled"
    then some filled
    else if s == "canceled"
    then some canceled
    else if s == "expired"
    then some expired
    else if s == "rejected"
    then some rejected
    else none

abbrev pub valid_transitions : OrderStatus → List OrderStatus
valid_transitions new = partially_filled ∷ filled ∷ canceled ∷ expired ∷ rejected ∷ []
valid_transitions partially_filled = filled ∷ canceled ∷ []
valid_transitions filled = []
valid_transitions canceled = []
valid_transitions expired = []
valid_transitions rejected = []

abbrev pub terminal_states : List OrderStatus
terminal_states = filled ∷ canceled ∷ expired ∷ rejected ∷ []

abbrev pub active_states : List OrderStatus
active_states = new ∷ partially_filled ∷ []

unfoldable pub validate_transition : String → String → Bool
unfolding order_status
validate_transition current target = elim (order_status target) [
  | none ↦ false
  | some t ↦ elim (order_status current) [
    | none ↦ false
    | some c ↦ contains t (valid_transitions c)
  ]
]

-- `QT_STATUS_MAP[name]`
unfoldable pub qt_status_map : String → Option OrderStatus
qt_status_map s =
    if s == "Opened"
    then some new
    else if s == "PartiallyFilled"
    then some partially_filled
    else if s == "Filled"
    then some filled
    else if s == "Cancelled"
    then some canceled
    else if s == "Refused"
    then some rejected
    else if s == "Inactive"
    then some expired
    else if s == "Unspecified"
    then some new
    else none

-- `QT_ORDER_TYPE_MAP[name]`
unfoldable pub qt_order_type_map : String → Option String
qt_order_type_map s =
    if s == "Limit"
    then some "limit"
    else if s == "Market"
    then some "market"
    else if s == "StopMarket" || s == "StopLimit"
    then some "stop_loss"
    else if s == "TakeProfitMarket" || s == "TakeProfitLimit"
    then some "take_profit"
    else if s == "TrailingStop"
    then some "trailing_stop"
    else none

-- The position that a TP or SL order belongs to. An empty `position_side` counts as none.
unfoldable pub resolve_tpsl_direction : Option String → String → String
resolve_tpsl_direction position_side side =
    let inferred : String = if side == "SELL" then "LONG" else "SHORT" in
    elim position_side [
      | none ↦ inferred
      | some p ↦ if not (p == "") && not (p == "BOTH") then p else inferred
    ]
