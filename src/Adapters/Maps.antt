-- ===== src/Adapters/Maps.antt =====
-- core/adapters/binance/constants.py and core/adapters/bybit/constants.py: the names of types and
-- statuses, and how a name is looked up in core/adapters/binance/ws_adapter.py and
-- core/adapters/bybit/ws_adapter.py.
use Prim.Native.Char.{Char, code}
use Prim.Native.String
use quantamental_engine.Base.{
  String, Bool, ◌&&◌, ◌||◌, not, Option, none, some, List, [], ◌∷◌, ◌==◌, nat_eq, string_eq,
  if◌then◌else◌, or_else,
}

abbrev pub Dict : Type 0
Dict = List (String × String)

unfoldable pub lookup_in : Dict → String → Option String
lookup_in [] key = none
lookup_in ((k, v) ∷ d) key = let rest = lookup_in d key in if k == key then some v else rest

-- a character of the first text becomes that of the second
abbrev translate_char : String → String → Char → Char
translate_char (String.◌∷◌ x xs) (String.◌∷◌ y ys) c =
    let rest = translate_char xs ys c in if code x == code c then y else rest
translate_char _ _ c = c

abbrev translate : String → String → String → String
translate xs ys String.[] = String.[]
translate xs ys (String.◌∷◌ c s) = String.◌∷◌ (translate_char xs ys c) (translate xs ys s)

unfoldable pub lower : String → String
lower s = translate "ABCDEFGHIJKLMNOPQRSTUVWXYZ" "abcdefghijklmnopqrstuvwxyz" s

unfoldable pub upper : String → String
upper s = translate "abcdefghijklmnopqrstuvwxyz" "ABCDEFGHIJKLMNOPQRSTUVWXYZ" s

abbrev pub order_type_to_binance : Dict
order_type_to_binance =
    ("take_profit", "TAKE_PROFIT_MARKET")
    ∷ ("stop_loss", "STOP_MARKET")
    ∷ ("limit", "LIMIT")
    ∷ ("market", "MARKET")
    ∷ []

abbrev pub order_type_from_binance : Dict
order_type_from_binance =
    ("TAKE_PROFIT", "take_profit")
    ∷ ("TAKE_PROFIT_MARKET", "take_profit")
    ∷ ("STOP", "stop_loss")
    ∷ ("STOP_MARKET", "stop_loss")
    ∷ ("LIMIT", "limit")
    ∷ ("MARKET", "market")
    ∷ ("TRAILING_STOP_MARKET", "trailing_stop")
    ∷ []

abbrev pub binance_status_map : Dict
binance_status_map =
    ("NEW", "new")
    ∷ ("PARTIALLY_FILLED", "partially_filled")
    ∷ ("FILLED", "filled")
    ∷ ("CANCELED", "canceled")
    ∷ ("EXPIRED", "expired")
    ∷ ("REJECTED", "rejected")
    ∷ ("NEW_INSURANCE", "new")
    ∷ ("NEW_ADL", "new")
    ∷ []

abbrev pub algo_status_map : Dict
algo_status_map =
    ("NEW", "new")
    ∷ ("TRIGGERING", "new")
    ∷ ("TRIGGERED", "partially_filled")
    ∷ ("FINISHED", "filled")
    ∷ ("CANCELED", "canceled")
    ∷ ("REJECTED", "rejected")
    ∷ ("EXPIRED", "expired")
    ∷ []

abbrev pub order_type_to_bybit : Dict
order_type_to_bybit =
    ("take_profit", "TakeProfit")
    ∷ ("stop_loss", "StopLoss")
    ∷ ("limit", "Limit")
    ∷ ("market", "Market")
    ∷ []

abbrev pub order_type_from_bybit : Dict
order_type_from_bybit =
    ("TakeProfit", "take_profit")
    ∷ ("StopLoss", "stop_loss")
    ∷ ("Limit", "limit")
    ∷ ("Market", "market")
    ∷ ("Stop", "stop_loss")
    ∷ []

abbrev pub bybit_status_map : Dict
bybit_status_map =
    ("New", "new")
    ∷ ("PartiallyFilled", "partially_filled")
    ∷ ("Filled", "filled")
    ∷ ("Cancelled", "canceled")
    ∷ ("Rejected", "rejected")
    ∷ ("Deactivated", "expired")
    ∷ ("Untriggered", "new")
    ∷ ("Triggered", "new")
    ∷ []

-- the types that stand at a trigger
abbrev pub is_stop : String → Bool
is_stop t = t == "stop_loss" || t == "take_profit"

-- FE-13: a stop that does not close gets a suffix
unfoldable pub with_suffix : String → Bool → String
with_suffix unified_type closes =
    if is_stop unified_type && not closes then String.◌++◌ unified_type "_entry" else unified_type

-- the unified type of a raw one
abbrev pub unified : Dict → String → String
unified types raw = or_else (lookup_in types raw) (lower raw)

-- the status of a raw one, which is new where it is not in the map
abbrev pub status_in : Dict → Option String → String
status_in statuses raw = or_else (lookup_in statuses (or_else raw "")) "new"

abbrev pub binance_type : String → Bool → Bool → String
binance_type raw reduces closes =
    with_suffix (unified order_type_from_binance raw) (reduces || closes)

-- the raw type of an order, where the kind of stop that it comes from goes first
abbrev pub bybit_type : String → String → Bool → String
bybit_type raw stop_order_type reduces =
    with_suffix
      (if stop_order_type == "TakeProfit"
        then "take_profit"
        else if stop_order_type == "StopLoss" || stop_order_type == "Stop"
        then "stop_loss"
        else unified order_type_from_bybit raw)
      reduces

abbrev pub side_of_index : String → String
side_of_index idx = if idx == "1" then "LONG" else if idx == "2" then "SHORT" else ""
