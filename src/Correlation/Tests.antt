-- ===== src/Correlation/Tests.antt =====
-- A correlation at concrete inputs, in thousandths.
use quantamental_engine.Base.{String, none, some, List, [], ◌∷◌, string_eq, ◌≡◌, refl}
use quantamental_engine.Base.Int.{ℤ, pos, ◌-ℤ◌}
use quantamental_engine.Base.Text.{text_le}
use quantamental_engine.Float.Fixed.{fixed, literal}
use quantamental_engine.Orders.Row.{Order}
use quantamental_engine.Orders.Tests.{stored}
use quantamental_engine.Correlation.{
  LogRow, EntryOrder, Legs, wanted, match_row, correlate_order_to_calc,
}
use quantamental_engine.Correlation.Latest.{IsOutcome, correlate_order_to_calc_lem}

abbrev pub logged : String → String → LogRow ℤ
logged id time = record {
  account_id = 1;
  calc_id = some id;
  ticker = "BTCUSDT";
  side = "long";
  effective_entry = pos 50000;
  tp_price = pos 55000;
  sl_price = pos 48000;
  timestamp = time;
}

-- The latest calculation is used by an order, the earliest is too old.
abbrev pub log : List (LogRow ℤ)
log =
    logged "c1" "2024-03-01T08:00"
    ∷ logged "c2" "2024-03-02T10:00"
    ∷ logged "c3" "2024-03-02T09:00"
    ∷ logged "c4" "2024-03-02T11:00"
    ∷ []

abbrev linked : List (Order ℤ)
linked = record (stored "A1" "new" 0) { calc_id = some "c4" } ∷ []

abbrev limit_order : EntryOrder ℤ
limit_order = record {
  order_type = some "LIMIT";
  price = some (pos 50010);
  tp_trigger_price = some (pos 55000);
  sl_trigger_price = some (pos 48000);
  symbol = "BTCUSDT";
  side = "long";
}

abbrev limit_prices : Legs ℤ
limit_prices = record { entry = some (pos 50010); tp = pos 55000; sl = pos 48000 }

latest_unused :
    correlate_order_to_calc limit_order (pos 10) "2024-03-01T12:00" log linked ≡ some "c2"
unfolding correlate_order_to_calc match_row text_le literal ◌-ℤ◌
latest_unused = refl

-- one tick more, and the limit order has no match, but a market order has
too_far : correlate_order_to_calc limit_order (pos 9) "2024-03-01T12:00" log linked ≡ none
unfolding correlate_order_to_calc match_row text_le literal ◌-ℤ◌
too_far = refl

market_matches :
    correlate_order_to_calc
      (record limit_order { order_type = some "MARKET" })
      (pos 9)
      "2024-03-01T12:00"
      log
      linked
    ≡ some "c2"
unfolding correlate_order_to_calc match_row text_le literal ◌-ℤ◌
market_matches = refl

correlate_order_to_calc_lem_example :
    IsOutcome limit_order "2024-03-01T12:00"
      (pos 10)
      limit_prices
      linked
      log
      (correlate_order_to_calc limit_order (pos 10) "2024-03-01T12:00" log linked)
unfolding wanted literal
correlate_order_to_calc_lem_example =
    correlate_order_to_calc_lem limit_order (pos 10) "2024-03-01T12:00" log linked limit_prices refl
