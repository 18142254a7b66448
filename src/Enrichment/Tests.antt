-- ===== src/Enrichment/Tests.antt =====
-- The enrichment at concrete inputs, in thousandths: an order for two calculations, and a fill twice.
use quantamental_engine.Base.{
  String, Bool, true, false, none, some, List, [], ◌∷◌, string_eq, nat_eq, map, ◌≡◌, refl,
}
use mathlib.Core.List.Memᴰ
use quantamental_engine.Base.Int.{ℤ, pos, ◌-ℤ◌, quot, ◌*ℤ◌}
use quantamental_engine.Base.Text.{text_le}
use quantamental_engine.Float.Fixed.{fixed, literal, divide}
use quantamental_engine.Orders.Row.{Order, OrderDict}
use quantamental_engine.Orders.Store.{upsert, upsert_order_batch}
use quantamental_engine.Correlation.Tests.{log}
use quantamental_engine.Correlation.{match_row, correlate_order_to_calc}
use quantamental_engine.Enrichment.{enrich_order, get_tick_size}
use quantamental_engine.Enrichment.Traced.{CalcsUnique}
use quantamental_engine.Enrichment.Links.{Step, stored, enriched, run_steps, run_steps-CalcsUnique}
use quantamental_engine.Enrichment.Fill.{
  FillDict, FillRow, enrich_fill, classify_fill_type, compute_slippage_actual,
  classify_and_compute_slippage, propagate_calc_id_to_fill,
}
use quantamental_engine.Enrichment.Fill.Repeated.{enrich_fill-enrich_fill}

CalcsUnique-empty : CalcsUnique {F = ℤ} []
unfolding CalcsUnique
CalcsUnique-empty c r s m n e k = absurd (Memᴰ.not-nil m)

-- an order at the position P1
abbrev at_position : String → String → Bool → ℤ → ℤ → OrderDict ℤ
at_position id type_ reduces price stop_price = record {
  account_id = some 1;
  exchange_order_id = some id;
  terminal_order_id = none;
  client_order_id = none;
  symbol = some "BTCUSDT";
  side = some "long";
  order_type = some type_;
  status = some "new";
  price = some price;
  stop_price = some stop_price;
  quantity = some (pos 1000);
  filled_qty = none;
  avg_fill_price = none;
  reduce_only = some reduces;
  time_in_force = none;
  position_side = none;
  exchange_position_id = some "P1";
  terminal_position_id = none;
  source = none;
  created_at_ms = none;
  updated_at_ms = none;
  close_position = none;
}

abbrev first_entry : OrderDict ℤ
first_entry = at_position "E1" "limit" false (pos 50000) (pos 0)

abbrev second_entry : OrderDict ℤ
second_entry = at_position "E2" "limit" false (pos 50000) (pos 0)

abbrev batch : List (OrderDict ℤ)
batch =
    first_entry
    ∷ second_entry
    ∷ at_position "T1" "TAKE_PROFIT" true (pos 55000) (pos 0)
    ∷ at_position "T2" "TAKE_PROFIT_MARKET" true (pos 0) (pos 55000)
    ∷ at_position "S1" "STOP_MARKET" true (pos 0) (pos 48000)
    ∷ []

abbrev enriched_entry : OrderDict ℤ → Step ℤ
enriched_entry = enriched (λ _. some 2) "2024-03-01T12:00" log

-- Each entry is enriched, the first one twice.
abbrev steps : List (Step ℤ)
steps =
    stored 5 batch
    ∷ enriched_entry first_entry
    ∷ enriched_entry second_entry
    ∷ enriched_entry first_entry
    ∷ []

calcs_linked :
    map (λ (r : Order ℤ). r.calc_id) (run_steps steps [])
    ≡ some "c4" ∷ some "c2" ∷ none ∷ none ∷ none ∷ []
unfolding run_steps enrich_order match_row text_le literal ◌-ℤ◌ upsert quot ◌*ℤ◌ upsert_order_batch
    correlate_order_to_calc get_tick_size
calcs_linked = refl

run_steps-CalcsUnique_example : CalcsUnique (run_steps steps [])
run_steps-CalcsUnique_example = run_steps-CalcsUnique steps [] CalcsUnique-empty

abbrev fill_row : FillRow ℤ
fill_row = record {
  account_id = 1;
  exchange_fill_id = some "F1";
  exchange_order_id = "E1";
  price = pos 50500;
  is_close = false;
  calc_id = none;
  fill_type = none;
  slippage_actual = none;
}

abbrev fill_dict : FillDict ℤ
fill_dict = record {
  account_id = some 1;
  exchange_fill_id = some "F1";
  exchange_order_id = some "E1";
  price = some (pos 50500);
  is_close = none;
  reduce_only = none;
  calc_id = none;
}

fill_enriched :
    enrich_fill log (run_steps steps []) fill_dict (fill_row ∷ [])
    ≡ record fill_row {
      calc_id = some "c4";
      fill_type = some "entry";
      slippage_actual = some (pos 10);
    }
      ∷ []
unfolding run_steps enrich_order match_row text_le literal ◌-ℤ◌ upsert quot ◌*ℤ◌ enrich_fill
    classify_fill_type compute_slippage_actual divide classify_and_compute_slippage
    propagate_calc_id_to_fill upsert_order_batch correlate_order_to_calc get_tick_size
fill_enriched = refl

enrich_fill-enrich_fill_example :
    enrich_fill log
      (run_steps steps [])
      fill_dict
      (enrich_fill log (run_steps steps []) fill_dict (fill_row ∷ []))
    ≡ enrich_fill log (run_steps steps []) fill_dict (fill_row ∷ [])
enrich_fill-enrich_fill_example =
    enrich_fill-enrich_fill log (run_steps steps []) fill_dict (fill_row ∷ [])
