-- ===== src/Position.antt =====
-- `PositionInfo` of core/state.py.
use quantamental_engine.Base.{String, Bool, false, Option, none}
use quantamental_engine.Float.{Float, nought, one}

pub record Position {ℓ} (F : Type ℓ) : Type ℓ where
  pub position_id : String
  pub ticker : String
  pub order_timestamp : Option String
  pub entry_timestamp : Option String
  pub contract_amount : F
  pub contract_size : F
  pub direction : String
  pub position_value_usdt : F
  pub position_value_asset : F
  pub average : F
  pub fair_price : F
  pub liquidation_price : F
  pub individual_margin_ratio : F
  pub individual_margin_used : F
  pub individual_unrealized : F
  pub session_mfe : F
  pub session_mae : F
  pub individual_fees : F
  pub individual_funding_fees : F
  pub individual_realized : F
  pub individual_tpsl : Bool
  pub individual_tp_price : F
  pub individual_sl_price : F
  pub individual_tp_amount : F
  pub individual_sl_amount : F
  pub individual_tp_usdt : F
  pub individual_sl_usdt : F
  pub model_name : String
  pub sector : String

-- `PositionInfo()`, with the defaults of the dataclass
unfoldable pub fresh {ℓ} : {F : Type ℓ} ⦃f : Float F⦄ → Position F
fresh = record {
  position_id = "";
  ticker = "";
  order_timestamp = none;
  entry_timestamp = none;
  contract_amount = nought;
  contract_size = one;
  direction = "";
  position_value_usdt = nought;
  position_value_asset = nought;
  average = nought;
  fair_price = nought;
  liquidation_price = nought;
  individual_margin_ratio = nought;
  individual_margin_used = nought;
  individual_unrealized = nought;
  session_mfe = nought;
  session_mae = nought;
  individual_fees = nought;
  individual_funding_fees = nought;
  individual_realized = nought;
  individual_tpsl = false;
  individual_tp_price = nought;
  individual_sl_price = nought;
  individual_tp_amount = nought;
  individual_sl_amount = nought;
  individual_tp_usdt = nought;
  individual_sl_usdt = nought;
  model_name = "";
  sector = "";
}
