-- ===== src/Orders/Row.antt =====
-- The rows of the `orders` and `fills` tables, and the dictionaries that adapters hand over. A key
-- that a dictionary may lack is an `Option`.
use quantamental_engine.Base.{
  ℕ, String, Bool, true, false, Option, none, some, ◌==◌, nat_eq, string_eq, or_else,
}
use quantamental_engine.Float.{Float, nought}

pub record Order {ℓ} (F : Type ℓ) : Type ℓ where
  pub account_id : ℕ
  pub exchange_order_id : Option String
  pub terminal_order_id : String
  pub client_order_id : String
  pub symbol : String
  pub side : String
  pub order_type : String
  pub status : String
  pub price : F
  pub stop_price : F
  pub quantity : F
  pub filled_qty : F
  pub avg_fill_price : F
  pub reduce_only : Bool
  pub time_in_force : String
  pub position_side : String
  pub exchange_position_id : String
  pub terminal_position_id : String
  pub source : String
  pub created_at_ms : ℕ
  pub updated_at_ms : ℕ
  pub last_seen_ms : ℕ
  -- the columns that enrichment fills in
  pub calc_id : Option String
  pub tp_trigger_price : Option F
  pub sl_trigger_price : Option F

pub record OrderDict {ℓ} (F : Type ℓ) : Type ℓ where
  pub account_id : Option ℕ
  pub exchange_order_id : Option String
  pub terminal_order_id : Option String
  pub client_order_id : Option String
  pub symbol : Option String
  pub side : Option String
  pub order_type : Option String
  pub status : Option String
  pub price : Option F
  pub stop_price : Option F
  pub quantity : Option F
  pub filled_qty : Option F
  pub avg_fill_price : Option F
  pub reduce_only : Option Bool
  pub time_in_force : Option String
  pub position_side : Option String
  pub exchange_position_id : Option String
  pub terminal_position_id : Option String
  pub source : Option String
  pub created_at_ms : Option ℕ
  pub updated_at_ms : Option ℕ
  pub close_position : Option Bool

-- `bool(text)` for a value that may be missing
abbrev pub present : Option String → Bool
present none = false
present (some s) = if_empty (s == "")
  where
    if_empty : Bool → Bool
    if_empty true = false
    if_empty false = true

module _ {ℓ} {F : Type ℓ} ⦃f : Float F⦄ where
  -- The parameters of the INSERT, with the defaults of `row.get`.
  unfoldable pub row_of : ℕ → OrderDict F → Order F
  row_of now_ms o = record {
    account_id = or_else o.account_id 1;
    exchange_order_id = o.exchange_order_id;
    terminal_order_id = or_else o.terminal_order_id "";
    client_order_id = or_else o.client_order_id "";
    symbol = or_else o.symbol "";
    side = or_else o.side "";
    order_type = or_else o.order_type "";
    status = or_else o.status "new";
    price = or_else o.price nought;
    stop_price = or_else o.stop_price nought;
    quantity = or_else o.quantity nought;
    filled_qty = or_else o.filled_qty nought;
    avg_fill_price = or_else o.avg_fill_price nought;
    reduce_only = or_else o.reduce_only false;
    time_in_force = or_else o.time_in_force "";
    position_side = or_else o.position_side "";
    exchange_position_id = or_else o.exchange_position_id "";
    terminal_position_id = or_else o.terminal_position_id "";
    source = or_else o.source "";
    created_at_ms = or_else o.created_at_ms 0;
    updated_at_ms = or_else o.updated_at_ms now_ms;
    last_seen_ms = now_ms;
    calc_id = none;
    tp_trigger_price = none;
    sl_trigger_price = none;
  }
