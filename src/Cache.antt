-- ===== src/Cache.antt =====
-- `DataCache` of core/data_cache.py: which update of the positions is accepted, the snapshot, the
-- incremental update, and what they publish. The lock makes a handler one step; a handler takes its
-- readings of the clock as arguments, a time as a text where the code formats it.
pub mod Source
pub mod Keyed
pub mod Snapshot
pub mod Incremental
pub mod Account
pub mod Mark
mod Tests
use quantamental_engine.Base.{
  ℕ, ◌+◌, String, Bool, true, false, ◌&&◌, ◌||◌, not, Option, none, some, List, [], ◌∷◌, ◌==◌,
  nat_eq, string_eq, if◌then◌else◌, or_else, ltb, map, any, filter, find, is_empty,
}
use quantamental_engine.Base.Text.{sorted}
use quantamental_engine.Float.{Float, nought, flt, feq}
use quantamental_engine.Position.{Position, fresh}
use quantamental_engine.App.{
  App, UpdateSource, ws_user, ws_market, rest, platform, internal, VersionedState, source_eq,
}
use quantamental_engine.Portfolio.{Tables, recalculate_portfolio, sum}

-- `_WS_PRIORITY_WINDOW_MS`
abbrev pub ws_priority_window_ms : ℕ
ws_priority_window_ms = 5000

unfoldable pub should_accept : VersionedState → UpdateSource → ℕ → Bool
should_accept cur incoming_source incoming_ts_ms =
    if cur.source == internal || cur.source == incoming_source
    then true
    else if incoming_source == platform
    then true
    else if incoming_source == ws_user
    then true
    else if incoming_source == rest
    then (if (cur.source == ws_user || cur.source == platform)
          && ltb incoming_ts_ms (cur.timestamp_ms + ws_priority_window_ms)
        then false
        else true)
    else true

abbrev pub advance : UpdateSource → ℕ → VersionedState → VersionedState
advance source ts_ms v = record { sequence = v.sequence + 1; source = source; timestamp_ms = ts_ms }

-- what is published on CH_TRADE_CLOSED
pub record TradeClosed : Type 0 where
  pub ticker : String
  pub direction : String
  pub approx_close_ms : ℕ

-- The sets are lists of their members.
pub record PositionUpdateResult : Type 0 where
  pub closed_syms : List String
  pub new_syms : List String
  pub changed : Bool
  -- what is published once the lock is released
  pub closed_positions : List TradeClosed

module _ {ℓ} {F : Type ℓ} where
  -- `(p.ticker, p.direction)`
  abbrev pub key_of : Position F → String × String
  key_of p = (p.ticker, p.direction)

  abbrev pub has_key : String × String → Position F → Bool
  has_key k p = p.ticker == k.0 && p.direction == k.1

  -- `{(p.ticker, p.direction): p for p in ps}`, in insertion order: a later position with the key takes
  -- the place of an earlier one.
  unfoldable pub set_item : Position F → List (Position F) → List (Position F)
  set_item p [] = p ∷ []
  set_item p (q ∷ d) = let rest = set_item p d in if has_key (key_of p) q then p ∷ d else q ∷ rest

  unfoldable pub items_from : List (Position F) → List (Position F) → List (Position F)
  unfolding set_item
  items_from [] d = d
  items_from (p ∷ ps) d = items_from ps (set_item p d)

  abbrev pub items : List (Position F) → List (Position F)
  items ps = items_from ps []

module _ {ℓ} {F : Type ℓ} ⦃f : Float F⦄ where
  unfoldable pub preserve_metadata : Position F → Position F → Position F
  preserve_metadata new_pos old_pos = record new_pos {
    model_name = old_pos.model_name;
    individual_tpsl = old_pos.individual_tpsl;
    individual_tp_price = old_pos.individual_tp_price;
    individual_sl_price = old_pos.individual_sl_price;
    individual_tp_amount = old_pos.individual_tp_amount;
    individual_sl_amount = old_pos.individual_sl_amount;
    order_timestamp = old_pos.order_timestamp;
    entry_timestamp = old_pos.entry_timestamp;
    session_mfe = old_pos.session_mfe;
    session_mae = old_pos.session_mae;
    individual_fees = old_pos.individual_fees;
    position_id =
        if not (old_pos.position_id == "") && new_pos.position_id == ""
        then old_pos.position_id
        else new_pos.position_id;
    individual_unrealized =
        if not (feq old_pos.individual_unrealized nought)
        then old_pos.individual_unrealized
        else new_pos.individual_unrealized;
  }

  -- The first loop of a snapshot, for one incoming position and the existing one with its key.
  unfoldable pub carry_from : String → Position F → Option (Position F) → Position F
  unfolding preserve_metadata
  carry_from now_iso p (some old) = preserve_metadata p old
  carry_from now_iso p none =
      if or_else p.entry_timestamp "" == "" then record p { entry_timestamp = some now_iso } else p

  unfoldable pub carry_over : String → List (Position F) → Position F → Position F
  unfolding carry_from
  carry_over now_iso existing p = carry_from now_iso p (find (has_key (key_of p)) existing)

  abbrev pub closed_of : ℕ → Position F → TradeClosed
  closed_of now_ms p = record {
    ticker = p.ticker;
    direction = p.direction;
    approx_close_ms = now_ms;
  }

  -- the existing positions whose keys the snapshot lacks
  abbrev pub gone : List (Position F) → List (Position F) → List (Position F)
  gone existing incoming = filter (λ q. not (any (has_key (key_of q)) incoming)) existing

  -- `none` is a rejected snapshot.
  unfoldable pub apply_position_snapshot :
      Tables F
      → String
      → ℕ
      → UpdateSource
      → List (Position F)
      → ℕ
      → Bool
      → App F
      → Option PositionUpdateResult × App F
  unfolding should_accept items_from carry_over sorted
  apply_position_snapshot tables now_iso now_ms source incoming ts_ms force app =
      let ts = if ts_ms == 0 then now_ms else ts_ms in
      if not force && not (should_accept app.positions_version source ts)
      then (none, app)
      else let existing = items app.positions in
        let carried = map (carry_over now_iso existing) incoming in
        let closed = gone existing incoming in
        (
          some (record {
            closed_syms = map (λ p. p.ticker) closed;
            new_syms =
                map (λ p. p.ticker)
                  (filter (λ p. not (any (has_key (key_of p)) existing)) incoming);
            changed = true;
            closed_positions = map (closed_of now_ms) closed;
          }),
          recalculate_portfolio tables (record app {
            positions = sorted (λ p. or_else p.entry_timestamp "") carried;
            positions_version = advance source ts app.positions_version;
          }),
        )
