-- ===== src/Cache/Incremental.antt =====
-- `apply_position_update_incremental`: the changes of one message of the exchange, one after another.
pub mod Closing
use quantamental_engine.Base.{
  ℕ, ◌+◌, String, Bool, true, false, ◌&&◌, ◌||◌, not, Option, none, some, List, [], ◌∷◌, ◌++◌, ◌==◌,
  nat_eq, string_eq, if◌then◌else◌, or_else, any, filter, map, is_empty, is_some,
}
use quantamental_engine.Float.{Float, nought, flt, truthy}
use quantamental_engine.Position.{Position, fresh}
use quantamental_engine.App.{App, UpdateSource}
use quantamental_engine.Portfolio.{Tables, recalculate_portfolio, sum}
use quantamental_engine.Cache.{TradeClosed, PositionUpdateResult, has_key, advance}

-- what the adapter hands over for a position
pub record NormalizedPosition {ℓ} (F : Type ℓ) : Type ℓ where
  pub symbol : String
  pub side : String
  pub size : F
  pub entry_price : F
  pub unrealized_pnl : F

-- What the loop has so far.
pub record Progress {ℓ} (F : Type ℓ) : Type ℓ where
  pub positions : List (Position F)
  pub closed_syms : List String
  pub new_syms : List String
  pub closed_positions : List TradeClosed

module _ {ℓ} {F : Type ℓ} ⦃f : Float F⦄ where
  abbrev pub key_of_np : NormalizedPosition F → String × String
  key_of_np np = (np.symbol, np.side)

  -- A change of the object that the dictionary of existing positions holds for a key: the last one with
  -- the key, while it is in the list.
  unfoldable pub update_last :
      String × String → (Position F → Position F) → List (Position F) → List (Position F)
  update_last k g [] = []
  update_last k g (p ∷ ps) =
      let rest = update_last k g ps in
      if any (has_key k) ps then p ∷ rest else if has_key k p then g p ∷ ps else p ∷ ps

  -- `np.size == 0`
  abbrev pub is_closed : NormalizedPosition F → Bool
  is_closed np = not (truthy np.size)

  unfoldable pub updated : (String → Option F) → NormalizedPosition F → Position F → Position F
  updated marks np pos =
      let mark = or_else (marks np.symbol) nought in
      record pos {
        individual_unrealized = np.unrealized_pnl;
        contract_amount = np.size;
        direction = np.side;
        average = if flt nought np.entry_price then np.entry_price else pos.average;
        position_value_usdt = if truthy mark then f.mul np.size mark else pos.position_value_usdt;
      }

  unfoldable pub new_position :
      (String → Option F) → (String → String) → String → NormalizedPosition F → Position F
  unfolding fresh
  new_position marks get_sector now_iso np =
      let cached = or_else (marks np.symbol) np.entry_price in
      let mark = if truthy cached then cached else np.entry_price in
      record fresh {
        ticker = np.symbol;
        direction = np.side;
        contract_amount = np.size;
        average = np.entry_price;
        fair_price = mark;
        individual_unrealized = np.unrealized_pnl;
        position_value_usdt = f.mul np.size mark;
        entry_timestamp = some now_iso;
        sector = get_sector np.symbol;
      }

  -- One round of the loop; `existing` holds the positions from before the loop.
  unfoldable pub apply_change :
      (String → Option F)
      → (String → String)
      → String
      → ℕ
      → List (Position F)
      → NormalizedPosition F
      → Progress F
      → Progress F
  unfolding update_last updated new_position
  apply_change marks get_sector now_iso ts_ms existing np s =
      let k = key_of_np np in
      if is_closed np
      then (if any (has_key k) existing
          then record {
            positions = filter (λ p. not (has_key k p)) s.positions;
            closed_syms = s.closed_syms ++ (np.symbol ∷ []);
            new_syms = s.new_syms;
            closed_positions =
                s.closed_positions
                ++ (record { ticker = np.symbol; direction = np.side; approx_close_ms = ts_ms }
                    ∷ []);
          }
          else s)
      else if any (has_key k) existing
      then record s { positions = update_last k (updated marks np) s.positions }
      else record s {
        positions = s.positions ++ (new_position marks get_sector now_iso np ∷ []);
        new_syms = s.new_syms ++ (np.symbol ∷ []);
      }

  unfoldable pub apply_changes :
      (String → Option F)
      → (String → String)
      → String
      → ℕ
      → List (Position F)
      → List (NormalizedPosition F)
      → Progress F
      → Progress F
  unfolding apply_change
  apply_changes marks get_sector now_iso ts_ms existing [] s = s
  apply_changes marks get_sector now_iso ts_ms existing (np ∷ nps) s =
      apply_changes marks get_sector now_iso ts_ms existing nps
        (apply_change marks get_sector now_iso ts_ms existing np s)

  -- `balances` is `none` where the dictionary is empty, and `some none` where it has no wallet balance.
  unfoldable pub apply_balances : UpdateSource → ℕ → Option (Option F) → App F → App F
  apply_balances source ts_ms none app = app
  apply_balances source ts_ms (some wallet) app = record app {
    account_state = record app.account_state { balance_usdt = or_else wallet nought };
    account_version = advance source ts_ms app.account_version;
  }

  -- The loop over a message, from the positions as they are.
  unfoldable pub changes_of :
      (String → String) → String → ℕ → List (NormalizedPosition F) → App F → Progress F
  unfolding apply_changes
  changes_of get_sector now_iso ts_ms norm_positions app =
      apply_changes app.mark_price_cache get_sector now_iso ts_ms app.positions norm_positions
        (record {
          positions = app.positions;
          closed_syms = [];
          new_syms = [];
          closed_positions = [];
        })

  abbrev pub with_changes : UpdateSource → ℕ → Progress F → App F → App F
  with_changes source ts_ms s app = record app {
    positions = s.positions;
    positions_version = advance source ts_ms app.positions_version;
    account_state = record app.account_state {
      total_unrealized = sum (map (λ p. p.individual_unrealized) s.positions);
    };
  }

  unfoldable pub apply_position_update_incremental :
      Tables F
      → (String → String)
      → String
      → ℕ
      → UpdateSource
      → List (NormalizedPosition F)
      → Option (Option F)
      → ℕ
      → App F
      → PositionUpdateResult × App F
  unfolding changes_of apply_balances
  apply_position_update_incremental tables get_sector now_iso now_ms source norm_positions balances
        ts_ms app =
      let ts = if ts_ms == 0 then now_ms else ts_ms in
      let app' = apply_balances source ts balances app in
      let s = changes_of get_sector now_iso ts norm_positions app' in
      (
        record {
          closed_syms = s.closed_syms;
          new_syms = s.new_syms;
          changed = not (is_empty norm_positions) || is_some balances;
          closed_positions = s.closed_positions;
        },
        recalculate_portfolio tables (with_changes source ts s app'),
      )
