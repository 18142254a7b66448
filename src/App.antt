-- ===== src/App.antt =====
-- The state that `DataCache` writes: its own positions and versions (core/data_cache.py), and what it
-- shares with `AppState` (core/state.py). A dictionary is a function to `Option`, a set a list.
use quantamental_engine.Base.{
  ℕ, String, Bool, true, false, Option, some, List, [], ◌∷◌, ◌==◌, nat_eq, string_eq, Comparable,
  if◌then◌else◌, ◌≡◌, ◌↔◌, arith,
}
use quantamental_engine.Position.{Position}
use quantamental_engine.Drawdown.{DdState}
use quantamental_engine.State.{AccountState, PortfolioStats}

pub data UpdateSource : Type 0 where
  ws_user ws_market rest platform internal : UpdateSource

abbrev source_beq : UpdateSource → UpdateSource → Bool
source_beq ws_user ws_user = true
source_beq ws_market ws_market = true
source_beq rest rest = true
source_beq platform platform = true
source_beq internal internal = true
source_beq _ _ = false

pub source_beq_iff : (a b : UpdateSource) → (source_beq a b ≡ true) ↔ (a ≡ b)
source_beq_iff a b = ground arith

instance abbrev pub source_eq : Comparable UpdateSource
source_eq = record { same = source_beq; same_iff = source_beq_iff }

pub record VersionedState : Type 0 where
  pub sequence : ℕ
  pub source : UpdateSource
  pub timestamp_ms : ℕ

abbrev pub no_version : VersionedState
no_version = record { sequence = 0; source = internal; timestamp_ms = 0 }

-- the parameters that the portfolio reads
pub record Thresholds {ℓ} (F : Type ℓ) : Type ℓ where
  pub max_w_loss_percent : F
  pub weekly_loss_limit_pct : F
  pub weekly_loss_warning_pct : F
  pub max_dd_percent : F
  pub max_dd_limit_pct : F
  pub max_dd_warning_pct : F

pub record App {ℓ} (F : Type ℓ) : Type ℓ where
  pub positions : List (Position F)
  pub positions_version : VersionedState
  pub account_version : VersionedState
  pub account_state : AccountState F
  pub portfolio : PortfolioStats F
  pub params : Thresholds F
  pub active_account_id : ℕ
  pub mark_price_cache : String → Option F
  pub dd_episode_peaks : ℕ → Option F
  pub dd_previous_states : ℕ → Option DdState
  pub dd_would_have_blocked_logged : List ℕ
  pub dd_manually_unblocked : List ℕ

-- `d[key] = value`
abbrev pub put {ℓ κ} :
    {K : Type ℓ} {V : Type κ} ⦃c : Comparable K⦄ → K → V → (K → Option V) → K → Option V
put key v d k = if k == key then some v else d k

-- `s.discard(x)`
abbrev pub discard : ℕ → List ℕ → List ℕ
discard x [] = []
discard x (y ∷ ys) = let rest = discard x ys in if x == y then rest else y ∷ rest
