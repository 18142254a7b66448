-- ===== src/Cache/Source.antt =====
-- Which source may write the positions, and for how long.
use quantamental_engine.Base.{
  ℕ, ◌+◌, ◌<◌, String, false, Option, List, [], ◌∷◌, ◌≡◌, ◌⊎◌, arith, if◌then◌else◌, ◌↔◌, ◌==◌,
  nat_eq,
}
use quantamental_engine.Float.{Float}
use quantamental_engine.Position.{Position}
use quantamental_engine.App.{App, UpdateSource, ws_user, rest, platform, VersionedState, source_eq}
use quantamental_engine.Portfolio.{Tables}
use quantamental_engine.Cache.{should_accept, apply_position_snapshot, PositionUpdateResult}

-- A snapshot that the exchange's REST interface gave, with its readings of the clock.
pub record RestSnapshot {ℓ} (F : Type ℓ) : Type ℓ where
  pub now_iso : String
  pub now_ms : ℕ
  pub incoming : List (Position F)
  pub ts_ms : ℕ

abbrev pub IsLive : UpdateSource → Type 0
IsLive source = (source ≡ ws_user) ⊎ (source ≡ platform)

-- the stamp that an update goes by
abbrev pub stamp {ℓ} : {F : Type ℓ} → RestSnapshot F → ℕ
stamp s = if s.ts_ms == 0 then s.now_ms else s.ts_ms

-- An update of the positions is refused exactly if it comes from REST, while the last one came from the
-- user stream or the platform and its stamp is less than five seconds older.
pub should_accept_lem :
    (cur : VersionedState) (source : UpdateSource) (ts : ℕ)
    → (should_accept cur source ts ≡ false)
      ↔ ((source ≡ rest) × IsLive cur.source × (ts < cur.timestamp_ms + 5000))
unfolding should_accept
should_accept_lem cur source ts = ground arith

module _ {ℓ} {F : Type ℓ} ⦃f : Float F⦄ (tables : Tables F) where
  abbrev pub poll : RestSnapshot F → App F → Option PositionUpdateResult × App F
  poll s = apply_position_snapshot tables s.now_iso s.now_ms rest s.incoming s.ts_ms false

  unfoldable pub run_polls : List (RestSnapshot F) → App F → App F
  run_polls [] app = app
  run_polls (s ∷ ss) app = run_polls ss (poll s app).1
