-- ===== src/ExecLink/Status.antt =====
-- What a fill's link depends on.
use quantamental_engine.Base.{
  ℕ, String, Bool, false, ◌&&◌, ◌||◌, not, Option, none, some, if◌then◌else◌, or_else, is_some, ◌≡◌,
  arith,
}
use quantamental_engine.Float.{Float}
use quantamental_engine.Enrichment.{nonempty}
use quantamental_engine.ExecLink.{
  LinkedFill, Pretrade, linked, unlinked, price_near, entry_of, is_past, at_market,
  compute_exec_match, get_exec_link_status,
}

module _ {ℓ} {F : Type ℓ} ⦃f : Float F⦄ (tol : F) where
  -- A calculation that a fill agrees with: in time, and at its price unless the order is a market order.
  abbrev pub agrees : LinkedFill F → Option (Pretrade F) → String → Option ℕ → Option ℕ → ℕ → Bool
  agrees fill none order_type fill_ts_ms pretrade_ts_ms seconds = false
  agrees fill (some p) order_type fill_ts_ms pretrade_ts_ms seconds =
      not (is_past fill_ts_ms pretrade_ts_ms (or_else p.link_window_seconds_override seconds))
      && (at_market order_type || price_near tol (entry_of tol p) fill.price)

  -- A fill is linked, with a count of one, exactly if it has a calculation and its link is confirmed or
  -- the calculation agrees with it; otherwise it is unlinked, with a count of zero. It is never partial.
  pub get_exec_link_status_lem :
      (fill : LinkedFill F) (pretrade : Option (Pretrade F)) (order_type : String)
      (fill_ts_ms pretrade_ts_ms : Option ℕ) (seconds : ℕ)
      → get_exec_link_status tol fill pretrade order_type fill_ts_ms pretrade_ts_ms seconds ≡ (
          if is_some (nonempty fill.calc_id)
            && (or_else fill.exec_link_confirmed false
                || agrees fill pretrade order_type fill_ts_ms pretrade_ts_ms seconds)
          then (linked, 1)
          else (unlinked, 0))
  unfolding get_exec_link_status compute_exec_match
  get_exec_link_status_lem fill none order_type fill_ts_ms pretrade_ts_ms seconds = ground arith
  get_exec_link_status_lem fill (some p) order_type fill_ts_ms pretrade_ts_ms seconds = ground arith
