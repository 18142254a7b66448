-- ===== src/ExecLink/Window.antt =====
-- The window that is shown against the window that is applied.
use quantamental_engine.Base.{
  ℕ, ◌+◌, ◌≤◌, String, Bool, true, false, not, some, if◌then◌else◌, or_else, is_some, ◌≡◌, arith,
}
use quantamental_engine.Float.{Float}
use quantamental_engine.ExecLink.{
  LinkedFill, Pretrade, WindowStatus, linkable, expiring_soon, expired, linked_confirmed,
  LinkWindow, compute_link_window_status, compute_exec_match,
}

abbrev is_expired_status : WindowStatus → Bool
is_expired_status expired = true
is_expired_status linkable = false
is_expired_status expiring_soon = false
is_expired_status linked_confirmed = false

abbrev pub is_expired : LinkWindow → Bool
is_expired w = is_expired_status w.status

module _ {ℓ} {F : Type ℓ} ⦃f : Float F⦄ (tol : F) where
  -- For a calculation with a time and a window of a second or more, not confirmed: while the window is
  -- not shown as expired, a fill of that moment is not refused; and once it is shown as expired, a fill
  -- a second later is refused, whatever the order's type and the prices are.
  pub window_applied :
      (fill : LinkedFill F) (p : Pretrade F) (order_type : String) (ts_ms seconds now_ms : ℕ)
      → 1 ≤ or_else p.link_window_seconds_override seconds
      → (if is_expired (
            compute_link_window_status
              (some ts_ms)
              seconds
              p.link_window_seconds_override
              false
              now_ms)
          then is_some
              (compute_exec_match tol fill p order_type (some (now_ms + 1000)) (some ts_ms) seconds)
          else not (
              is_some
                (compute_exec_match tol fill p order_type (some now_ms) (some ts_ms) seconds)))
        ≡ false
  unfolding compute_exec_match compute_link_window_status
  window_applied fill p order_type ts_ms seconds now_ms h = ground arith
