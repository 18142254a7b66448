-- ===== src/ExecLink/Tests.antt =====
-- Links at concrete inputs, in thousandths.
use quantamental_engine.Base.{
  ◌+◌, false, none, some, is_some, string_eq, nat_eq, if◌then◌else◌, not, ◌≡◌, refl, arith,
}
use quantamental_engine.Base.Int.{ℤ, pos, ◌-ℤ◌, ◌*ℤ◌, quot}
use quantamental_engine.Float.Fixed.{fixed, literal, times}
use quantamental_engine.ExecLink.{
  LinkedFill, Pretrade, linked, unlinked, expiring_soon, expired, price_near, compute_exec_match,
  compute_link_window_status, get_exec_link_status, default_link_window_seconds,
}
use quantamental_engine.ExecLink.Window.{is_expired, window_applied}

abbrev fill : LinkedFill ℤ
fill = record { calc_id = some "c1"; exec_link_confirmed = none; price = some (pos 100040) }

abbrev plan : Pretrade ℤ
plan = record {
  id = some 7;
  effective_entry = some (pos 0);
  average = some (pos 100000);
  tp_price = some (pos 106000);
  sl_price = none;
  link_window_seconds_override = some 600;
}

-- a tolerance of one in a thousand
abbrev tolerance : ℤ
tolerance = pos 1

linked_in_time :
    get_exec_link_status tolerance fill
      (some plan)
      "limit"
      (some 900000)
      (some 300000)
      default_link_window_seconds
    ≡ (linked, 1)
unfolding get_exec_link_status price_near literal times ◌-ℤ◌ quot ◌*ℤ◌
linked_in_time = refl

unlinked_later :
    get_exec_link_status tolerance fill
      (some plan)
      "limit"
      (some 900001)
      (some 300000)
      default_link_window_seconds
    ≡ (unlinked, 0)
unfolding get_exec_link_status
unlinked_later = refl

soon :
    (compute_link_window_status (some 300000) 21600 (some 600) false 899000).status ≡ expiring_soon
unfolding compute_link_window_status
soon = refl

-- The last second of the window is shown as expired, although a fill is still linked.
last_second :
    (compute_link_window_status (some 300000) 21600 (some 600) false 899001).status ≡ expired
unfolding compute_link_window_status
last_second = refl

window_applied_example :
    (if is_expired (
        compute_link_window_status
          (some 300000)
          21600
          plan.link_window_seconds_override
          false
          899001)
      then is_some (
          compute_exec_match tolerance fill plan "limit" (some (899001 + 1000)) (some 300000) 21600)
      else not (
          is_some
            (compute_exec_match tolerance fill plan "limit" (some 899001) (some 300000) 21600)))
    ≡ false
window_applied_example =
    window_applied tolerance fill plan "limit" 300000 21600 899001 (omega arith)
