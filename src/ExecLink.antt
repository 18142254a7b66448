-- ===== src/ExecLink.antt =====
-- core/exec_link.py: whether a fill is linked to its calculation, and the window in which it may be.
-- Times are milliseconds since the epoch and windows are seconds, none negative; a division of such a
-- number by 1000 as a float and a truncation are the exact ones below 2 ^ 53. `tol` is
-- config.EXEC_LINK_PRICE_TOL.
pub mod Window
pub mod Status
mod Tests
use quantamental_engine.Base.{
  ℕ, ◌+◌, ◌-◌, ◌*◌, ◌/◌, String, Bool, true, false, ◌&&◌, ◌||◌, not, Option, none, some, List, [],
  ◌∷◌, ◌==◌, nat_eq, string_eq, if◌then◌else◌, or_else, is_some, ltb, leb, max,
}
use quantamental_engine.Float.{Float, nought, fle, feq, fabs, fmax, truthy}
use quantamental_engine.Gate.{lower_in}
use quantamental_engine.Enrichment.{nonempty}

pub record ExecMatchResult {ℓ} (F : Type ℓ) : Type ℓ where
  pub pretrade_id : Option ℕ
  pub entry_match : Bool
  pub tp_match : Bool
  pub sl_match : Bool
  pub match_count : ℕ
  pub auto_link : Bool
  pub is_market : Bool
  pub pretrade_entry : Option F
  pub pretrade_tp : Option F
  pub pretrade_sl : Option F
  pub fill_price : F

-- the keys of the two dictionaries that are read
pub record LinkedFill {ℓ} (F : Type ℓ) : Type ℓ where
  pub calc_id : Option String
  pub exec_link_confirmed : Option Bool
  pub price : Option F

pub record Pretrade {ℓ} (F : Type ℓ) : Type ℓ where
  pub id : Option ℕ
  pub effective_entry : Option F
  pub average : Option F
  pub tp_price : Option F
  pub sl_price : Option F
  pub link_window_seconds_override : Option ℕ

pub data LinkStatus : Type 0 where
  linked partial unlinked : LinkStatus

pub data WindowStatus : Type 0 where
  linkable expiring_soon expired linked_confirmed : WindowStatus

pub record LinkWindow : Type 0 where
  pub status : WindowStatus
  pub effective_window_s : ℕ
  pub remaining_s : ℕ
  pub expires_at_ms : Option ℕ

abbrev pub default_link_window_seconds : ℕ
default_link_window_seconds = 21600

abbrev pub expiring_soon_threshold_s : ℕ
expiring_soon_threshold_s = 300

-- the status of a window that closes in so many seconds
abbrev pub window_status : ℕ → WindowStatus
window_status remaining_s =
    if leb remaining_s 0
    then expired
    else if leb remaining_s expiring_soon_threshold_s
    then expiring_soon
    else linkable

-- a window that is closed or does not matter any more
abbrev pub shut : WindowStatus → ℕ → LinkWindow
shut s effective = record {
  status = s;
  effective_window_s = effective;
  remaining_s = 0;
  expires_at_ms = none;
}

abbrev pub open_until : ℕ → ℕ → ℕ → LinkWindow
open_until pretrade_ts_ms effective now_ms =
    let expires_at_ms = pretrade_ts_ms + effective * 1000 in
    let remaining_s = max 0 ((expires_at_ms - now_ms) / 1000) in
    record {
      status = window_status remaining_s;
      effective_window_s = effective;
      remaining_s = remaining_s;
      expires_at_ms = some expires_at_ms;
    }

unfoldable pub compute_link_window_status : Option ℕ → ℕ → Option ℕ → Bool → ℕ → LinkWindow
compute_link_window_status pretrade_ts_ms account_link_window_seconds override exec_link_confirmed
      now_ms =
    let effective = or_else override account_link_window_seconds in
    if exec_link_confirmed then shut linked_confirmed effective else elim pretrade_ts_ms [
      | none ↦ shut expired effective
      | some ts ↦ if leb effective 0 then shut expired effective else open_until ts effective now_ms
    ]

-- the fill is later than the window allows, where both times are known
abbrev pub is_past : Option ℕ → Option ℕ → ℕ → Bool
is_past (some fill_ts_ms) (some pretrade_ts_ms) effective_window_s =
    ltb (pretrade_ts_ms + effective_window_s * 1000) fill_ts_ms
is_past _ _ _ = false

abbrev pub at_market : String → Bool
at_market order_type = lower_in order_type ("market" ∷ "stop_market" ∷ [])

module _ {ℓ} {F : Type ℓ} ⦃f : Float F⦄ (tol : F) where
  unfoldable pub price_near : Option F → Option F → Bool
  price_near (some a) (some b) =
      if feq a nought && feq b nought
      then true
      else fle (fabs (f.sub a b)) (f.mul (fmax (fabs a) (fabs b)) tol)
  price_near _ _ = false

  -- `effective_entry or average`
  abbrev pub entry_of : Pretrade F → Option F
  entry_of p = elim p.effective_entry [
    | none ↦ p.average
    | some e ↦ if truthy e then some e else p.average
  ]

  abbrev pub match_of : LinkedFill F → Pretrade F → String → ExecMatchResult F
  match_of fill p order_type =
      let is_market = at_market order_type in
      let entry_match = if is_market then true else price_near (entry_of p) fill.price in
      record {
        pretrade_id = p.id;
        entry_match = entry_match;
        tp_match = price_near p.tp_price p.tp_price;
        sl_match = price_near p.sl_price p.sl_price;
        match_count = if entry_match then 1 else 0;
        auto_link = entry_match;
        is_market = is_market;
        pretrade_entry = entry_of p;
        pretrade_tp = p.tp_price;
        pretrade_sl = p.sl_price;
        fill_price = or_else fill.price nought;
      }

  unfoldable pub compute_exec_match :
      LinkedFill F → Pretrade F → String → Option ℕ → Option ℕ → ℕ → Option (ExecMatchResult F)
  compute_exec_match fill p order_type fill_ts_ms pretrade_ts_ms account_link_window_seconds =
      let window = or_else p.link_window_seconds_override account_link_window_seconds in
      if is_past fill_ts_ms pretrade_ts_ms window then none else some (match_of fill p order_type)

  abbrev pub status_of : Option (ExecMatchResult F) → LinkStatus × ℕ
  status_of none = (unlinked, 0)
  status_of (some r) =
      if r.auto_link
      then (linked, r.match_count)
      else if ltb 0 r.match_count
      then (partial, r.match_count)
      else (unlinked, 0)

  unfoldable pub get_exec_link_status :
      LinkedFill F → Option (Pretrade F) → String → Option ℕ → Option ℕ → ℕ → LinkStatus × ℕ
  unfolding compute_exec_match
  get_exec_link_status fill pretrade order_type fill_ts_ms pretrade_ts_ms
        account_link_window_seconds =
      if not (is_some (nonempty fill.calc_id))
      then (unlinked, 0)
      else if or_else fill.exec_link_confirmed false
      then (linked, 1)
      else elim pretrade [
        | none ↦ (unlinked, 0)
        | some p ↦ status_of (
            compute_exec_match fill p order_type fill_ts_ms pretrade_ts_ms
              account_link_window_seconds)
      ]
