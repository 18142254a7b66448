-- ===== src/Gaps.antt =====
-- core/equity_gap_detector.py: the stretches of time without a snapshot of the account. A row of
-- `account_snapshots` is its account, the text of its time, and the milliseconds that the text reads as,
-- none where it does not parse. The window is given by its two texts.
pub mod Silence
mod Tests
use quantamental_engine.Base.{
  ℕ, ◌-◌, ◌*◌, String, Bool, true, false, ◌&&◌, Option, none, some, List, [], ◌∷◌, ◌==◌, nat_eq,
  if◌then◌else◌, ltb, filter, length, map,
}
use quantamental_engine.Base.Text.{text_le, sorted}

pub record Gap : Type 0 where
  pub start_ms : ℕ
  pub end_ms : ℕ
  pub duration_ms : ℕ

pub record SnapshotRow : Type 0 where
  pub account_id : ℕ
  pub snapshot_ts : String
  pub read_ms : Option ℕ

-- the times that parse
unfoldable pub timestamps_ms : List SnapshotRow → List ℕ
timestamps_ms [] = []
timestamps_ms (r ∷ rows) =
    let rest = timestamps_ms rows in elim r.read_ms [ none ↦ rest | some t ↦ t ∷ rest ]

-- the gaps after a time that is read; the difference of a time before it is below any threshold
unfoldable pub gaps_from : ℕ → ℕ → List ℕ → List Gap
gaps_from threshold_ms previous [] = []
gaps_from threshold_ms previous (t ∷ ts) =
    let rest = gaps_from threshold_ms t ts in
    let delta_ms = t - previous in
    if ltb threshold_ms delta_ms
    then record { start_ms = previous; end_ms = t; duration_ms = delta_ms } ∷ rest
    else rest

unfoldable pub gaps_of : ℕ → List ℕ → List Gap
unfolding gaps_from
gaps_of threshold_ms [] = []
gaps_of threshold_ms (t ∷ ts) = gaps_from threshold_ms t ts

abbrev pub in_period : ℕ → String → String → SnapshotRow → Bool
in_period account_id since_iso until_iso r =
    r.account_id == account_id && text_le since_iso r.snapshot_ts && text_le r.snapshot_ts until_iso

-- `none` where the database cannot be read
unfoldable pub detect_gaps : Option (List SnapshotRow) → ℕ → String → String → ℕ → List Gap
unfolding gaps_of timestamps_ms
detect_gaps none account_id since_iso until_iso expected_interval_seconds = []
detect_gaps (some table) account_id since_iso until_iso expected_interval_seconds =
    let threshold_ms = expected_interval_seconds * 2 * 1000 in
    let rows =
      sorted (λ r. r.snapshot_ts) (filter (in_period account_id since_iso until_iso) table) in
    if ltb (length rows) 2 then [] else gaps_of threshold_ms (timestamps_ms rows)
