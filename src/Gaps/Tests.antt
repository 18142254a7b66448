-- ===== src/Gaps/Tests.antt =====
-- Snapshots every minute, with a silence of half an hour.
use mathlib.Core.List.Memᴰ
use quantamental_engine.Base.{
  ℕ, String, none, some, List, [], ◌∷◌, string_eq, nat_eq, ◌≡◌, refl, arith, inl, inr,
}
use quantamental_engine.Base.Text.{sorted, text_le}
use quantamental_engine.Gaps.{SnapshotRow, detect_gaps, timestamps_ms}
use quantamental_engine.Gaps.Silence.{HasGap, detect_gaps_lem}

abbrev row : String → ℕ → SnapshotRow
row ts ms = record { account_id = 1; snapshot_ts = ts; read_ms = some ms }

abbrev table : List SnapshotRow
table =
    row "2024-03-02T10:31" 1860000
    ∷ row "2024-03-02T10:00" 0
    ∷ record (row "2024-03-02T10:09" 0) { read_ms = none }
    ∷ row "2024-03-02T10:01" 60000
    ∷ record (row "2024-03-02T10:20" 1200000) { account_id = 2 }
    ∷ []

one_gap :
    detect_gaps (some table) 1 "2024-03-02" "2024-03-03" 600
    ≡ record { start_ms = 60000; end_ms = 1860000; duration_ms = 1800000 } ∷ []
unfolding detect_gaps sorted text_le
one_gap = refl

detect_gaps_lem_example :
    HasGap 1200000 100000 1800000 (detect_gaps (some table) 1 "2024-03-02" "2024-03-03" 600)
unfolding timestamps_ms sorted text_le
detect_gaps_lem_example =
    detect_gaps_lem table 1 "2024-03-02" "2024-03-03" 600 0 100000 1800000 (60000 ∷ 1860000 ∷ [])
      refl (omega arith) (omega arith) (inl (omega arith), (inr (omega arith), tt))
      (1860000, Memᴰ.tail (Memᴰ.head refl), omega arith)
