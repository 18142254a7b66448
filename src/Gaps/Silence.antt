-- ===== src/Gaps/Silence.antt =====
-- Every silence that is long enough lies in a gap that is found.
use mathlib.Core.List.Memᴰ
use mathlib.Core.List.{Memᴰ}
use quantamental_engine.Base.{
  ℕ, ◌-◌, ◌+◌, ◌*◌, ◌≤◌, ◌<◌, String, true, false, some, List, [], ◌∷◌, All, ltb, filter, length,
  ◌≡◌, ◌⊎◌, refl, ap, arith, Bool-cases, inl, inr,
}
use quantamental_engine.Base.Text.{sorted}
use quantamental_engine.Gaps.{
  Gap, SnapshotRow, timestamps_ms, gaps_from, gaps_of, in_period, detect_gaps,
}

-- no time lies between the two
abbrev pub IsSilent : ℕ → ℕ → List ℕ → Type 0
IsSilent a b ts = All (λ t. (t ≤ a) ⊎ (b ≤ t)) ts

-- a gap of the list from the one to the other at least
abbrev pub HasGap : ℕ → ℕ → ℕ → List Gap → Type 0
HasGap threshold_ms a b gaps =
    (g : Gap) × Memᴰ g gaps
    × (g.start_ms ≤ a)
    × (b ≤ g.end_ms)
    × (threshold_ms < g.duration_ms)
    × (g.duration_ms ≡ g.end_ms - g.start_ms)

-- some time is at or after the second
abbrev pub IsReached : ℕ → List ℕ → Type 0
IsReached b ts = (t : ℕ) × Memᴰ t ts × (b ≤ t)

gaps_from-HasGap :
    (threshold_ms previous a b : ℕ) (ts : List ℕ)
    → previous ≤ a
    → a + threshold_ms < b
    → IsSilent a b ts
    → IsReached b ts
    → HasGap threshold_ms a b (gaps_from threshold_ms previous ts)
unfolding gaps_from
gaps_from-HasGap threshold_ms previous a b [] h wide silent (t, inside, late) =
    absurd (Memᴰ.not-nil inside)
gaps_from-HasGap threshold_ms previous a b (x ∷ ts) h wide (inr after, silent) reached =
    let long : ltb threshold_ms (x - previous) ≡ true = ground arith in
    rw long (
      record { start_ms = previous; end_ms = x; duration_ms = x - previous },
      Memᴰ.head refl,
      h,
      after,
      omega arith,
      refl,
    )
gaps_from-HasGap threshold_ms previous a b (x ∷ ts) h wide (inl before, silent) (t, inside, late) =
    let too_late : t ≡ x → ⊥ = λ here. omega (arith, here) in
    let later : Memᴰ t ts = elim (Memᴰ.cases_cons inside) [
      | inl here ↦ absurd (too_late here)
      | inr there ↦ there
    ] in
    let (g, g_in, from, to, long, exact) =
      gaps_from-HasGap threshold_ms x a b ts before wide silent (t, later, late) in
    elim (Bool-cases (ltb threshold_ms (x - previous))) [
      | inl on ↦ rw on (g, Memᴰ.tail g_in, from, to, long, exact)
      | inr off ↦ rw off (g, g_in, from, to, long, exact)
    ]

length-timestamps_ms-le : (rows : List SnapshotRow) → length (timestamps_ms rows) ≤ length rows
unfolding timestamps_ms
length-timestamps_ms-le [] = omega arith
length-timestamps_ms-le (r ∷ rows) = ground (arith, length-timestamps_ms-le rows)

not_empty : (b : ℕ) (ts : List ℕ) → IsReached b ts → 1 ≤ length ts
not_empty b [] (t, inside, late) = absurd (Memᴰ.not-nil inside)
not_empty b (x ∷ ts) reached = omega arith

-- A stretch of time within the snapshots of the period that is longer than twice the expected interval,
-- and in which no snapshot falls, lies in a gap that is found, whose duration is exact and above the
-- threshold too. Rows whose time does not parse do not count.
pub detect_gaps_lem :
    (table : List SnapshotRow) (account_id : ℕ) (since_iso until_iso : String)
    (seconds first a b : ℕ) (ts : List ℕ)
    → timestamps_ms
        (sorted (λ r. r.snapshot_ts) (filter (in_period account_id since_iso until_iso) table))
      ≡ first ∷ ts
    → first ≤ a
    → a + seconds * 2 * 1000 < b
    → IsSilent a b ts
    → IsReached b ts
    → HasGap
        (seconds * 2 * 1000)
        a
        b
        (detect_gaps (some table) account_id since_iso until_iso seconds)
unfolding detect_gaps gaps_of
detect_gaps_lem table account_id since_iso until_iso seconds first a b ts times h wide silent
      reached =
    let rows =
      sorted (λ r. r.snapshot_ts) (filter (in_period account_id since_iso until_iso) table) in
    let enough : ltb (length rows) 2 ≡ false =
      ground (arith, ap length times, length-timestamps_ms-le rows, not_empty b ts reached) in
    rw (enough, times) (gaps_from-HasGap (seconds * 2 * 1000) first a b ts h wide silent reached)
