-- ===== src/Gate/Shadow.antt =====
-- The event that reports a block which the advisory mode did not enforce.
use quantamental_engine.Base.{
  ℕ, ◌+◌, ◌≤◌, List, [], ◌∷◌, ◌++◌, ◌==◌, nat_eq, contains, ◌≡◌, arith, if◌then◌else◌,
}
use quantamental_engine.Float.{Float}
use quantamental_engine.Gate.{
  Reading, Logged, Event, would_have_blocked_dd, calculator_blocked, evaluate, check_dd_gate,
}

-- The number of shadow events of an account in the log.
unfoldable pub shadows : ℕ → List Event → ℕ
shadows a [] = 0
shadows a (would_have_blocked_dd b ∷ es) = (if a == b then 1 else 0) + shadows a es
shadows a (calculator_blocked b ∷ es) = shadows a es

shadows-append :
    (a : ℕ) (es : List Event) (e : Event)
    → shadows a (es ++ (e ∷ [])) ≡ shadows a es + shadows a (e ∷ [])
unfolding shadows
shadows-append a [] e = omega arith
shadows-append a (would_have_blocked_dd b ∷ es) e = omega (arith, shadows-append a es e)
shadows-append a (calculator_blocked b ∷ es) e = shadows-append a es e

-- The log has no shadow event of an account that the set lacks, and one at most of any other.
abbrev pub IsDeduplicated : ℕ → Logged → Type 0
IsDeduplicated a l =
    shadows a l.events ≤ (if contains a l.dd_would_have_blocked_logged then 1 else 0)

module _ {ℓ} {F : Type ℓ} ⦃f : Float F⦄ where
  evaluate-IsDeduplicated :
      (a : ℕ) (r : Reading F) (l : Logged) → IsDeduplicated a l → IsDeduplicated a (evaluate r l).1
  unfolding evaluate check_dd_gate shadows
  evaluate-IsDeduplicated a r l h = ground (
    arith,
    shadows-append a l.events (calculator_blocked r.active_account_id),
    shadows-append a l.events (would_have_blocked_dd r.active_account_id),
  )

  unfoldable pub run_evaluate : List (Reading F) → Logged → Logged
  run_evaluate [] l = l
  run_evaluate (r ∷ rs) l = run_evaluate rs (evaluate r l).1

  -- From a log with no shadow event that the set does not know of and one at most that it does,
  -- evaluating readiness however often, on whatever readings, leaves at most one shadow event of an
  -- account, as long as the set is not cleared in between.
  pub shadow_once :
      (a : ℕ) (rs : List (Reading F)) (l : Logged)
      → IsDeduplicated a l
      → shadows a (run_evaluate rs l).events ≤ 1
  unfolding run_evaluate
  shadow_once a [] l h = ground arith
  shadow_once a (r ∷ rs) l h = shadow_once a rs (evaluate r l).1 (evaluate-IsDeduplicated a r l h)
