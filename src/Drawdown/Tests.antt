-- ===== src/Drawdown/Tests.antt =====
-- Drawdowns at concrete inputs, in thousandths.
use quantamental_engine.Base.{ℕ, ◌*◌, List, [], ◌∷◌, ◌++◌, ◌≡◌, ◌≢◌, refl, arith}
use quantamental_engine.Base.Int.{ℤ, pos, ◌-ℤ◌, ◌*ℤ◌, quot}
use quantamental_engine.Float.{◌≼◌, nought, one, fmax}
use quantamental_engine.Float.Fixed.{fixed, fixed-IsOrdered, literal, times, divide}
use quantamental_engine.Drawdown.{
  ok, limit, day, compute_rolling_drawdown, dd_state_with_recovery, dd_state_from_drawdown, peak_of,
  derive_dd_evaluator, evaluator,
}
use quantamental_engine.Drawdown.Recovery.{
  run, highest, Consistent, run-Consistent, release_recovered, recovery_undone,
}

-- 9000 twenty days ago is outside a window of fourteen; 2000 was the peak.
abbrev series : List (ℕ × ℤ)
series = (10 * day, pos 9000) ∷ (20 * day, pos 2000) ∷ (25 * day, pos 1500) ∷ []

rolling_runs : compute_rolling_drawdown series (pos 1800) 14 (30 * day) ≡ (pos 100, pos 2000)
unfolding compute_rolling_drawdown peak_of divide quot ◌-ℤ◌ ◌*ℤ◌ literal
rolling_runs = refl

-- The scalping preset: warning at 0.04, limit at 0.08, recovery 0.5.
abbrev dds : List ℤ
dds = pos 100 ∷ pos 60 ∷ pos 50 ∷ []

evaluator_runs :
    (evaluator (pos 40) (pos 80) (pos 500) ok (pos 1000) day derive_dd_evaluator).0 ≡ ok
unfolding evaluator derive_dd_evaluator compute_rolling_drawdown dd_state_with_recovery
    dd_state_from_drawdown peak_of divide quot ◌-ℤ◌ ◌*ℤ◌ literal
evaluator_runs = refl

released : (run (pos 40) (pos 80) (pos 500) limit (pos 90) dds).0 ≢ limit
unfolding run dd_state_with_recovery dd_state_from_drawdown times quot ◌-ℤ◌ ◌*ℤ◌ literal
released = ground arith

release_recovered_example :
    (before : List ℤ) × (dd : ℤ) × (after : List ℤ) × (dds ≡ before ++ (dd ∷ after))
    × (run (pos 40) (pos 80) (pos 500) limit (pos 90) before
        ≡ (limit, highest (pos 40) (pos 80) (pos 500) (pos 90) before))
    × (dd ≼ times (fmax (highest (pos 40) (pos 80) (pos 500) (pos 90) before) dd) (one -ℤ pos 500))
unfolding literal
release_recovered_example =
    release_recovered (pos 40) (pos 80) (pos 500) fixed-IsOrdered (pos 90) dds refl released

run-Consistent_example :
    let (state', peak') = run (pos 40) (pos 80) (pos 500) ok (pos 0) dds in
    Consistent (pos 40) (pos 80) (pos 500) state' peak'
unfolding literal
run-Consistent_example =
    run-Consistent (pos 40) (pos 80) (pos 500) fixed-IsOrdered ok (pos 0) dds refl refl

recovery_undone_example :
    (run (pos 40) (pos 80) (pos 500) limit (pos 500) (pos 200 ∷ []) ≡ (ok, nought))
    × (run (pos 40) (pos 80) (pos 500) limit (pos 500) (pos 200 ∷ pos 200 ∷ []) ≡ (limit, pos 200))
unfolding literal times quot ◌-ℤ◌ ◌*ℤ◌
recovery_undone_example =
    recovery_undone (pos 40) (pos 80) (pos 500) fixed-IsOrdered (pos 200) (pos 500) refl refl refl
