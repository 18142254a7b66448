-- ===== src/RateLimit/Budget.antt =====
-- How far the requests of each priority may fill the budget of a window, and how long they wait.
use quantamental_engine.Base.{
  ℕ, ◌+◌, ◌*◌, ◌≤◌, ◌<◌, max, String, true, List, [], ◌∷◌, ◌≡◌, arith, All, leb, ltb, ◌&&◌,
  if◌then◌else◌, string_eq, nat_eq,
}
use quantamental_engine.RateLimit.{
  WeightTracker, ReserveResult, priority_thresholds, reserve, opened, maybe_reset_window,
  scaled_delay,
}

-- A request with its readings of the clock.
pub record Request : Type 0 where
  pub reset_ms : ℕ
  pub start_ms : ℕ
  pub delay_now : ℕ
  pub cost : ℕ
  pub priority : String

abbrev pub send : Request → WeightTracker → ReserveResult × WeightTracker
send r = reserve r.reset_ms r.start_ms r.delay_now r.cost r.priority

unfoldable pub run : List Request → WeightTracker → WeightTracker
run [] t = t
run (r ∷ rs) t = run rs (send r t).1

-- The weight of the window is below `pct` hundredths of the budget.
abbrev pub IsBelow : ℕ → WeightTracker → Type 0
IsBelow pct t = 100 * t.budget.current_weight < pct * t.max_weight

mul_le : (a b m : ℕ) → a ≤ b → a * m ≤ b * m
mul_le a b m h = grind arith

positive_of_IsBelow : (pct : ℕ) (t : WeightTracker) → IsBelow pct t → 0 < t.max_weight
positive_of_IsBelow pct t h = grind arith

opened-max_weight : (a b : ℕ) (t : WeightTracker) → (opened a b t).max_weight ≡ t.max_weight
unfolding opened maybe_reset_window
opened-max_weight a b t = ground arith

opened-IsBelow : (pct a b : ℕ) (t : WeightTracker) → IsBelow pct t → IsBelow pct (opened a b t)
unfolding opened maybe_reset_window
opened-IsBelow pct a b t h = ground arith

-- What `reserve` answers where the budget is positive, and the weight it leaves: a request is
-- refused exactly if it would bring the window to the threshold of its priority, and only a request
-- that is accepted is charged; an accepted one is throttled from the lower threshold on.
pub reserve_lem :
    (r : Request) (t : WeightTracker)
    → 0 < t.max_weight
    → let u = opened r.reset_ms r.start_ms t in
      let projected = u.budget.current_weight + r.cost in
      let (throttle_t, block_t) = priority_thresholds r.priority in
      let (answer, after) = send r t in
      (answer.ok ≡ ltb (100 * projected) (block_t * t.max_weight))
      × (after.budget.current_weight ≡ (if answer.ok then projected else u.budget.current_weight))
      × (answer.throttled ≡ (answer.ok && leb (throttle_t * t.max_weight) (100 * projected)))
      × (after.max_weight ≡ t.max_weight)
unfolding reserve
reserve_lem r t h = ground (arith, opened-max_weight r.reset_ms r.start_ms t)

send-IsBelow :
    (pct : ℕ) (r : Request) (t : WeightTracker)
    → (priority_thresholds r.priority).1 ≤ pct
    → IsBelow pct t
    → IsBelow pct (send r t).1
send-IsBelow pct r t h k = ground (
  arith,
  opened-IsBelow pct r.reset_ms r.start_ms t k,
  reserve_lem r t (positive_of_IsBelow pct t k),
  opened-max_weight r.reset_ms r.start_ms t,
  mul_le (priority_thresholds r.priority).1 pct t.max_weight h,
)

-- Requests whose priorities are refused from `pct` hundredths of the budget on leave a window that
-- is below that fraction below it, in every order and at every reading of the clock.
pub run-IsBelow :
    (pct : ℕ) (rs : List Request) (t : WeightTracker)
    → All (λ r. (priority_thresholds r.priority).1 ≤ pct) rs
    → IsBelow pct t
    → IsBelow pct (run rs t)
unfolding run
run-IsBelow pct [] t h k = k
run-IsBelow pct (r ∷ rs) t h k = run-IsBelow pct rs (send r t).1 h.1 (send-IsBelow pct r t h.0 k)

-- A request that is not sent before its window starts waits at most as long as the window lasts, or
-- a second if that is longer.
pub delay_bounded :
    (r : Request) (t : WeightTracker)
    → (opened r.reset_ms r.start_ms t).budget.window_start_ms ≤ r.delay_now
    → (send r t).0.delay_ms ≤ max (t.window_seconds * 1000) 1000
unfolding reserve scaled_delay opened maybe_reset_window
delay_bounded r t h = ground arith

-- A lower tier is never served where a higher one is refused: at the same state and readings, what
-- background traffic may do so may normal traffic, and what normal traffic may do so may urgent.
pub tiers_ordered :
    (r : Request) (t : WeightTracker)
    → let answers = λ (priority : String). (send (record r { priority = priority }) t).0.ok in
      (answers "background" ≡ true → answers "normal" ≡ true)
      × (answers "normal" ≡ true → answers "urgent" ≡ true)
unfolding reserve priority_thresholds
tiers_ordered r t = ground arith
