-- ===== src/Monitoring/Ring.antt =====
-- The ring buffer against a log that is never cut.
use quantamental_engine.Base.{
  ℕ, zero, suc, ◌+◌, ◌-◌, ◌≤◌, String, false, List, [], ◌∷◌, ◌++◌, map, ltb, length, drop,
  take_last, length-append, length-drop, ◌≡◌, refl, ◌∙◌, ap, sym, arith, Bool-cases, inl, inr,
}
use quantamental_engine.Monitoring.{
  MonitoringEvent, event_buffer_max, new_event, trim, emit, resolve_event, resolve,
}

pub data Op : Type 0 where
  emitted : ℕ → String → String → Op
  resolved_all : ℕ → String → Op

-- the log: nothing is ever dropped
unfoldable pub log_op : Op → List MonitoringEvent → List MonitoringEvent
log_op (emitted now kind severity) es = es ++ (new_event now kind severity ∷ [])
log_op (resolved_all now kind) es = map (resolve_event now kind) es

unfoldable pub run_log : List Op → List MonitoringEvent → List MonitoringEvent
unfolding log_op
run_log [] es = es
run_log (op ∷ ops) es = run_log ops (log_op op es)

unfoldable pub ring_op : Op → List MonitoringEvent → List MonitoringEvent
unfolding emit resolve
ring_op (emitted now kind severity) es = emit now kind severity es
ring_op (resolved_all now kind) es = resolve now kind es

unfoldable pub run_ring : List Op → List MonitoringEvent → List MonitoringEvent
unfolding ring_op
run_ring [] es = es
run_ring (op ∷ ops) es = run_ring ops (ring_op op es)

module _ {ℓ} {A : Type ℓ} where
  pub drop-append : (k : ℕ) (xs ys : List A) → k ≤ length xs → drop k (xs ++ ys) ≡ drop k xs ++ ys
  drop-append zero xs ys h = refl
  drop-append (suc k) [] ys h = absurd (omega arith)
  drop-append (suc k) (x ∷ xs) ys h = drop-append k xs ys (omega arith)

  drop-nil : (k : ℕ) → drop {A = A} k [] ≡ []
  drop-nil zero = refl
  drop-nil (suc k) = refl

  drop-drop : (k m : ℕ) (xs : List A) → drop m (drop k xs) ≡ drop (k + m) xs
  drop-drop zero m xs = ap (λ n. drop n xs) (omega arith)
  drop-drop (suc k) m [] = drop-nil m ∙ sym (drop-nil (suc k + m))
  drop-drop (suc k) m (x ∷ xs) = drop-drop k m xs ∙ ap (λ n. drop n (x ∷ xs)) shift
    where
      shift : suc (k + m) ≡ suc k + m
      shift = omega arith

  -- Cutting the front off first, as long as n entries are left, changes nothing.
  take_last-drop :
      (n k : ℕ) (xs : List A) → k ≤ length xs - n → take_last n (drop k xs) ≡ take_last n xs
  take_last-drop n k xs h = drop-drop k (length (drop k xs) - n) xs ∙ ap (λ m. drop m xs) same
    where
      same : k + (length (drop k xs) - n) ≡ length xs - n
      same = omega (arith, length-drop k xs)

module _ {ℓ κ} {A : Type ℓ} {B : Type κ} (g : A → B) where
  length-map : (xs : List A) → length (map g xs) ≡ length xs
  length-map [] = refl
  length-map (x ∷ xs) = ap suc (length-map xs)

  map-drop : (k : ℕ) (xs : List A) → map g (drop k xs) ≡ drop k (map g xs)
  map-drop zero xs = refl
  map-drop (suc k) [] = refl
  map-drop (suc k) (x ∷ xs) = map-drop k xs

  map-take_last : (n : ℕ) (xs : List A) → map g (take_last n xs) ≡ take_last n (map g xs)
  map-take_last n xs =
      map-drop (length xs - n) xs ∙ ap (λ m. drop (m - n) (map g xs)) (sym (length-map xs))

pub trim_lem : (es : List MonitoringEvent) → trim es ≡ take_last event_buffer_max es
trim_lem es = elim (Bool-cases (ltb event_buffer_max (length es))) [
  | inl long ↦ rw long refl
  | inr short ↦ rw short (ap (λ m. drop m es) (zero_of es short))
]
  where
    zero_of :
        (es : List MonitoringEvent)
        → ltb event_buffer_max (length es) ≡ false
        → zero ≡ length es - event_buffer_max
    zero_of es short = ground arith

ring_op_refines :
    (op : Op) (es : List MonitoringEvent)
    → ring_op op (take_last event_buffer_max es) ≡ take_last event_buffer_max (log_op op es)
unfolding ring_op log_op
ring_op_refines (emitted now kind severity) es =
    let e = new_event now kind severity ∷ [] in
    let k = length es - event_buffer_max in
    trim_lem (drop k es ++ e)
    ∙ ap (take_last event_buffer_max) (sym (drop-append k es e (omega arith)))
    ∙ take_last-drop event_buffer_max k (es ++ e) (omega (arith, length-append es e))
ring_op_refines (resolved_all now kind) es =
    map-take_last (resolve_event now kind) event_buffer_max es

-- Whatever is emitted and resolved, in whatever order, the buffer holds the last hundred events of a log
-- that is never cut, as the log has them: with their resolutions.
pub run_ring_refines :
    (ops : List Op) (log : List MonitoringEvent)
    → run_ring ops (take_last event_buffer_max log) ≡ take_last event_buffer_max (run_log ops log)
unfolding run_ring run_log
run_ring_refines [] log = refl
run_ring_refines (op ∷ ops) log =
    ap (run_ring ops) (ring_op_refines op log) ∙ run_ring_refines ops (log_op op log)
