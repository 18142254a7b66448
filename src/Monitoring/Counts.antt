-- ===== src/Monitoring/Counts.antt =====
-- What emitting, resolving and the trim do to the number of open events of a kind.
use quantamental_engine.Base.{
  ℕ, zero, suc, ◌-◌, ◌≤◌, String, Bool, true, false, ◌&&◌, not, List, [], ◌∷◌, ◌++◌, ◌==◌,
  string_eq, eq_iff, if◌then◌else◌, length, drop, length-append, length-drop, ◌≡◌, refl, ap, arith,
  Bool-cases, inl, inr, nat_eq,
}
use quantamental_engine.Monitoring.{
  MonitoringEvent, event_buffer_max, new_event, emit, resolve, is_active, watch,
}
use quantamental_engine.Monitoring.Ring.{trim_lem, drop-append}

-- the number of events of a kind that are not resolved
unfoldable pub active_count : String → List MonitoringEvent → ℕ
active_count kind [] = 0
active_count kind (e ∷ es) =
    let rest = active_count kind es in if e.kind == kind && not e.resolved then suc rest else rest

pub active_count-drop :
    (kind : String) (k : ℕ) (es : List MonitoringEvent)
    → active_count kind (drop k es) ≤ active_count kind es
unfolding active_count
active_count-drop kind zero es = omega arith
active_count-drop kind (suc k) [] = omega arith
active_count-drop kind (suc k) (e ∷ es) = ground (arith, active_count-drop kind k es)

pub active_count-emit :
    (kind : String) (es : List MonitoringEvent) (now : ℕ) (k severity : String)
    → active_count kind (es ++ (new_event now k severity ∷ []))
      ≡ (if k == kind then suc (active_count kind es) else active_count kind es)
unfolding active_count
active_count-emit kind [] now k severity = ground arith
active_count-emit kind (e ∷ es) now k severity =
    ground (arith, active_count-emit kind es now k severity)

pub inactive_zero :
    (kind : String) (es : List MonitoringEvent)
    → is_active kind es ≡ false
    → active_count kind es ≡ 0
unfolding active_count
inactive_zero kind [] h = refl
inactive_zero kind (e ∷ es) h = ground (arith, inactive_zero kind es)

pub active_count-resolve :
    (kind : String) (now : ℕ) (k : String) (es : List MonitoringEvent)
    → active_count kind (resolve now k es) ≤ active_count kind es
unfolding active_count resolve
active_count-resolve kind now k [] = omega arith
active_count-resolve kind now k (e ∷ es) = ground (arith, active_count-resolve kind now k es)

length-resolve :
    (now : ℕ) (k : String) (es : List MonitoringEvent) → length (resolve now k es) ≡ length es
unfolding resolve
length-resolve now k [] = refl
length-resolve now k (e ∷ es) = ap suc (length-resolve now k es)

-- At most a hundred events, and of each kind at most one that is not resolved.
unfoldable pub IsTidy : List MonitoringEvent → Type 0
IsTidy es = (length es ≤ event_buffer_max) × ((kind : String) → active_count kind es ≤ 1)

emit-IsTidy :
    (now : ℕ) (k severity : String) (es : List MonitoringEvent)
    → is_active k es ≡ false
    → IsTidy es
    → IsTidy (emit now k severity es)
unfolding IsTidy emit
emit-IsTidy now k severity es off (short, once) =
    let es' = es ++ (new_event now k severity ∷ []) in
    let n = length es' - event_buffer_max in
    rw (trim_lem es') (
      omega (arith, length-drop n es'),
      λ kind. ground (
        arith,
        active_count-drop kind n es',
        active_count-emit kind es now k severity,
        inactive_zero k es off,
        eq_iff k kind,
        once kind,
      ),
    )

pub watch-IsTidy :
    (now : ℕ) (k severity : String) (bad : Bool) (es : List MonitoringEvent)
    → IsTidy es
    → IsTidy (watch now k severity bad es)
unfolding watch IsTidy
watch-IsTidy now k severity true es t = elim (Bool-cases (is_active k es)) [
  | inl on ↦ rw on t
  | inr off ↦ rw off (emit-IsTidy now k severity es off t)
]
watch-IsTidy now k severity false es (short, once) = (
  omega (arith, length-resolve now k es),
  λ kind. omega (arith, active_count-resolve kind now k es, once kind),
)

pub resolve-IsTidy :
    (now : ℕ) (k : String) (es : List MonitoringEvent) → IsTidy es → IsTidy (resolve now k es)
unfolding IsTidy
resolve-IsTidy now k es (short, once) = (
  omega (arith, length-resolve now k es),
  λ kind. omega (arith, active_count-resolve kind now k es, once kind),
)

any-append :
    (kind : String) (es : List MonitoringEvent) (now : ℕ) (severity : String)
    → is_active kind (es ++ (new_event now kind severity ∷ [])) ≡ true
any-append kind [] now severity = ground (arith, eq_iff kind kind)
any-append kind (e ∷ es) now severity = ground (arith, any-append kind es now severity)

resolve_inactive :
    (kind : String) (now : ℕ) (es : List MonitoringEvent)
    → is_active kind (resolve now kind es) ≡ false
unfolding resolve
resolve_inactive kind now [] = refl
resolve_inactive kind now (e ∷ es) = ground (arith, resolve_inactive kind now es)

emit_active :
    (now : ℕ) (kind severity : String) (es : List MonitoringEvent)
    → length es ≤ event_buffer_max
    → is_active kind (emit now kind severity es) ≡ true
unfolding emit
emit_active now kind severity es short =
    let e = new_event now kind severity ∷ [] in
    let n = length (es ++ e) - event_buffer_max in
    rw (trim_lem (es ++ e), drop-append n es e (omega (arith, length-append es e)))
      (any-append kind (drop n es) now severity)

-- After a check, its alert is open exactly if the condition holds.
pub watch_lem :
    (now : ℕ) (kind severity : String) (bad : Bool) (es : List MonitoringEvent)
    → IsTidy es
    → is_active kind (watch now kind severity bad es) ≡ bad
unfolding watch IsTidy
watch_lem now kind severity true es t = elim (Bool-cases (is_active kind es)) [
  | inl on ↦ rw on on
  | inr off ↦ rw off (emit_active now kind severity es t.0)
]
watch_lem now kind severity false es t = resolve_inactive kind now es
