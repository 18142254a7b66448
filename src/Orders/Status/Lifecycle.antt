-- ===== src/Orders/Status/Lifecycle.antt =====
-- The lifecycle of an order as a relation, independent of the table of transitions.
use quantamental_engine.Base.{
  ℕ, ◌≤◌, ◌<◌, ◌≡◌, refl, ◌↔◌, inl, inr, String, Bool, true, some, List, [], ◌∷◌, arith, contains,
  Option-cases, eq_iff, length, ◌&&◌,
}
use quantamental_engine.Orders.Status.{
  OrderStatus, new, partially_filled, filled, canceled, expired, rejected, value, order_status,
  valid_transitions, validate_transition, terminal_states, status_eq,
}

-- Reading back the value of a status gives the status, so the six texts are distinct.
pub order_status-value : (s : OrderStatus) → order_status (value s) ≡ some s
unfolding order_status value
order_status-value new = refl
order_status-value partially_filled = refl
order_status-value filled = refl
order_status-value canceled = refl
order_status-value expired = refl
order_status-value rejected = refl

pub order_status-eq : (t : String) {s : OrderStatus} → order_status t ≡ some s → t ≡ value s
unfolding order_status value
order_status-eq t h = ground (
  arith,
  eq_iff t "new",
  eq_iff t "partially_filled",
  eq_iff t "filled",
  eq_iff t "canceled",
  eq_iff t "expired",
  eq_iff t "rejected",
)

pub data IsActive : OrderStatus → Type 0 where
  is_new : IsActive new
  is_partial : IsActive partially_filled

-- What may become of an order.
pub data Step : OrderStatus → OrderStatus → Type 0 where
  fill_part : Step new partially_filled
  fill_all : {s : OrderStatus} → IsActive s → Step s filled
  cancel : {s : OrderStatus} → IsActive s → Step s canceled
  expire : Step new expired
  reject : Step new rejected

-- How many changes an order may still go through.
abbrev pub rank : OrderStatus → ℕ
rank new = 2
rank partially_filled = 1
rank _ = 0

pub rank-Step : {s t : OrderStatus} → Step s t → rank t < rank s
rank-Step fill_part = omega arith
rank-Step (fill_all is_new) = omega arith
rank-Step (fill_all is_partial) = omega arith
rank-Step (cancel is_new) = omega arith
rank-Step (cancel is_partial) = omega arith
rank-Step expire = omega arith
rank-Step reject = omega arith

ruleset steps = (fill_part, fill_all, cancel, expire, reject, is_new, is_partial)

Step-of_listed : (s t : OrderStatus) → contains t (valid_transitions s) ≡ true → Step s t
Step-of_listed s t h = grind (arith, steps)

listed-of_Step : {s t : OrderStatus} → Step s t → contains t (valid_transitions s) ≡ true
listed-of_Step fill_part = refl
listed-of_Step (fill_all is_new) = refl
listed-of_Step (fill_all is_partial) = refl
listed-of_Step (cancel is_new) = refl
listed-of_Step (cancel is_partial) = refl
listed-of_Step expire = refl
listed-of_Step reject = refl

abbrev pub Allowed : String → String → Type 0
Allowed c t =
    (s : OrderStatus) × (u : OrderStatus) × (order_status c ≡ some s)
    × (order_status t ≡ some u)
    × Step s u

Allowed-of_valid : (c t : String) → validate_transition c t ≡ true → Allowed c t
unfolding validate_transition
Allowed-of_valid c t h = elim (Option-cases (order_status t)) [
  | inl e ↦ ground arith
  | inr (u, eu) ↦ elim (Option-cases (order_status c)) [
    | inl e ↦ ground arith
    | inr (s, es) ↦ (s, u, es, eu, Step-of_listed s u (ground arith))
  ]
]

valid-of_Allowed : (c t : String) → Allowed c t → validate_transition c t ≡ true
unfolding validate_transition
valid-of_Allowed c t (s, u, es, eu, st) = ground (arith, listed-of_Step st)

-- A transition is accepted exactly when both texts name statuses and the lifecycle has a step from
-- the one to the other; any other text is refused.
pub validate_transition_iff : (c t : String) → (validate_transition c t ≡ true) ↔ Allowed c t
validate_transition_iff c t = (Allowed-of_valid c t, valid-of_Allowed c t)

-- Every change along a list of statuses is accepted.
unfoldable pub accepts : String → List String → Bool
accepts c [] = true
accepts c (t ∷ ts) = validate_transition c t && accepts t ts

accepts-rank :
    (c : String) (ts : List String) (s : OrderStatus)
    → order_status c ≡ some s
    → accepts c ts ≡ true
    → length ts ≤ rank s
unfolding accepts
accepts-rank c [] s e h = omega arith
accepts-rank c (t ∷ ts) s e h =
    let (s', u, es, eu, st) = Allowed-of_valid c t (ground arith) in
    let same : s ≡ s' = ground arith in
    let tail : length ts ≤ rank u = accepts-rank t ts u eu (ground arith) in
    let fall : rank u < rank s = rw same (rank-Step st) in omega arith

accepts-length : (c : String) (ts : List String) → accepts c ts ≡ true → length ts ≤ 2
unfolding accepts
accepts-length c [] h = omega arith
accepts-length c (t ∷ ts) h =
    let (s, u, es, eu, st) = Allowed-of_valid c t (ground arith) in
    let all : length (t ∷ ts) ≤ rank s = accepts-rank c (t ∷ ts) s es h in
    let top : rank s ≤ 2 = ground arith in omega arith

-- From any known status, at most two changes in a row are ever accepted, and after a status in
-- `TERMINAL_STATES` none is.
pub accepted_runs :
    (c : String) (ts : List String) {s : OrderStatus}
    → order_status c ≡ some s
    → accepts c ts ≡ true
    → (length ts ≤ 2) × (contains s terminal_states ≡ true → ts ≡ [])
accepted_runs c ts {s} e h =
    (accepts-length c ts h, λ term. none_left ts (accepts-rank c ts s e h) (ground arith))
  where
    none_left : (us : List String) → length us ≤ rank s → rank s ≡ 0 → us ≡ []
    none_left [] _ _ = refl
    none_left (u ∷ us) l z = absurd (omega arith)
