-- ===== src/Regime/Search.antt =====
-- The binary search finds what a scan of the whole series finds, and ends within as many rounds as the
-- series has entries.
use quantamental_engine.Base.{
  ℕ, zero, suc, ◌+◌, ◌-◌, ◌/◌, ◌≤◌, ◌<◌, String, true, false, Option, none, some, List, [], ◌∷◌,
  if◌then◌else◌, leb, length, All, ◌≡◌, refl, ◌∙◌, ap, sym, arith, Bool-cases, inl, inr, no_both,
  subst,
}
use quantamental_engine.Base.Text.{text_le, text_le_trans}
use quantamental_engine.Regime.{Entry, get_elem?, search, lookup_nearest}

suc_eq : (n : ℕ) → suc n ≡ n + 1
suc_eq n = omega arith

between : (lo hi : ℕ) → leb hi lo ≡ false → (lo ≤ (lo + hi - 1) / 2) × ((lo + hi - 1) / 2 < hi)
between lo hi h = ground arith

module _ {ℓ} {F : Type ℓ} where
  -- the dates in order
  abbrev pub IsSorted : List (Entry F) → Type 0
  IsSorted [] = Unit
  IsSorted (e ∷ es) = All (λ g. text_le e.date g.date ≡ true) es × IsSorted es

  -- A scan: the value of the last entry at or before the target.
  unfoldable pub latest : String → List (Entry F) → Option F → Option F
  latest target [] result = result
  latest target (e ∷ es) result =
      latest target es (if text_le e.date target then some e.value else result)

  -- the number of entries at the front that are at or before the target
  unfoldable pub reached : String → List (Entry F) → ℕ
  reached target [] = 0
  reached target (e ∷ es) =
      let rest = reached target es in if text_le e.date target then suc rest else 0

  value_of : Option (Entry F) → Option F
  value_of none = none
  value_of (some e) = some e.value

  -- the value before an index
  value_before : Option F → List (Entry F) → ℕ → Option F
  unfolding value_of
  value_before start es zero = start
  value_before start es (suc i) = value_of (get_elem? es i)

  reached-le : (target : String) (es : List (Entry F)) → reached target es ≤ length es
  unfolding reached
  reached-le target [] = omega arith
  reached-le target (e ∷ es) = ground (arith, reached-le target es)

  in_range :
      (es : List (Entry F)) (i : ℕ) → i < length es → (e : Entry F) × (get_elem? es i ≡ some e)
  in_range [] i h = absurd (omega arith)
  in_range (e ∷ es) zero h = (e, refl)
  in_range (e ∷ es) (suc i) h = in_range es i (omega arith)

  before_target :
      (target : String) (es : List (Entry F)) (i : ℕ) (e : Entry F)
      → i < reached target es
      → get_elem? es i ≡ some e
      → text_le e.date target ≡ true
  unfolding reached
  before_target target [] i e h k = cc
  before_target target (g ∷ es) zero e h k = ground arith
  before_target target (g ∷ es) (suc i) e h k = ground (arith, before_target target es i e)

  later_false :
      (target : String) (g : Entry F) (es : List (Entry F)) (i : ℕ) (e : Entry F)
      → All (λ x. text_le g.date x.date ≡ true) es
      → text_le g.date target ≡ false
      → get_elem? es i ≡ some e
      → text_le e.date target ≡ false
  later_false target g [] i e h off k = cc
  later_false target g (x ∷ es) zero e h off k =
      ground (arith, text_le_trans g.date x.date target h.0)
  later_false target g (x ∷ es) (suc i) e h off k = later_false target g es i e h.1 off k

  after_target :
      (target : String) (es : List (Entry F)) (i : ℕ) (e : Entry F)
      → IsSorted es
      → reached target es ≤ i
      → get_elem? es i ≡ some e
      → text_le e.date target ≡ false
  unfolding reached
  after_target target [] i e s h k = cc
  after_target target (g ∷ es) zero e s h k = ground arith
  after_target target (g ∷ es) (suc i) e s h k =
      ground (arith, after_target target es i e s.1, later_false target g es i e s.0)

  latest_off :
      (target : String) (g : Entry F) (es : List (Entry F)) (result : Option F)
      → All (λ x. text_le g.date x.date ≡ true) es
      → text_le g.date target ≡ false
      → latest target es result ≡ result
  unfolding latest
  latest_off target g [] result h off = refl
  latest_off target g (x ∷ es) result h off =
      ground (arith, text_le_trans g.date x.date target h.0, latest_off target g es result h.1 off)

  value_shift :
      (start : Option F) (e : Entry F) (es : List (Entry F)) (n : ℕ)
      → value_before (some e.value) es n ≡ value_before start (e ∷ es) (suc n)
  unfolding value_before value_of
  value_shift start e es zero = refl
  value_shift start e es (suc n) = refl

  latest-value_before :
      (target : String) (es : List (Entry F)) (start : Option F)
      → IsSorted es
      → latest target es start ≡ value_before start es (reached target es)
  unfolding latest reached value_before
  latest-value_before target [] start s = refl
  latest-value_before target (e ∷ es) start s = elim (Bool-cases (text_le e.date target)) [
    | inl on ↦ rw on (
        latest-value_before target es (some e.value) s.1
        ∙ value_shift start e es (reached target es))
    | inr off ↦ rw off (latest_off target e es start s.0 off)
  ]

  next_value :
      (start : Option F) (es : List (Entry F)) (i : ℕ) (e : Entry F)
      → get_elem? es i ≡ some e
      → some e.value ≡ value_before start es (i + 1)
  unfolding value_before value_of
  next_value start es i e h =
      subst (λ n. some e.value ≡ value_before start es n) (suc_eq i) (ap value_of (sym h))

  passed :
      (target : String) (es : List (Entry F)) (i : ℕ) (e : Entry F)
      → IsSorted es
      → get_elem? es i ≡ some e
      → text_le e.date target ≡ true
      → i < reached target es
  passed target es i e s there on = elim (Bool-cases (leb (reached target es) i)) [
    | inl past ↦ absurd (no_both on (after_target target es i e s (ground arith) there))
    | inr before ↦ ground arith
  ]

  missed :
      (target : String) (es : List (Entry F)) (i : ℕ) (e : Entry F)
      → get_elem? es i ≡ some e
      → text_le e.date target ≡ false
      → reached target es ≤ i
  missed target es i e there off = elim (Bool-cases (leb (reached target es) i)) [
    | inl past ↦ ground arith
    | inr before ↦ absurd (no_both (before_target target es i e (ground arith) there) off)
  ]

  search_lem :
      (fuel : ℕ) (es : List (Entry F)) (target : String) (lo hi : ℕ)
      → IsSorted es
      → hi ≤ lo + fuel
      → lo ≤ reached target es
      → reached target es ≤ hi
      → hi ≤ length es
      → search fuel es target lo hi (value_before none es lo)
        ≡ some (value_before none es (reached target es))
  unfolding search
  search_lem zero es target lo hi s f below above inside =
      let met : lo ≡ reached target es = omega arith in
      let over : leb hi lo ≡ true = ground arith in
      rw over (ap (λ n. some (value_before none es n)) met)
  search_lem (suc fuel) es target lo hi s f below above inside =
      let mid = (lo + hi - 1) / 2 in
      elim (Bool-cases (leb hi lo)) [
        | inl over ↦
            let met : lo ≡ reached target es = ground arith in
            rw over (ap (λ n. some (value_before none es n)) met)
        | inr open_ ↦
            let (low, high) = between lo hi open_ in
            let (e, there) = in_range es mid (omega arith) in
            elim (Bool-cases (text_le e.date target)) [
              | inl on ↦
                  let right : mid < reached target es = passed target es mid e s there on in
                  rw (open_, there, on, next_value none es mid e there)
                    (search_lem fuel es target (mid + 1) hi s (omega arith) (omega arith) above
                      inside)
              | inr off ↦
                  let left : reached target es ≤ mid = missed target es mid e there off in
                  rw (open_, there, off)
                    (search_lem fuel es target lo mid s (omega arith) below left (omega arith))
            ]
      ]

  -- On a series whose dates are in order, the binary search ends within as many rounds as there are
  -- entries, never leaves the list, and finds what a scan of the whole series finds: the value of the
  -- last entry at or before the target date, or none.
  pub lookup_nearest_lem :
      (es : List (Entry F)) (target : String)
      → IsSorted es
      → lookup_nearest es target ≡ some (latest target es none)
  unfolding lookup_nearest value_before
  lookup_nearest_lem es target s =
      search_lem (length es) es target 0 (length es) s (omega arith) (omega arith)
        (reached-le target es) (omega arith)
      ∙ ap some (sym (latest-value_before target es none s))
