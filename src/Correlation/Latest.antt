-- ===== src/Correlation/Latest.antt =====
-- Which row of the log is chosen.
use mathlib.Core.List.Memᴰ
use mathlib.Core.List.{Memᴰ}
use quantamental_engine.Base.{
  String, true, false, Option, none, some, List, [], ◌∷◌, ◌==◌, string_eq, filter, any, ◌≡◌, ◌≢◌,
  refl, ◌∙◌, ap, sym, arith, Bool-cases, Option-cases, inl, inr, Mem-filter, subst,
}
use quantamental_engine.Base.Text.{text_le, text_le_total}
use quantamental_engine.Float.{Float}
use quantamental_engine.Orders.Row.{Order}
use quantamental_engine.Correlation.{
  LogRow, EntryOrder, Legs, wanted, match_row, first_match, selected, by_latest,
  correlate_order_to_calc, legs_ok, has_calc_id,
}
use quantamental_engine.Correlation.Sorting.{
  IsLatestFirst, by_latest-IsLatestFirst, Mem-by_latest, by_latest-Mem, filter-Mem, All-Mem,
}

text_le_refl : (s : String) → text_le s s ≡ true
text_le_refl s = elim (Bool-cases (text_le s s)) [ inl on ↦ on | inr off ↦ text_le_total s s off ]

no_clash {ℓ} : {A : Type ℓ} {a : A} → none ≢ some a
no_clash h = cc

module _ {ℓ} {F : Type ℓ} ⦃f : Float F⦄ where
  -- The row holds the calculation c, its prices match the legs, and no order uses c.
  abbrev pub IsMatch : F → Legs F → List (Order F) → LogRow F → String → Type 0
  IsMatch tick_size legs orders row c =
      (row.calc_id ≡ some c)
      × ((c == "") ≡ false)
      × (legs_ok tick_size legs row ≡ true)
      × (any (has_calc_id c) orders ≡ false)

  abbrev pub IsCandidate :
      EntryOrder F → String → F → Legs F → List (Order F) → LogRow F → String → Type 0
  IsCandidate o cutoff tick_size legs orders row c =
      (selected o cutoff row ≡ true) × IsMatch tick_size legs orders row c

  -- No candidate is in the log, or the answer is the calculation of a candidate in it, and no candidate
  -- is later.
  unfoldable pub IsOutcome :
      EntryOrder F → String → F → Legs F → List (Order F) → List (LogRow F) → Option String → Type ℓ
  IsOutcome o cutoff tick_size legs orders log none =
      (row : LogRow F) (c : String)
      → Memᴰ row log
      → ¬ IsCandidate o cutoff tick_size legs orders row c
  IsOutcome o cutoff tick_size legs orders log (some c) =
      (row : LogRow F) × Memᴰ row log
      × IsCandidate o cutoff tick_size legs orders row c
      × ((other : LogRow F) (d : String)
          → Memᴰ other log
          → IsCandidate o cutoff tick_size legs orders other d
          → text_le other.timestamp row.timestamp ≡ true)

  match_row-IsMatch :
      (tick_size : F) (legs : Legs F) (orders : List (Order F)) (row : LogRow F) (c : String)
      → match_row tick_size legs orders row ≡ some c
      → IsMatch tick_size legs orders row c
  unfolding match_row
  match_row-IsMatch tick_size legs orders row c h = ground arith

  IsMatch-match_row :
      (tick_size : F) (legs : Legs F) (orders : List (Order F)) (row : LogRow F) (c : String)
      → IsMatch tick_size legs orders row c
      → match_row tick_size legs orders row ≡ some c
  unfolding match_row
  IsMatch-match_row tick_size legs orders row c (id, full, ok, unused) =
      rw (id, full, ok, unused) refl

  first_match_off :
      (tick_size : F) (legs : Legs F) (orders : List (Order F)) (x : LogRow F)
      (xs : List (LogRow F))
      → match_row tick_size legs orders x ≡ none
      → first_match tick_size legs orders (x ∷ xs) ≡ first_match tick_size legs orders xs
  unfolding first_match
  first_match_off tick_size legs orders x xs off = rw (off, first_match) refl

  first_match_on :
      (tick_size : F) (legs : Legs F) (orders : List (Order F)) (x : LogRow F)
      (xs : List (LogRow F)) (d : String)
      → match_row tick_size legs orders x ≡ some d
      → first_match tick_size legs orders (x ∷ xs) ≡ some d
  unfolding first_match
  first_match_on tick_size legs orders x xs d on = rw (on, first_match) refl

  first_match-unmatched :
      (tick_size : F) (legs : Legs F) (orders : List (Order F)) (xs : List (LogRow F))
      → first_match tick_size legs orders xs ≡ none
      → (y : LogRow F) → Memᴰ y xs
      → match_row tick_size legs orders y ≡ none
  unfolding first_match
  first_match-unmatched tick_size legs orders [] h y m = absurd (Memᴰ.not-nil m)
  first_match-unmatched tick_size legs orders (x ∷ xs) h y m =
      elim (Option-cases (match_row tick_size legs orders x)) [
        | inl off ↦ elim (Memᴰ.cases_cons m) [
          | inl front ↦ ap (match_row tick_size legs orders) front ∙ off
          | inr back ↦
              first_match-unmatched tick_size legs orders xs
                (sym (first_match_off tick_size legs orders x xs off) ∙ h) y back
        ]
        | inr (c, on) ↦ absurd (no_clash (sym h ∙ first_match_on tick_size legs orders x xs c on))
      ]

  first_match-latest :
      (tick_size : F) (legs : Legs F) (orders : List (Order F)) (xs : List (LogRow F)) (c : String)
      → IsLatestFirst xs
      → first_match tick_size legs orders xs ≡ some c
      → (row : LogRow F) × Memᴰ row xs
        × (match_row tick_size legs orders row ≡ some c)
        × ((other : LogRow F) (d : String)
            → Memᴰ other xs
            → match_row tick_size legs orders other ≡ some d
            → text_le other.timestamp row.timestamp ≡ true)
  unfolding first_match
  first_match-latest tick_size legs orders [] c s h = absurd (no_clash h)
  first_match-latest tick_size legs orders (x ∷ xs) c s h =
      elim (Option-cases (match_row tick_size legs orders x)) [
        | inl off ↦
            let (row, inside, matched, latest) =
              first_match-latest tick_size legs orders xs c s.1
                (sym (first_match_off tick_size legs orders x xs off) ∙ h) in
            (
              row,
              Memᴰ.tail inside,
              matched,
              λ other d m n. elim (Memᴰ.cases_cons m) [
                | inl front ↦
                    absurd
                      (no_clash (sym off ∙ ap (match_row tick_size legs orders) (sym front) ∙ n))
                | inr back ↦ latest other d back n
              ],
            )
        | inr (d, on) ↦ (
          x,
          Memᴰ.head refl,
          on ∙ sym (first_match_on tick_size legs orders x xs d on) ∙ h,
          λ other e m n. elim (Memᴰ.cases_cons m) [
            | inl front ↦
                subst (λ y. text_le y.timestamp x.timestamp ≡ true) (sym front)
                  (text_le_refl x.timestamp)
            | inr back ↦ All-Mem (λ y. text_le y.timestamp x.timestamp ≡ true) other xs s.0 back
          ],
        )
      ]

  chosen : EntryOrder F → String → List (LogRow F) → List (LogRow F)
  chosen o cutoff log = by_latest (filter (selected o cutoff) log)

  is_chosen :
      (o : EntryOrder F) (cutoff : String) (log : List (LogRow F)) (row : LogRow F)
      → Memᴰ row log
      → selected o cutoff row ≡ true
      → Memᴰ row (chosen o cutoff log)
  unfolding chosen
  is_chosen o cutoff log row m h =
      by_latest-Mem row (filter (selected o cutoff) log)
        (filter-Mem (selected o cutoff) row log m h)

  first_match-IsOutcome :
      (o : EntryOrder F) (tick_size : F) (cutoff : String) (log : List (LogRow F))
      (orders : List (Order F)) (legs : Legs F)
      → IsOutcome o cutoff tick_size legs orders log
          (first_match tick_size legs orders (by_latest (filter (selected o cutoff) log)))
  unfolding chosen IsOutcome
  first_match-IsOutcome o tick_size cutoff log orders legs =
      elim (Option-cases (first_match tick_size legs orders (chosen o cutoff log))) [
        | inl missing ↦ rw missing (λ row c m (fits, match). no_clash (
            sym (
              first_match-unmatched tick_size legs orders (chosen o cutoff log) missing row
                (is_chosen o cutoff log row m fits))
            ∙ IsMatch-match_row tick_size legs orders row c match))
        | inr (c, found) ↦
            let (row, inside, matched, latest) =
              first_match-latest tick_size legs orders (chosen o cutoff log) c
                (by_latest-IsLatestFirst (filter (selected o cutoff) log)) found in
            let (there, fits) =
              Mem-filter (selected o cutoff) log
                (Mem-by_latest row (filter (selected o cutoff) log) inside) in
            rw found (
              row,
              there,
              (fits, match_row-IsMatch tick_size legs orders row c matched),
              λ other d m (fits, match).
                  latest other d (is_chosen o cutoff log other m fits)
                    (IsMatch-match_row tick_size legs orders other d match),
            )
      ]

  correlate-first_match :
      (o : EntryOrder F) (tick_size : F) (cutoff : String) (log : List (LogRow F))
      (orders : List (Order F)) (legs : Legs F)
      → wanted o ≡ some legs
      → correlate_order_to_calc o tick_size cutoff log orders
        ≡ first_match tick_size legs orders (by_latest (filter (selected o cutoff) log))
  unfolding correlate_order_to_calc
  correlate-first_match o tick_size cutoff log orders legs h = rw (h, correlate_order_to_calc) refl

  -- For an order whose legs are wanted, the answer is the calculation of a row of the log that has the
  -- order's symbol and side, is not older than the cutoff, matches every leg within the tick size and is
  -- used by no order, and no later row is such a candidate; there is no answer exactly if no row is one.
  pub correlate_order_to_calc_lem :
      (o : EntryOrder F) (tick_size : F) (cutoff : String) (log : List (LogRow F))
      (orders : List (Order F)) (legs : Legs F)
      → wanted o ≡ some legs
      → IsOutcome o cutoff tick_size legs orders log
          (correlate_order_to_calc o tick_size cutoff log orders)
  correlate_order_to_calc_lem o tick_size cutoff log orders legs h =
      subst (IsOutcome o cutoff tick_size legs orders log)
        (sym (correlate-first_match o tick_size cutoff log orders legs h))
        (first_match-IsOutcome o tick_size cutoff log orders legs)
