-- ===== src/Correlation/Sorting.antt =====
-- The order in which the log is read: latest first, and no row is lost.
use mathlib.Core.List.Memᴰ
use mathlib.Core.List.{Memᴰ}
use quantamental_engine.Base.{
  Bool, true, List, [], ◌∷◌, string_eq, filter, All, ◌≡◌, ◌∙◌, ap, sym, Bool-cases, inl, inr, subst,
}
use quantamental_engine.Base.Text.{text_le, text_le_trans, text_le_total}
use quantamental_engine.Correlation.{LogRow, insert_latest, by_latest}

module _ {ℓ} {F : Type ℓ} where
  abbrev pub IsLatestFirst : List (LogRow F) → Type 0
  IsLatestFirst [] = Unit
  IsLatestFirst (r ∷ rs) = All (λ x. text_le x.timestamp r.timestamp ≡ true) rs × IsLatestFirst rs

  All-insert_latest {κ} :
      (P : LogRow F → Type κ) (r : LogRow F) (xs : List (LogRow F))
      → P r
      → All P xs
      → All P (insert_latest r xs)
  unfolding insert_latest
  All-insert_latest P r [] p ps = (p, tt)
  All-insert_latest P r (x ∷ xs) p ps = elim (Bool-cases (text_le x.timestamp r.timestamp)) [
    | inl on ↦ rw on (p, ps)
    | inr off ↦ rw off (ps.0, All-insert_latest P r xs p ps.1)
  ]

  All-trans :
      (x r : LogRow F) (xs : List (LogRow F))
      → text_le x.timestamp r.timestamp ≡ true
      → All (λ y. text_le y.timestamp x.timestamp ≡ true) xs
      → All (λ y. text_le y.timestamp r.timestamp ≡ true) xs
  All-trans x r [] h ps = tt
  All-trans x r (y ∷ ys) h ps =
      (text_le_trans y.timestamp x.timestamp r.timestamp ps.0 h, All-trans x r ys h ps.1)

  insert_latest-IsLatestFirst :
      (r : LogRow F) (xs : List (LogRow F)) → IsLatestFirst xs → IsLatestFirst (insert_latest r xs)
  unfolding insert_latest
  insert_latest-IsLatestFirst r [] s = (tt, tt)
  insert_latest-IsLatestFirst r (x ∷ xs) s = elim (Bool-cases (text_le x.timestamp r.timestamp)) [
    | inl on ↦ rw on ((on, All-trans x r xs on s.0), s)
    | inr off ↦ rw off (
      All-insert_latest (λ y. text_le y.timestamp x.timestamp ≡ true) r xs
          (text_le_total x.timestamp r.timestamp off) s.0,
      insert_latest-IsLatestFirst r xs s.1,
    )
  ]

  pub by_latest-IsLatestFirst : (xs : List (LogRow F)) → IsLatestFirst (by_latest xs)
  unfolding by_latest
  by_latest-IsLatestFirst [] = tt
  by_latest-IsLatestFirst (x ∷ xs) =
      insert_latest-IsLatestFirst x (by_latest xs) (by_latest-IsLatestFirst xs)

  Mem-insert_latest :
      (r y : LogRow F) (xs : List (LogRow F)) → Memᴰ y (insert_latest r xs) → Memᴰ y (r ∷ xs)
  unfolding insert_latest
  Mem-insert_latest r y [] m = m
  Mem-insert_latest r y (x ∷ xs) m = elim (Bool-cases (text_le x.timestamp r.timestamp)) [
    | inl on ↦ rw on at m
    | inr off ↦ elim (Memᴰ.cases_cons (rw off at m)) [
      | inl here ↦ Memᴰ.tail (Memᴰ.head here)
      | inr there ↦ elim (Memᴰ.cases_cons (Mem-insert_latest r y xs there)) [
        | inl front ↦ Memᴰ.head front
        | inr back ↦ Memᴰ.tail (Memᴰ.tail back)
      ]
    ]
  ]

  pub Mem-by_latest : (y : LogRow F) (xs : List (LogRow F)) → Memᴰ y (by_latest xs) → Memᴰ y xs
  unfolding by_latest
  Mem-by_latest y [] m = m
  Mem-by_latest y (x ∷ xs) m = elim (Memᴰ.cases_cons (Mem-insert_latest x y (by_latest xs) m)) [
    | inl front ↦ Memᴰ.head front
    | inr back ↦ Memᴰ.tail (Mem-by_latest y xs back)
  ]

  insert_latest-Mem :
      (r y : LogRow F) (xs : List (LogRow F)) → Memᴰ y (r ∷ xs) → Memᴰ y (insert_latest r xs)
  unfolding insert_latest
  insert_latest-Mem r y [] m = m
  insert_latest-Mem r y (x ∷ xs) m = elim (Bool-cases (text_le x.timestamp r.timestamp)) [
    | inl on ↦ rw on m
    | inr off ↦ elim (Memᴰ.cases_cons m) [
      | inl front ↦ rw off (Memᴰ.tail (insert_latest-Mem r y xs (Memᴰ.head front)))
      | inr back ↦ elim (Memᴰ.cases_cons back) [
        | inl here ↦ rw off (Memᴰ.head here)
        | inr there ↦ rw off (Memᴰ.tail (insert_latest-Mem r y xs (Memᴰ.tail there)))
      ]
    ]
  ]

  pub by_latest-Mem : (y : LogRow F) (xs : List (LogRow F)) → Memᴰ y xs → Memᴰ y (by_latest xs)
  unfolding by_latest
  by_latest-Mem y [] m = m
  by_latest-Mem y (x ∷ xs) m = elim (Memᴰ.cases_cons m) [
    | inl front ↦ insert_latest-Mem x y (by_latest xs) (Memᴰ.head front)
    | inr back ↦ insert_latest-Mem x y (by_latest xs) (Memᴰ.tail (by_latest-Mem y xs back))
  ]

  pub filter-Mem :
      (p : LogRow F → Bool) (y : LogRow F) (xs : List (LogRow F))
      → Memᴰ y xs
      → p y ≡ true
      → Memᴰ y (filter p xs)
  filter-Mem p y [] m h = m
  filter-Mem p y (x ∷ xs) m h = elim (Memᴰ.cases_cons m) [
    | inl front ↦ rw (sym (ap p front) ∙ h) (Memᴰ.head front)
    | inr back ↦ elim (Bool-cases (p x)) [
      | inl on ↦ rw on (Memᴰ.tail (filter-Mem p y xs back h))
      | inr off ↦ rw off (filter-Mem p y xs back h)
    ]
  ]

  pub All-Mem {κ} :
      (P : LogRow F → Type κ) (y : LogRow F) (xs : List (LogRow F)) → All P xs → Memᴰ y xs → P y
  All-Mem P y [] ps m = absurd (Memᴰ.not-nil m)
  All-Mem P y (x ∷ xs) ps m = elim (Memᴰ.cases_cons m) [
    | inl front ↦ subst P (sym front) ps.0
    | inr back ↦ All-Mem P y xs ps.1 back
  ]
