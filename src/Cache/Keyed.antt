-- ===== src/Cache/Keyed.antt =====
-- Keys of positions, in lists, in the dictionary by keys, and under the sort.
use quantamental_engine.Base.{
  ℕ, ◌+◌, String, Bool, true, ◌&&◌, ◌||◌, List, [], ◌∷◌, ◌==◌, string_eq, if◌then◌else◌, any, All,
  ◌≡◌, refl, arith, Bool-cases, inl, inr, eq_of_==, ==_refl, ltb, ◌≤◌,
}
use quantamental_engine.Base.Text.{sorted, insert_by, text_le}
use quantamental_engine.Position.{Position}
use quantamental_engine.Cache.{key_of, has_key, set_item, items_from, items}

pub and_parts : (a b : Bool) → (a && b) ≡ true → (a ≡ true) × (b ≡ true)
and_parts a b h = ground arith

module _ {ℓ} {F : Type ℓ} where
  pub has_key_refl : (p : Position F) → has_key (key_of p) p ≡ true
  has_key_refl p = rw (==_refl p.ticker, ==_refl p.direction) refl

  pub has_key_parts :
      (k : String × String) (p : Position F)
      → has_key k p ≡ true
      → (p.ticker ≡ k.0) × (p.direction ≡ k.1)
  has_key_parts k p h =
      let (t, d) = and_parts (p.ticker == k.0) (p.direction == k.1) h in
      (eq_of_== p.ticker k.0 t, eq_of_== p.direction k.1 d)

  -- Positions with the same key have the same keys.
  pub has_key_trans :
      (k : String × String) (p q : Position F)
      → has_key (key_of p) q ≡ true
      → has_key k q ≡ has_key k p
  has_key_trans k p q h = let (t, d) = has_key_parts (key_of p) q h in rw (t, d) refl

  pub has_key_join :
      (k : String × String) (p q : Position F)
      → has_key k p ≡ true
      → has_key k q ≡ true
      → has_key (key_of p) q ≡ true
  has_key_join k p q h j =
      let (t, d) = has_key_parts k p h in
      let (u, e) = has_key_parts k q j in rw (t, d, u, e, ==_refl k.0, ==_refl k.1) refl

  -- the number of positions with a key
  unfoldable pub count : String × String → List (Position F) → ℕ
  count k [] = 0
  count k (p ∷ ps) = (if has_key k p then 1 else 0) + count k ps

  pub any-count :
      (k : String × String) (ps : List (Position F)) → any (has_key k) ps ≡ ltb 0 (count k ps)
  unfolding count
  any-count k [] = refl
  any-count k (p ∷ ps) = ground (arith, any-count k ps)

  count-set_item :
      (k : String × String) (p : Position F) (d : List (Position F))
      → count k d ≤ 1
      → count k (set_item p d) ≡ (if has_key k p then 1 else count k d)
  unfolding count set_item
  count-set_item k p [] h = ground arith
  count-set_item k p (q ∷ d) h = elim (Bool-cases (has_key (key_of p) q)) [
    | inl same ↦ rw same (ground (arith, has_key_trans k p q same))
    | inr other ↦ rw other (ground (arith, count-set_item k p d, has_key_join k p q))
  ]

  count-items_from :
      (k : String × String) (ps d : List (Position F))
      → count k d ≤ 1
      → count k (items_from ps d) ≡ (if any (has_key k) ps then 1 else count k d)
  unfolding items_from
  count-items_from k [] d h = refl
  count-items_from k (p ∷ ps) d h =
      let one = count-set_item k p d h in ground (arith, count-items_from k ps (set_item p d))

  -- The dictionary has each key of the list once.
  pub count-items :
      (k : String × String) (ps : List (Position F))
      → count k (items ps) ≡ (if any (has_key k) ps then 1 else 0)
  unfolding count
  count-items k ps = count-items_from k ps [] (omega arith)

  any-insert_by :
      (test : Position F → Bool) (key : Position F → String) (p : Position F)
      (ps : List (Position F))
      → any test (insert_by key p ps) ≡ (test p || any test ps)
  unfolding insert_by
  any-insert_by test key p [] = refl
  any-insert_by test key p (q ∷ ps) = ground (arith, any-insert_by test key p ps)

  pub any-sorted :
      (test : Position F → Bool) (key : Position F → String) (ps : List (Position F))
      → any test (sorted key ps) ≡ any test ps
  unfolding sorted
  any-sorted test key [] = refl
  any-sorted test key (p ∷ ps) =
      ground (arith, any-sorted test key ps, any-insert_by test key p (sorted key ps))

  All-insert_by {κ} :
      (P : Position F → Type κ) (key : Position F → String) (p : Position F)
      (ps : List (Position F))
      → P p
      → All P ps
      → All P (insert_by key p ps)
  unfolding insert_by
  All-insert_by P key p [] h k = (h, tt)
  All-insert_by P key p (q ∷ ps) h k = elim (Bool-cases (text_le (key p) (key q))) [
    | inl first ↦ rw first (h, k)
    | inr later ↦ rw later (k.0, All-insert_by P key p ps h k.1)
  ]

  pub All-sorted {κ} :
      (P : Position F → Type κ) (key : Position F → String) (ps : List (Position F))
      → All P ps
      → All P (sorted key ps)
  unfolding sorted
  All-sorted P key [] h = tt
  All-sorted P key (p ∷ ps) h = All-insert_by P key p (sorted key ps) h.0 (All-sorted P key ps h.1)
