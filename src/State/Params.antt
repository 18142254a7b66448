-- ===== src/State/Params.antt =====
-- `validate_params` of core/state.py: the bounds of each parameter, and the order of the thresholds.
use quantamental_engine.Base.{
  String, ◌||◌, Option, none, some, List, [], ◌∷◌, ◌++◌, string_eq, if◌then◌else◌, ◌≡◌, refl, arith,
  All, ◌↔◌,
}
use quantamental_engine.Float.{Float, fle, flt, ◌≼◌, ◌≺◌}

-- A value that `float` accepts, or another.
pub data Value {ℓ} (F : Type ℓ) : Type ℓ where
  number : F → Value F
  other : Value F

pub data Error {ℓ} (F : Type ℓ) : Type ℓ where
  not_a_number : String → Error F
  -- the key, the bounds and the value
  out_of_bounds : String → F → F → F → Error F
  not_less : String → F → String → F → Error F

append_empty {ℓ} : {A : Type ℓ} (xs ys : List A) → xs ++ ys ≡ [] → (xs ≡ []) × (ys ≡ [])
append_empty [] ys h = (refl, h)
append_empty (x ∷ xs) ys h = ground arith

no_errors {ℓ} : {A : Type ℓ} {x : A} {xs : List A} → x ∷ xs ≡ [] → ⊥
no_errors h = cc

module _ {ℓ} {F : Type ℓ} ⦃f : Float F⦄ where
  unfoldable pub param_bounds : List (String × F × F)
  param_bounds =
      ("individual_risk_per_trade", f.lit 1 4, f.lit 10 2)
      ∷ ("max_w_loss_percent", f.lit 1 3, f.lit 30 2)
      ∷ ("max_dd_percent", f.lit 1 2, f.lit 50 2)
      ∷ ("max_exposure", f.lit 1 1, f.lit 20 0)
      ∷ ("max_position_count", f.lit 1 0, f.lit 100 0)
      ∷ ("max_correlated_exposure", f.lit 5 2, f.lit 1 0)
      ∷ ("auto_export_hours", f.lit 1 0, f.lit 168 0)
      ∷ ("weekly_loss_warning_pct", f.lit 50 2, f.lit 99 2)
      ∷ ("weekly_loss_limit_pct", f.lit 50 2, f.lit 1 0)
      ∷ ("max_dd_warning_pct", f.lit 50 2, f.lit 99 2)
      ∷ ("max_dd_limit_pct", f.lit 50 2, f.lit 1 0)
      ∷ []

  unfoldable pub check_value : String → F → F → Option (Value F) → List (Error F)
  check_value key lo hi none = []
  check_value key lo hi (some other) = not_a_number key ∷ []
  check_value key lo hi (some (number val)) =
      if flt val lo || flt hi val then out_of_bounds key lo hi val ∷ [] else []

  -- One key of the first loop.
  unfoldable pub check_bounds : (String → Option (Value F)) → String × F × F → List (Error F)
  unfolding check_value
  check_bounds params (key, lo, hi) = check_value key lo hi (params key)

  unfoldable pub check_all : (String → Option (Value F)) → List (String × F × F) → List (Error F)
  check_all params [] = []
  check_all params (b ∷ bs) = check_bounds params b ++ check_all params bs

  unfoldable pub compare_values :
      String → String → Option (Value F) → Option (Value F) → List (Error F)
  compare_values warn_key limit_key (some (number w)) (some (number l)) =
      if fle l w then not_less warn_key w limit_key l ∷ [] else []
  compare_values warn_key limit_key _ _ = []

  -- One pair of the second loop.
  unfoldable pub check_pair : (String → Option (Value F)) → String → String → List (Error F)
  unfolding compare_values
  check_pair params warn_key limit_key =
      compare_values warn_key limit_key (params warn_key) (params limit_key)

  unfoldable pub validate_params : (String → Option (Value F)) → List (Error F)
  unfolding param_bounds check_bounds check_all check_pair
  validate_params params =
      check_all params param_bounds
      ++ check_pair params "max_dd_warning_pct" "max_dd_limit_pct"
      ++ check_pair params "weekly_loss_warning_pct" "weekly_loss_limit_pct"

  -- What a parameter that is there has to be.
  abbrev pub IsWithin : (String → Option (Value F)) → String × F × F → Type ℓ
  IsWithin params (key, lo, hi) =
      (v : Value F) → params key ≡ some v → (x : F) × (v ≡ number x) × (lo ≼ x) × (x ≼ hi)

  -- The first of two thresholds is less than the second, where both are there.
  abbrev pub IsLess : (String → Option (Value F)) → String → String → Type ℓ
  IsLess params warn_key limit_key =
      (w l : F) → params warn_key ≡ some (number w) → params limit_key ≡ some (number l) → w ≺ l

  check_value-IsWithin :
      (key : String) (lo hi : F) (o : Option (Value F)) (v : Value F)
      → check_value key lo hi o ≡ []
      → o ≡ some v
      → (x : F) × (v ≡ number x) × (lo ≼ x) × (x ≼ hi)
  unfolding check_value
  check_value-IsWithin key lo hi o other h e = absurd (no_errors (rw e at h))
  check_value-IsWithin key lo hi o (number x) h e =
      let k = rw e at h in (x, refl, ground arith, ground arith)

  check_value_empty :
      (key : String) (lo hi : F) (o : Option (Value F))
      → ((v : Value F) → o ≡ some v → (x : F) × (v ≡ number x) × (lo ≼ x) × (x ≼ hi))
      → check_value key lo hi o ≡ []
  unfolding check_value
  check_value_empty key lo hi none h = refl
  check_value_empty key lo hi (some other) h = let (x, is_x, _, _) = h other refl in ground arith
  check_value_empty key lo hi (some (number val)) h =
      let (x, is_x, low, high) = h (number val) refl in ground arith

  check_all-All :
      (params : String → Option (Value F)) (bs : List (String × F × F))
      → check_all params bs ≡ []
      → All (IsWithin params) bs
  unfolding check_all check_bounds
  check_all-All params [] h = tt
  check_all-All params (b ∷ bs) h =
      let (now, later) = append_empty (check_bounds params b) (check_all params bs) h in
      ((λ v. check_value-IsWithin b.0 b.1 b.2 (params b.0) v now), check_all-All params bs later)

  All-check_all :
      (params : String → Option (Value F)) (bs : List (String × F × F))
      → All (IsWithin params) bs
      → check_all params bs ≡ []
  unfolding check_all check_bounds
  All-check_all params [] h = refl
  All-check_all params (b ∷ bs) h =
      rw (check_value_empty b.0 b.1 b.2 (params b.0) h.0) (All-check_all params bs h.1)

  compare_values-IsLess :
      (warn_key limit_key : String) (o p : Option (Value F)) (w l : F)
      → compare_values warn_key limit_key o p ≡ []
      → o ≡ some (number w)
      → p ≡ some (number l)
      → w ≺ l
  unfolding compare_values
  compare_values-IsLess warn_key limit_key o p w l h e k = let less = rw (e, k) at h in ground arith

  compare_values_empty :
      (warn_key limit_key : String) (o p : Option (Value F))
      → ((w l : F) → o ≡ some (number w) → p ≡ some (number l) → w ≺ l)
      → compare_values warn_key limit_key o p ≡ []
  unfolding compare_values
  compare_values_empty warn_key limit_key none p h = refl
  compare_values_empty warn_key limit_key (some other) p h = refl
  compare_values_empty warn_key limit_key (some (number w)) none h = refl
  compare_values_empty warn_key limit_key (some (number w)) (some other) h = refl
  compare_values_empty warn_key limit_key (some (number w)) (some (number l)) h =
      rw (h w l refl refl) refl

  -- No error is reported exactly if every parameter that is there is a number within the bounds of its
  -- key, and each warning threshold is less than its limit threshold where both are there.
  pub validate_params_lem :
      (params : String → Option (Value F))
      → (validate_params params ≡ []) ↔ (
          All (IsWithin params) param_bounds
          × IsLess params "max_dd_warning_pct" "max_dd_limit_pct"
          × IsLess params "weekly_loss_warning_pct" "weekly_loss_limit_pct")
  unfolding validate_params check_pair
  validate_params_lem params = (
    λ h.
        let dd = check_pair params "max_dd_warning_pct" "max_dd_limit_pct" in
        let weekly = check_pair params "weekly_loss_warning_pct" "weekly_loss_limit_pct" in
        let all = check_all params param_bounds in
        let (firsts, weekly_ok) = append_empty (all ++ dd) weekly h in
        let (bounds, dd_ok) = append_empty all dd firsts in
        (
          check_all-All params param_bounds bounds,
          λ w l. compare_values-IsLess _ _ _ _ w l dd_ok,
          λ w l. compare_values-IsLess _ _ _ _ w l weekly_ok,
        ),
    λ h.
        rw
          (
            All-check_all params param_bounds h.0,
            compare_values_empty "max_dd_warning_pct" "max_dd_limit_pct" _ _ h.1,
            compare_values_empty "weekly_loss_warning_pct" "weekly_loss_limit_pct" _ _ h.2,
          )
          refl,
  )
