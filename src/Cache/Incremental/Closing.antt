-- ===== src/Cache/Incremental/Closing.antt =====
-- What one message of the exchange does to each position: those that it does not name, and those that
-- it closes.
use quantamental_engine.Base.{
  nat_eq, ℕ, String, Bool, true, false, ◌&&◌, ◌||◌, not, Option, List, [], ◌∷◌, ◌++◌, ◌==◌,
  string_eq, if◌then◌else◌, any, filter, ◌≡◌, refl, ◌∙◌, ap, arith, Bool-cases, inl, inr, no_both,
  eq_of_==, All,
}
use quantamental_engine.Float.{Float}
use quantamental_engine.Position.{Position}
use quantamental_engine.App.{App, UpdateSource}
use quantamental_engine.Portfolio.{Tables}
use quantamental_engine.Cache.{has_key}
use quantamental_engine.Cache.Keyed.{has_key_parts, and_parts}
use quantamental_engine.Cache.Snapshot.{recalculate-positions}
use quantamental_engine.Cache.Incremental.{
  NormalizedPosition, Progress, key_of_np, update_last, is_closed, updated, new_position,
  apply_change, apply_changes, changes_of, with_changes, apply_balances,
  apply_position_update_incremental,
}

abbrev start_of {ℓ} : {F : Type ℓ} → App F → Progress F
start_of app = record {
  positions = app.positions;
  closed_syms = [];
  new_syms = [];
  closed_positions = [];
}

module _ {ℓ} {F : Type ℓ} ⦃f : Float F⦄ (k : String × String) where
  -- whether a change names the key
  abbrev pub is_for : NormalizedPosition F → Bool
  is_for np = np.symbol == k.0 && np.side == k.1

  for_key :
      (np : NormalizedPosition F) (p : Position F)
      → has_key (key_of_np np) p ≡ true
      → has_key k p ≡ is_for np
  for_key np p h = let (t, d) = has_key_parts (key_of_np np) p h in rw (t, d) refl

  same_key :
      (np : NormalizedPosition F) (p : Position F)
      → is_for np ≡ true
      → has_key (key_of_np np) p ≡ has_key k p
  same_key np p h =
      let (t, d) = and_parts (np.symbol == k.0) (np.side == k.1) h in
      rw (eq_of_== np.symbol k.0 t, eq_of_== np.side k.1 d) refl

  any-same_key :
      (np : NormalizedPosition F) (ps : List (Position F))
      → is_for np ≡ true
      → any (has_key (key_of_np np)) ps ≡ any (has_key k) ps
  any-same_key np [] h = refl
  any-same_key np (p ∷ ps) h = rw (same_key np p h, any-same_key np ps h) refl

  updated-key :
      (marks : String → Option F) (np : NormalizedPosition F) (p : Position F)
      → has_key (key_of_np np) p ≡ true
      → has_key k (updated marks np p) ≡ has_key k p
  unfolding updated
  updated-key marks np p h = let (t, d) = has_key_parts (key_of_np np) p h in rw d refl

  any-update_last :
      (marks : String → Option F) (np : NormalizedPosition F) (ps : List (Position F))
      → any (has_key k) (update_last (key_of_np np) (updated marks np) ps) ≡ any (has_key k) ps
  unfolding update_last
  any-update_last marks np [] = refl
  any-update_last marks np (p ∷ ps) =
      ground (arith, any-update_last marks np ps, updated-key marks np p)

  filter-update_last :
      (marks : String → Option F) (np : NormalizedPosition F) (ps : List (Position F))
      → is_for np ≡ false
      → filter (has_key k) (update_last (key_of_np np) (updated marks np) ps)
        ≡ filter (has_key k) ps
  unfolding update_last
  filter-update_last marks np [] h = refl
  filter-update_last marks np (p ∷ ps) h =
      ground (arith, filter-update_last marks np ps h, updated-key marks np p, for_key np p)

  filter-removed :
      (np : NormalizedPosition F) (ps : List (Position F))
      → is_for np ≡ false
      → filter (has_key k) (filter (λ p. not (has_key (key_of_np np) p)) ps) ≡ filter (has_key k) ps
  filter-removed np [] h = refl
  filter-removed np (p ∷ ps) h = ground (arith, filter-removed np ps h, for_key np p)

  any-removed :
      (np : NormalizedPosition F) (ps : List (Position F))
      → any (has_key k) (filter (λ p. not (has_key (key_of_np np) p)) ps)
        ≡ (any (has_key k) ps && not (is_for np))
  any-removed np [] = refl
  any-removed np (p ∷ ps) = ground (arith, any-removed np ps, for_key np p, same_key np p)

  filter-append :
      (ps : List (Position F)) (p : Position F)
      → has_key k p ≡ false
      → filter (has_key k) (ps ++ (p ∷ [])) ≡ filter (has_key k) ps
  filter-append [] p h = rw h refl
  filter-append (q ∷ ps) p h = ground (arith, filter-append ps p h)

  any-append :
      (ps : List (Position F)) (p : Position F)
      → any (has_key k) (ps ++ (p ∷ [])) ≡ (any (has_key k) ps || has_key k p)
  any-append [] p = ground arith
  any-append (q ∷ ps) p = ground (arith, any-append ps p)

  module _ (marks : String → Option F) (get_sector : String → String) (now_iso : String) (ts_ms : ℕ)
      (existing : List (Position F)) where
    new_position-key :
        (np : NormalizedPosition F)
        → has_key k (new_position marks get_sector now_iso np) ≡ is_for np
    unfolding new_position
    new_position-key np = refl

    change-absent :
        (np : NormalizedPosition F) (s : Progress F)
        → any (has_key k) existing ≡ true
        → any (has_key k) s.positions ≡ false
        → any (has_key k) (apply_change marks get_sector now_iso ts_ms existing np s).positions
          ≡ false
    unfolding apply_change
    change-absent np s h a = ground (
      arith,
      any-removed np s.positions,
      any-update_last marks np s.positions,
      any-append s.positions (new_position marks get_sector now_iso np),
      new_position-key np,
      any-same_key np existing,
    )

    change-closes :
        (np : NormalizedPosition F) (s : Progress F)
        → any (has_key k) existing ≡ true
        → is_for np ≡ true
        → is_closed np ≡ true
        → any (has_key k) (apply_change marks get_sector now_iso ts_ms existing np s).positions
          ≡ false
    unfolding apply_change
    change-closes np s h e c =
        ground (arith, any-removed np s.positions, any-same_key np existing e)

    change-other :
        (np : NormalizedPosition F) (s : Progress F)
        → is_for np ≡ false
        → filter (has_key k) (apply_change marks get_sector now_iso ts_ms existing np s).positions
          ≡ filter (has_key k) s.positions
    unfolding apply_change
    change-other np s h = ground (
      arith,
      filter-removed np s.positions h,
      filter-update_last marks np s.positions h,
      filter-append s.positions (new_position marks get_sector now_iso np),
      new_position-key np,
    )

    changes-absent :
        (nps : List (NormalizedPosition F)) (s : Progress F)
        → any (has_key k) existing ≡ true
        → any (has_key k) s.positions ≡ false
        → any (has_key k) (apply_changes marks get_sector now_iso ts_ms existing nps s).positions
          ≡ false
    unfolding apply_changes
    changes-absent [] s h a = a
    changes-absent (np ∷ nps) s h a = changes-absent nps _ h (change-absent np s h a)

    changes-closed :
        (nps : List (NormalizedPosition F)) (s : Progress F)
        → any (has_key k) existing ≡ true
        → any (λ np. is_for np && is_closed np) nps ≡ true
        → any (has_key k) (apply_changes marks get_sector now_iso ts_ms existing nps s).positions
          ≡ false
    unfolding apply_changes
    changes-closed [] s h c = absurd (no_both c refl)
    changes-closed (np ∷ nps) s h c = elim (Bool-cases (is_for np && is_closed np)) [
      | inl here ↦
          let (e, z) = and_parts (is_for np) (is_closed np) here in
          changes-absent nps _ h (change-closes np s h e z)
      | inr later ↦ changes-closed nps _ h (rw later at c)
    ]

    changes-other :
        (nps : List (NormalizedPosition F)) (s : Progress F)
        → All (λ np. is_for np ≡ false) nps
        → filter (has_key k) (apply_changes marks get_sector now_iso ts_ms existing nps s).positions
          ≡ filter (has_key k) s.positions
    unfolding apply_changes
    changes-other [] s h = refl
    changes-other (np ∷ nps) s h = changes-other nps _ h.1 ∙ change-other np s h.0

  module _ (tables : Tables F) (get_sector : String → String) (now_iso : String) (now_ms : ℕ)
      (source : UpdateSource) (nps : List (NormalizedPosition F)) (balances : Option (Option F))
      (ts_ms : ℕ) (app : App F) where
    abbrev ts : ℕ
    ts = if ts_ms == 0 then now_ms else ts_ms

    abbrev balanced : App F
    balanced = apply_balances source ts balances app

    abbrev after : App F
    after =
        (apply_position_update_incremental tables get_sector now_iso now_ms source nps balances
          ts_ms app).1

    balanced-positions : balanced.positions ≡ app.positions
    unfolding apply_balances
    balanced-positions = ground arith

    after-positions : after.positions ≡ (changes_of get_sector now_iso ts nps balanced).positions
    unfolding apply_position_update_incremental
    after-positions =
        recalculate-positions tables
          (with_changes source ts (changes_of get_sector now_iso ts nps balanced) balanced)

    -- A message leaves the positions of every key that it does not name as they were, in their order.
    pub incremental_other :
        All (λ np. is_for np ≡ false) nps
        → filter
            (has_key k)
            (apply_position_update_incremental tables get_sector now_iso now_ms source nps balances
              ts_ms app).1.positions
          ≡ filter (has_key k) app.positions
    unfolding changes_of
    incremental_other h =
        ap (filter (has_key k)) after-positions
        ∙ changes-other balanced.mark_price_cache get_sector now_iso ts balanced.positions nps
            (start_of balanced) h
        ∙ ap (filter (has_key k)) balanced-positions

    -- A message that closes a position that was there leaves none with its key, whatever else the message
    -- says of the key before or after: a position that it closes and opens again is lost until the next
    -- message or snapshot.
    pub incremental_closed :
        any (has_key k) app.positions ≡ true
        → any (λ np. is_for np && is_closed np) nps ≡ true
        → any
            (has_key k)
            (apply_position_update_incremental tables get_sector now_iso now_ms source nps balances
              ts_ms app).1.positions
          ≡ false
    unfolding changes_of
    incremental_closed h c =
        ap (any (has_key k)) after-positions
        ∙ changes-closed balanced.mark_price_cache get_sector now_iso ts balanced.positions nps
            (start_of balanced) (ap (any (has_key k)) balanced-positions ∙ h) c
