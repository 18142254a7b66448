-- ===== src/Cache/Snapshot.antt =====
-- What an accepted snapshot leaves: the keys, the closing events, and the metadata of the engine.
use mathlib.Core.List.{Memᴰ}
use quantamental_engine.Base.{
  or_else, ◌||◌, false, ℕ, ◌+◌, String, Bool, true, ◌&&◌, not, Option, none, some, List, [], ◌∷◌,
  ◌==◌, string_eq, nat_eq, if◌then◌else◌, any, map, find, All, ◌≡◌, refl, ◌∙◌, ap, sym, subst,
  arith, Bool-cases, inl, inr,
}
use quantamental_engine.Float.{Float, nought, feq}
use quantamental_engine.Position.{Position}
use quantamental_engine.App.{App, UpdateSource}
use quantamental_engine.Portfolio.{Tables, recalculate_portfolio, figures, rolling}
use quantamental_engine.Portfolio.Branches.{by_branches}
use quantamental_engine.Cache.{
  TradeClosed, PositionUpdateResult, key_of, has_key, items, preserve_metadata, carry_from,
  carry_over, closed_of, gone, should_accept, apply_position_snapshot,
}
use quantamental_engine.Cache.Keyed.{
  has_key_trans, has_key_join, count, count-items, any-sorted, All-sorted,
}

abbrev pub closes : String × String → TradeClosed → Bool
closes k c = c.ticker == k.0 && c.direction == k.1

-- the number of closing events of a key
unfoldable pub closings : String × String → List TradeClosed → ℕ
closings k [] = 0
closings k (c ∷ cs) = (if closes k c then 1 else 0) + closings k cs

neither_lem : (a b : Bool) → (not a && not b) ≡ true → (a || b) ≡ false
neither_lem a b h = ground arith

either_lem : (a b : Bool) → (not a && not b) ≡ false → (a || b) ≡ true
either_lem a b h = ground arith

module _ {ℓ} {F : Type ℓ} ⦃f : Float F⦄ where
  pub recalculate-positions :
      (tables : Tables F) (app : App F)
      → (recalculate_portfolio tables app).positions ≡ app.positions
  unfolding figures rolling
  recalculate-positions tables app =
      by_branches (λ after. after.positions ≡ app.positions) tables app refl refl (λ s w l. refl)

  carry_over-key :
      (now_iso : String) (existing : List (Position F)) (k : String × String) (p : Position F)
      → has_key k (carry_over now_iso existing p) ≡ has_key k p
  unfolding carry_over carry_from preserve_metadata
  carry_over-key now_iso existing k p = ground arith

  any-carried :
      (now_iso : String) (existing : List (Position F)) (k : String × String)
      (ps : List (Position F))
      → any (has_key k) (map (carry_over now_iso existing) ps) ≡ any (has_key k) ps
  any-carried now_iso existing k [] = refl
  any-carried now_iso existing k (p ∷ ps) =
      rw (carry_over-key now_iso existing k p, any-carried now_iso existing k ps) refl

  any-same_key :
      (k : String × String) (p : Position F) (incoming : List (Position F))
      → has_key k p ≡ true
      → any (has_key (key_of p)) incoming ≡ any (has_key k) incoming
  any-same_key k p [] h = refl
  any-same_key k p (q ∷ qs) h =
      ground (arith, any-same_key k p qs h, has_key_join k p q h, has_key_trans k p q)

  -- The events of a key, for existing positions of which some are gone.
  closings-gone :
      (now_ms : ℕ) (k : String × String) (incoming existing : List (Position F))
      → closings k (map (closed_of now_ms) (gone existing incoming))
        ≡ (if any (has_key k) incoming then 0 else count k existing)
  unfolding closings count
  closings-gone now_ms k incoming [] = ground arith
  closings-gone now_ms k incoming (q ∷ qs) =
      let rest = closings-gone now_ms k incoming qs in
      elim (Bool-cases (any (has_key (key_of q)) incoming)) [
        | inl stays ↦ rw stays (ground (arith, any-same_key k q incoming))
        | inr leaves ↦ rw leaves (ground (arith, any-same_key k q incoming))
      ]

  -- What the engine alone knows of a position: `q` is the incoming position, `old` the one there, and
  -- `p` the result.
  abbrev pub KeepsMetadata : Position F → Position F → Position F → Type ℓ
  KeepsMetadata q old p =
      (p.model_name ≡ old.model_name)
      × (p.individual_tpsl ≡ old.individual_tpsl)
      × (p.individual_tp_price ≡ old.individual_tp_price)
      × (p.individual_sl_price ≡ old.individual_sl_price)
      × (p.individual_tp_amount ≡ old.individual_tp_amount)
      × (p.individual_sl_amount ≡ old.individual_sl_amount)
      × (p.order_timestamp ≡ old.order_timestamp)
      × (p.entry_timestamp ≡ old.entry_timestamp)
      × (p.session_mfe ≡ old.session_mfe)
      × (p.session_mae ≡ old.session_mae)
      × (p.individual_fees ≡ old.individual_fees)
      × ((q.position_id == "") ≡ true
          → (old.position_id == "") ≡ false
          → p.position_id ≡ old.position_id)
      × ((q.position_id == "") ≡ false → p.position_id ≡ q.position_id)
      × (feq old.individual_unrealized nought ≡ false
          → p.individual_unrealized ≡ old.individual_unrealized)
      × (feq old.individual_unrealized nought ≡ true
          → p.individual_unrealized ≡ q.individual_unrealized)

  -- what the source of the snapshot reports
  abbrev pub Reports : Position F → Position F → Type ℓ
  Reports q p =
      (p.ticker ≡ q.ticker)
      × (p.direction ≡ q.direction)
      × (p.contract_amount ≡ q.contract_amount)
      × (p.contract_size ≡ q.contract_size)
      × (p.average ≡ q.average)
      × (p.fair_price ≡ q.fair_price)
      × (p.liquidation_price ≡ q.liquidation_price)
      × (p.position_value_usdt ≡ q.position_value_usdt)
      × (p.individual_margin_used ≡ q.individual_margin_used)
      × (p.individual_realized ≡ q.individual_realized)
      × (p.sector ≡ q.sector)

  -- A position of the result is one of the snapshot, with the metadata of the one that was there; a new
  -- one is stamped with the time if it has none.
  abbrev pub IsCarried : String → List (Position F) → List (Position F) → Position F → Type ℓ
  IsCarried now_iso existing incoming p =
      (q : Position F) × Memᴰ q incoming
      × Reports q p
      × ((old : Position F) → find (has_key (key_of q)) existing ≡ some old → KeepsMetadata q old p)
      × (find (has_key (key_of q)) existing ≡ none
          → (p.entry_timestamp
              ≡ (if or_else q.entry_timestamp "" == "" then some now_iso else q.entry_timestamp)))

  preserve-KeepsMetadata : (q old : Position F) → KeepsMetadata q old (preserve_metadata q old)
  unfolding preserve_metadata
  preserve-KeepsMetadata q old = (
    refl,
    refl,
    refl,
    refl,
    refl,
    refl,
    refl,
    refl,
    refl,
    refl,
    refl,
    λ none_new has_old. ground arith,
    λ has_new. ground arith,
    λ moved. ground arith,
    λ still. ground arith,
  )

  carry_from-Reports :
      (now_iso : String) (q : Position F) (o : Option (Position F))
      → Reports q (carry_from now_iso q o)
  unfolding carry_from preserve_metadata
  carry_from-Reports now_iso q (some old) =
      (refl, refl, refl, refl, refl, refl, refl, refl, refl, refl, refl)
  carry_from-Reports now_iso q none = elim (Bool-cases (or_else q.entry_timestamp "" == "")) [
    | inl e ↦ rw e (refl, refl, refl, refl, refl, refl, refl, refl, refl, refl, refl)
    | inr e ↦ rw e (refl, refl, refl, refl, refl, refl, refl, refl, refl, refl, refl)
  ]

  carry_from-stamp :
      (now_iso : String) (q : Position F)
      → (carry_from now_iso q none).entry_timestamp
        ≡ (if or_else q.entry_timestamp "" == "" then some now_iso else q.entry_timestamp)
  unfolding carry_from
  carry_from-stamp now_iso q = ground arith

  carry_over-IsCarried :
      (now_iso : String) (existing incoming : List (Position F)) (q : Position F)
      → Memᴰ q incoming
      → IsCarried now_iso existing incoming (carry_over now_iso existing q)
  unfolding carry_over carry_from
  carry_over-IsCarried now_iso existing incoming q member = (
    q,
    member,
    carry_from-Reports now_iso q (find (has_key (key_of q)) existing),
    λ old found.
        subst (λ o. KeepsMetadata q old (carry_from now_iso q o)) (sym found)
          (preserve-KeepsMetadata q old),
    λ unseen.
        subst
          (λ o.
            (carry_from now_iso q o).entry_timestamp
            ≡ (if or_else q.entry_timestamp "" == "" then some now_iso else q.entry_timestamp))
          (sym unseen) (carry_from-stamp now_iso q),
  )

  map-IsCarried :
      (now_iso : String) (existing incoming ps : List (Position F))
      → ((q : Position F) → Memᴰ q ps → Memᴰ q incoming)
      → All (IsCarried now_iso existing incoming) (map (carry_over now_iso existing) ps)
  map-IsCarried now_iso existing incoming [] within = tt
  map-IsCarried now_iso existing incoming (p ∷ ps) within = (
    carry_over-IsCarried now_iso existing incoming p (within p (Memᴰ.head refl)),
    map-IsCarried now_iso existing incoming ps (λ q m. within q (Memᴰ.tail m)),
  )

  -- What a snapshot comes to, for whether it is to be accepted.
  abbrev pub IsOutcome :
      Bool → String → App F → List (Position F) → Option PositionUpdateResult → App F → Type ℓ
  IsOutcome accept now_iso app incoming none after = (accept ≡ false) × (after ≡ app)
  IsOutcome accept now_iso app incoming (some result) after =
      (accept ≡ true)
      × All (IsCarried now_iso (items app.positions) incoming) after.positions
      × ((k : String × String)
          → (any (has_key k) after.positions ≡ any (has_key k) incoming)
            × (closings k result.closed_positions ≡ (
                if any (has_key k) app.positions && not (any (has_key k) incoming) then 1 else 0)))

  -- A snapshot of the positions is accepted exactly if it is forced or its source and its stamp, or the
  -- clock where it has no stamp, are to be accepted after the last update; one that is rejected leaves
  -- the state as it was. After one that is accepted each position is one of the snapshot, with what the
  -- source reports, and the positions have the keys of the snapshot and no others. Where a position with
  -- its key was there, it keeps all that the engine alone knows of the last such position, its id
  -- where the snapshot has none, and its unrealized result where that is not zero; a new one gets the
  -- time where it has no entry time. A closing event is published once for each key that was there
  -- and has gone, and for no other.
  pub apply_position_snapshot_lem :
      (tables : Tables F) (now_iso : String) (now_ms : ℕ) (source : UpdateSource)
      (incoming : List (Position F)) (ts_ms : ℕ) (force : Bool) (app : App F)
      → let (result, after) =
          apply_position_snapshot tables now_iso now_ms source incoming ts_ms force app in
        let stamp = if ts_ms == 0 then now_ms else ts_ms in
        IsOutcome
          (force || should_accept app.positions_version source stamp)
          now_iso
          app
          incoming
          result
          after
  unfolding apply_position_snapshot
  apply_position_snapshot_lem tables now_iso now_ms source incoming ts_ms force app =
      let ok = should_accept app.positions_version source (if ts_ms == 0 then now_ms else ts_ms) in
      elim (Bool-cases (not force && not ok)) [
        | inl rejected ↦ rw rejected (neither_lem force ok rejected, refl)
        | inr accepted ↦ rw accepted (
          either_lem force ok accepted,
          subst (All _) (sym (recalculate-positions tables _)) (
              All-sorted _ _ _
                (map-IsCarried now_iso (items app.positions) incoming incoming (λ q m. m))),
          λ k. (
            ap (any (has_key k)) (recalculate-positions tables _)
                ∙ any-sorted (has_key k) _ _
                ∙ any-carried now_iso (items app.positions) k incoming,
            closings-gone now_ms k incoming (items app.positions)
                ∙ rw (count-items k app.positions) (ground arith),
          ),
        )
      ]
