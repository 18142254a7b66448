-- ===== src/Orders/Manager/Protection.antt =====
-- The take-profit and stop-loss prices that `enrich_positions_tpsl` puts on a position.
use mathlib.Core.List.{Memᴰ}
use quantamental_engine.Base.{
  String, true, false, ◌||◌, List, [], ◌∷◌, ◌≡◌, refl, ◌⊎◌, inl, inr, arith, All, filter,
  Bool-cases, filter_empty, Mem-filter, All-of_filter,
}
use quantamental_engine.Float.{Float, IsOrdered, ◌≼◌, nought, fabs, flt, truthy}
use quantamental_engine.Position.{Position}
use quantamental_engine.Orders.Row.{Order}
use quantamental_engine.Orders.Manager.{nearest, matches, trigger_price, mark_of, enrich_position}

skip_second {ℓ} : {A : Type ℓ} {x y z : A} {xs : List A} → Memᴰ x (y ∷ xs) → Memᴰ x (y ∷ z ∷ xs)
skip_second (Memᴰ.head e) = Memᴰ.head e
skip_second (Memᴰ.tail m) = Memᴰ.tail (Memᴰ.tail m)

module _ {ℓ} {F : Type ℓ} ⦃f : Float F⦄ where
  abbrev pub distance : F → Order F → F
  distance mark o = fabs (f.sub o.stop_price mark)

  nearest-Mem :
      (mark : F) (best : Order F) (os : List (Order F)) → Memᴰ (nearest mark best os) (best ∷ os)
  unfolding nearest
  nearest-Mem mark best [] = Memᴰ.head refl
  nearest-Mem mark best (o ∷ os) = elim (Bool-cases (flt (distance mark o) (distance mark best))) [
    | inl closer ↦ rw closer (Memᴰ.tail (nearest-Mem mark o os))
    | inr farther ↦ rw farther (skip_second (nearest-Mem mark best os))
  ]

  module _ (laws : IsOrdered F) where
    open laws use {le_refl, le_trans, le_total}

    nearest-le :
        (mark : F) (best : Order F) (os : List (Order F)) (n : Order F)
        → nearest mark best os ≡ n
        → All (λ q. distance mark n ≼ distance mark q) (best ∷ os)
    unfolding nearest
    nearest-le mark best [] n e = (rw e (le_refl _), tt)
    nearest-le mark best (o ∷ os) n e =
        elim (Bool-cases (flt (distance mark o) (distance mark best))) [
          | inl closer ↦
              let (least, rest) = nearest-le mark o os n (rw closer at e) in
              (
                le_trans _ _ _ least
                    (ground (arith, le_total (distance mark o) (distance mark best))),
                (least, rest),
              )
          | inr farther ↦
              let (least, rest) = nearest-le mark best os n (rw farther at e) in
              (least, (le_trans _ _ _ least (ground arith), rest))
        ]

    -- Either no open order matches and the price is zero, or the price is the stop price of a matching
    -- open order that is nearest to the mark among those that match.
    abbrev pub IsNearestOf : String → Position F → List (Order F) → F → Type ℓ
    IsNearestOf order_type pos open_orders price =
        (All (λ o. matches order_type pos o ≡ false) open_orders × (price ≡ nought))
        ⊎ ((o : Order F) × Memᴰ o open_orders
            × (matches order_type pos o ≡ true)
            × (price ≡ o.stop_price)
            × All
                (λ q.
                  matches order_type pos q ≡ true
                  → distance (mark_of pos) o ≼ distance (mark_of pos) q)
                open_orders)

    trigger_price_lem :
        (order_type : String) (pos : Position F) (open_orders : List (Order F))
        → IsNearestOf order_type pos open_orders
            (trigger_price (mark_of pos) (filter (matches order_type pos) open_orders))
    unfolding trigger_price
    trigger_price_lem order_type pos open_orders =
        go (filter (matches order_type pos) open_orders) refl
      where
        go :
            (cs : List (Order F))
            → filter (matches order_type pos) open_orders ≡ cs
            → IsNearestOf order_type pos open_orders (trigger_price (mark_of pos) cs)
        go [] e = inl (filter_empty _ open_orders e, refl)
        go (c ∷ cs) e =
            let best = nearest (mark_of pos) c cs in
            let chosen : Memᴰ best (filter (matches order_type pos) open_orders) =
              rw e (nearest-Mem (mark_of pos) c cs) in
            let (member, fits) = Mem-filter (matches order_type pos) open_orders chosen in
            inr (
              best,
              member,
              fits,
              refl,
              All-of_filter (matches order_type pos) _ open_orders
                  (rw e (nearest-le (mark_of pos) c cs best refl)),
            )

    -- On a position with a mark, each of the two prices is that of the nearest matching open order, or
    -- zero where none matches, and the flag tells whether one of them is positive.
    pub enrich_position_lem :
        (open_orders : List (Order F)) (pos : Position F)
        → truthy (mark_of pos) ≡ true
        → let p = enrich_position open_orders pos in
          IsNearestOf "take_profit" pos open_orders p.individual_tp_price
          × IsNearestOf "stop_loss" pos open_orders p.individual_sl_price
          × (p.individual_tpsl
              ≡ (flt nought p.individual_tp_price || flt nought p.individual_sl_price))
    unfolding enrich_position
    enrich_position_lem open_orders pos h = rw h (
      trigger_price_lem "take_profit" pos open_orders,
      trigger_price_lem "stop_loss" pos open_orders,
      refl,
    )

  -- Enriching a position again from the same open orders changes nothing.
  pub enrich_position_idem :
      (open_orders : List (Order F)) (pos : Position F)
      → enrich_position open_orders (enrich_position open_orders pos)
        ≡ enrich_position open_orders pos
  unfolding enrich_position matches
  enrich_position_idem open_orders pos = elim (Bool-cases (truthy (mark_of pos))) [
    | inl e ↦ rw (e, e)
    | inr e ↦ rw (e, e)
  ]
