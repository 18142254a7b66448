-- ===== src/Stream/Amended.antt =====
-- What becomes of a message about an active order that leaves its status as it is.
use quantamental_engine.Base.{
  String, Bool, true, false, some, List, [], ◌∷◌, ◌==◌, string_eq, map, or_else, ◌≡◌, refl, ◌∙◌, ap,
  sym, arith, Bool-cases, inl, inr,
}
use quantamental_engine.Float.{Float, truthy}
use quantamental_engine.Position.{Position, fresh}
use quantamental_engine.Orders.Row.{Order}
use quantamental_engine.Orders.Store.{active_order}
use quantamental_engine.Orders.Manager.{
  Manager, is_valid, set_account, matches, mark_of, enrich_position, enrich_positions_tpsl,
  refresh_cache,
}
use quantamental_engine.Orders.Manager.Seen.{validate_transition_irrefl}
use quantamental_engine.Orders.Manager.Update.{update_table}
use quantamental_engine.Adapters.Maps.{is_stop}
use quantamental_engine.Adapters.Messages.{NormalizedOrder, parse_order_update, parse_algo_update}
use quantamental_engine.Stream.{
  Standing, placed, gone, other, Surroundings, StreamMessage, of_order, of_algo, order_standing,
  algo_standing, update_first, is_for, adjust, set_tpsl, order_dict, process_order_update,
  apply_order_update, apply_algo_update, handle,
}
use quantamental_engine.Stream.Shown.{dict_of, accepts}

module _ {ℓ} {F : Type ℓ} ⦃f : Float F⦄ where
  -- the order of a message
  abbrev pub order_of : StreamMessage F → NormalizedOrder F
  order_of (of_order m) = parse_order_update m
  order_of (of_algo m) = parse_algo_update m

  -- what a position shows of its target and its stop
  abbrev pub prices : Position F → F × F × Bool
  prices p = (p.individual_tp_price, p.individual_sl_price, p.individual_tpsl)

  -- what the choice of the prices reads of a position
  abbrev seen : Position F → String × String × F × F
  seen p = (p.ticker, p.direction, p.fair_price, p.average)

  abbrev of_seen : String × String × F × F → Position F
  of_seen (ticker, direction, fair_price, average) = record fresh {
    ticker = ticker;
    direction = direction;
    fair_price = fair_price;
    average = average;
  }

  prices-enrich_position :
      (open_orders : List (Order F)) (p : Position F)
      → prices (enrich_position open_orders p)
        ≡ prices (enrich_position open_orders (of_seen (seen p)))
  unfolding enrich_position matches fresh
  prices-enrich_position open_orders p = elim (Bool-cases (truthy (mark_of p))) [
    | inl marked ↦ rw marked refl
    | inr unmarked ↦ rw unmarked refl
  ]

  map-prices-enrich :
      (open_orders : List (Order F)) (ps : List (Position F))
      → map prices (enrich_positions_tpsl open_orders ps)
        ≡ map (λ k. prices (enrich_position open_orders (of_seen k))) (map seen ps)
  unfolding enrich_positions_tpsl
  map-prices-enrich open_orders [] = refl
  map-prices-enrich open_orders (p ∷ ps) =
      rw (prices-enrich_position open_orders p, map-prices-enrich open_orders ps) refl

  seen-adjust :
      (with_usdt : Bool) (s : Standing) (o : NormalizedOrder F) (p : Position F)
      → seen (adjust with_usdt s o p) ≡ seen p
  seen-adjust with_usdt placed o p = ground arith
  seen-adjust with_usdt gone o p = ground arith
  seen-adjust with_usdt other o p = refl

  map-seen-update_first :
      (p : Position F → Bool) (g : Position F → Position F) (ps : List (Position F))
      → ((x : Position F) → seen (g x) ≡ seen x)
      → map seen (update_first p g ps) ≡ map seen ps
  unfolding update_first
  map-seen-update_first p g [] same = refl
  map-seen-update_first p g (x ∷ ps) same = elim (Bool-cases (p x)) [
    | inl on ↦ rw on (ap (λ k. k ∷ map seen ps) (same x))
    | inr off ↦ rw off (ap (λ ks. seen x ∷ ks) (map-seen-update_first p g ps same))
  ]

  map-seen-set_tpsl :
      (with_usdt : Bool) (s : Standing) (o : NormalizedOrder F) (ps : List (Position F))
      → map seen (set_tpsl with_usdt s o ps) ≡ map seen ps
  unfolding set_tpsl
  map-seen-set_tpsl with_usdt s o ps = elim (Bool-cases (is_stop o.order_type)) [
    | inl on ↦
        rw on
          (map-seen-update_first (is_for o) (adjust with_usdt s o) ps (seen-adjust with_usdt s o))
    | inr off ↦ rw off refl
  ]

  -- what the handler of a message writes on the positions itself
  abbrev adjusted : StreamMessage F → List (Position F) → List (Position F)
  adjusted (of_order m) ps =
      let o = parse_order_update m in
      set_tpsl true (order_standing (or_else o.execution_type "")) o ps
  adjusted (of_algo m) ps =
      let o = parse_algo_update m in
      set_tpsl false (algo_standing (or_else o.execution_type "")) o ps

  map-seen-adjusted :
      (m : StreamMessage F) (ps : List (Position F)) → map seen (adjusted m ps) ≡ map seen ps
  map-seen-adjusted (of_order m) ps = map-seen-set_tpsl true _ _ ps
  map-seen-adjusted (of_algo m) ps = map-seen-set_tpsl false _ _ ps

  handle-process :
      (s : Surroundings F) (m : StreamMessage F) (h : Manager F)
      → handle (s, m) h
        ≡ process_order_update s (dict_of s m) (record h { positions = adjusted m h.positions })
  unfolding handle apply_order_update apply_algo_update
  handle-process s (of_order m) h = refl
  handle-process s (of_algo m) h = refl

  handle-refused :
      (s : Surroundings F) (m : StreamMessage F) (h : Manager F)
      → accepts s m h ≡ false
      → handle (s, m) h ≡ record h { positions = adjusted m h.positions }
  unfolding process_order_update
  handle-refused s m h refused = handle-process s m h ∙ rw refused refl

  unchanged-refused :
      (s : Surroundings F) (m : StreamMessage F) (h : Manager F) {r : Order F}
      → ((order_of m).exchange_order_id == "") ≡ false
      → active_order s.active_account_id (order_of m).exchange_order_id h.orders ≡ some r
      → r.status ≡ (order_of m).status
      → accepts s m h ≡ false
  unfolding update_table is_valid set_account order_dict
  unchanged-refused s (of_order m) h {r} named found same =
      let irrefl = validate_transition_irrefl r.status in ground arith
  unchanged-refused s (of_algo m) h {r} named found same =
      let irrefl = validate_transition_irrefl r.status in ground arith

  -- the same orders, the same cache, and the same prices and flags
  abbrev pub ShowsSame : Manager F → Manager F → Type ℓ
  ShowsSame x y =
      (x.orders ≡ y.orders)
      × (x.open_orders ≡ y.open_orders)
      × (map prices x.positions ≡ map prices y.positions)

  refreshed-ShowsSame :
      (s : Surroundings F) (m : StreamMessage F) (h : Manager F) (ps : List (Position F))
      → map seen ps ≡ map seen h.positions
      → accepts s m h ≡ true
      → ShowsSame (handle (s, m) (record h { positions = ps })) (handle (s, m) h)
  unfolding process_order_update refresh_cache
  refreshed-ShowsSame s m h ps same accepted =
      rw (handle-process s m (record h { positions = ps }), handle-process s m h, accepted)
        (
          refl,
          refl,
          map-prices-enrich _ (adjusted m ps)
              ∙ ap (map _) (map-seen-adjusted m ps ∙ same ∙ sym (map-seen-adjusted m h.positions))
              ∙ sym (map-prices-enrich _ (adjusted m h.positions)),
        )

  -- A message that carries the status its active order is stored with, as one that amends the order's
  -- stop price does, is undone by the next message whose order is accepted: the orders table, the
  -- cache of open orders, and the two prices and the flag of every position are then as if it had never
  -- come. The table keeps the order as it was before the amendment.
  pub amendment_undone :
      (s t : Surroundings F) (m n : StreamMessage F) (h : Manager F) {r : Order F}
      → ((order_of m).exchange_order_id == "") ≡ false
      → active_order s.active_account_id (order_of m).exchange_order_id h.orders ≡ some r
      → r.status ≡ (order_of m).status
      → accepts t n h ≡ true
      → ((handle (s, m) h).orders ≡ h.orders)
        × ShowsSame (handle (t, n) (handle (s, m) h)) (handle (t, n) h)
  amendment_undone s t m n h {r} named found same accepted =
      let refused = unchanged-refused s m h {r = r} named found same in
      rw (handle-refused s m h refused) (
        refl,
        refreshed-ShowsSame t n h (adjusted m h.positions) (map-seen-adjusted m h.positions)
            accepted,
      )
