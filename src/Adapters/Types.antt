-- ===== src/Adapters/Types.antt =====
-- The types of orders: there and back, and what the suffix of an entry stop does at the gate and at the
-- enrichment.
use quantamental_engine.Base.{
  String, Bool, true, false, ◌||◌, not, none, some, [], ◌∷◌, string_eq, eq_iff, All, ◌≡◌, refl,
  arith, inl, inr, ◌⊎◌,
}
use quantamental_engine.Float.{Float}
use quantamental_engine.Orders.Row.{OrderDict}
use quantamental_engine.Gate.{is_new_entry}
use quantamental_engine.Enrichment.{is_child}
use quantamental_engine.Adapters.Maps.{
  Dict, lookup_in, is_stop, with_suffix, binance_type, order_type_to_binance,
  order_type_from_binance, order_type_to_bybit, order_type_from_bybit,
}

-- what holds of every entry holds of what is looked up
pub lookup_in_All :
    (P : String → String → Type 0) (d : Dict) (k v : String)
    → All (λ e. P e.0 e.1) d
    → lookup_in d k ≡ some v
    → P k v
unfolding lookup_in
lookup_in_All P [] k v h e = ground arith
lookup_in_All P ((a, b) ∷ d) k v h e = ground (arith, eq_iff a k, lookup_in_All P d k v h.1)

pub data Exchange : Type 0 where
  binance bybit : Exchange

abbrev pub types_to : Exchange → Dict
types_to binance = order_type_to_binance
types_to bybit = order_type_to_bybit

abbrev pub types_from : Exchange → Dict
types_from binance = order_type_from_binance
types_from bybit = order_type_from_bybit

-- A type that the engine has a name of the exchange for is read back from that name as itself.
pub type_read_back :
    (e : Exchange) (t name : String)
    → lookup_in (types_to e) t ≡ some name
    → lookup_in (types_from e) name ≡ some t
unfolding lookup_in
type_read_back binance t name =
    lookup_in_All (λ t name. lookup_in order_type_from_binance name ≡ some t) order_type_to_binance
      t name (refl, (refl, (refl, (refl, tt))))
type_read_back bybit t name =
    lookup_in_All (λ t name. lookup_in order_type_from_bybit name ≡ some t) order_type_to_bybit t
      name (refl, (refl, (refl, (refl, tt))))

is_stop_cases : (u : String) → is_stop u ≡ true → (u ≡ "stop_loss") ⊎ (u ≡ "take_profit")
is_stop_cases u h = ground (arith, eq_iff u "stop_loss", eq_iff u "take_profit")

module _ {ℓ} {F : Type ℓ} ⦃f : Float F⦄ where
  gated :
      (o : OrderDict F) (t : String) (reduces closes : Bool)
      → (t ≡ "stop_loss") ⊎ (t ≡ "take_profit")
      → o.order_type ≡ some (with_suffix t (reduces || closes))
      → o.reduce_only ≡ some reduces
      → o.close_position ≡ none
      → (is_new_entry o ≡ not (reduces || closes)) × (is_child o ≡ (reduces || closes))
  unfolding is_new_entry with_suffix
  gated o t true closes (inl e) typed reduced uncl = rw (typed, reduced, e) (refl, refl)
  gated o t false true (inl e) typed reduced uncl = rw (typed, reduced, uncl, e) (refl, refl)
  gated o t false false (inl e) typed reduced uncl = rw (typed, reduced, uncl, e) (refl, refl)
  gated o t true closes (inr e) typed reduced uncl = rw (typed, reduced, e) (refl, refl)
  gated o t false true (inr e) typed reduced uncl = rw (typed, reduced, uncl, e) (refl, refl)
  gated o t false false (inr e) typed reduced uncl = rw (typed, reduced, uncl, e) (refl, refl)

  -- A stop that Binance reports, and that the engine reads as such, is a new entry for the gate unless it
  -- reduces or closes the position, and a child order for the enrichment exactly if it does.
  pub stop_gated :
      (o : OrderDict F) (raw u : String) (reduces closes : Bool)
      → lookup_in order_type_from_binance raw ≡ some u
      → is_stop u ≡ true
      → o.order_type ≡ some (binance_type raw reduces closes)
      → o.reduce_only ≡ some reduces
      → o.close_position ≡ none
      → (is_new_entry o ≡ not (reduces || closes)) × (is_child o ≡ (reduces || closes))
  stop_gated o raw u reduces closes read stop typed =
      gated o u reduces closes (is_stop_cases u stop) (rw read at typed)
