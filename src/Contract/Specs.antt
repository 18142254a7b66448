-- ===== src/Contract/Specs.antt =====
-- The cache of specs: what it hands out is not out of date.
use quantamental_engine.Base.{
  ℕ, ◌-◌, ◌<◌, String, Option, some, [], ◌∷◌, ◌==◌, string_eq, ==_refl, eq_iff, if◌then◌else◌, ◌≡◌,
  refl, arith,
}
use quantamental_engine.Contract.{
  ContractSpec, SpecCache, get_spec, set_spec, spec_ttl_ms, get_contract_spec, keep_spec,
}

module _ {ℓ} {D : Type ℓ} where
  get_spec-set_spec :
      (j k : String) (s : ContractSpec D) (cache : SpecCache D)
      → get_spec j (set_spec k s cache) ≡ (if k == j then some s else get_spec j cache)
  get_spec-set_spec j k s [] = refl
  get_spec-set_spec j k s ((i, t) ∷ cache) =
      ground (arith, eq_iff i k, eq_iff i j, eq_iff k j, get_spec-set_spec j k s cache)

  get_spec-set_spec_self :
      (k : String) (s : ContractSpec D) (cache : SpecCache D)
      → get_spec k (set_spec k s cache) ≡ some s
  get_spec-set_spec_self k s cache = ground (arith, get_spec-set_spec k k s cache, ==_refl k)

  module _ (fetch : String → Option (ContractSpec D)) (now : ℕ) (symbol : String) where
    fetched_lem :
        (cache : SpecCache D) (s : ContractSpec D)
        → ((t : ContractSpec D) → fetch symbol ≡ some t → t.fetched_at ≡ now)
        → fetch symbol ≡ some s
        → (now - s.fetched_at < spec_ttl_ms)
          × (get_spec symbol (keep_spec symbol (fetch symbol) cache) ≡ some s)
    fetched_lem cache s stamped h =
        rw h (rw (stamped s h) (omega arith), get_spec-set_spec_self symbol s cache)

    -- A spec that is handed out was fetched less than four hours ago, or is what the adapter gives now,
    -- and is then kept: asked again at the same time, the cache answers it.
    pub get_contract_spec_lem :
        (cache : SpecCache D) (s : ContractSpec D)
        → ((t : ContractSpec D) → fetch symbol ≡ some t → t.fetched_at ≡ now)
        → (get_contract_spec fetch now symbol cache).0 ≡ some s
        → (now - s.fetched_at < spec_ttl_ms)
          × (get_spec symbol (get_contract_spec fetch now symbol cache).1 ≡ some s)
    unfolding get_contract_spec
    get_contract_spec_lem cache s stamped = ground (arith, fetched_lem cache s stamped)
