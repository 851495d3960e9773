-- ===== src/Client/Lookup/Wrapped.antt =====
-- The lookups of a client whose cached discovery is wrapped, as calls on the cache alone.
use kube_client.Prelude.{
  ℕ, String, true, false, ◌==◌, Option, none, some, List, ◌≡◌, ◌≢◌, refl, sym, ap, ◌∙◌, subst, inl,
  inr, Bool-cases, arith, str_eq, eq_iff,
}
use kube_client.Api.{GroupVersion, ApiResourceList}
use kube_client.Client.Backend.{Services}
use kube_client.Client.Discovery.{
  Client, init_sf_discovery, sf_resources_for, sf_invalidate, set_cache, on_discovery,
}
use kube_client.Client.Lookup.{
  server_resources_for, invalidate_discovery, invalidate_cache, listed, api_resource_list_uncached,
  api_resource_list_once,
}

module _ (s : Services) where
  -- The wrapper is around the cached discovery object p, or the first call will wrap that object.
  abbrev pub IsWrapped : ℕ → Client s → Type 0
  IsWrapped p c = (init_sf_discovery s c).sf_discovery ≡ some p

  -- The state of the wrapped cache.
  abbrev pub cache_of : ℕ → Client s → s.cache.State
  cache_of p c = (init_sf_discovery s c).caches p

  -- The wrapper, called by one goroutine, answers what the cache answers.
  pub sf_resources_for_lem :
      (gv : String) (st : s.cache.State) → sf_resources_for s gv st ≡ s.cache.resources_for gv st
  unfolding sf_resources_for
  sf_resources_for_lem gv st =
      rw
        (s.flight.run_alone s.cache.State (Option ApiResourceList) gv (s.cache.resources_for gv) st)
        refl

  pub api_resource_list_once_lem :
      (v : String) (c : Client s) → api_resource_list_once s v c ≡ api_resource_list_uncached s v c
  unfolding api_resource_list_once
  api_resource_list_once_lem v c =
      rw (s.flight.run_alone (Client s) (List ApiResourceList) _ (api_resource_list_uncached s v) c)
        refl

  init-once : (c : Client s) → (init_sf_discovery s c).sf_discovery_once ≡ true
  unfolding init_sf_discovery
  init-once c = elim (Bool-cases c.sf_discovery_once) [
    | inl once ↦ rw once refl
    | inr first ↦ rw first refl
  ]

  init-again : (c : Client s) → c.sf_discovery_once ≡ true → init_sf_discovery s c ≡ c
  unfolding init_sf_discovery
  init-again c once = rw once refl

  init-set_cache :
      (p : ℕ) (st : s.cache.State) (c : Client s)
      → init_sf_discovery s (set_cache s p st (init_sf_discovery s c))
        ≡ set_cache s p st (init_sf_discovery s c)
  unfolding set_cache
  init-set_cache p st c = init-again (set_cache s p st (init_sf_discovery s c)) (init-once c)

  at_own : (p : ℕ) → (p == p) ≡ true
  at_own p = ground arith

  -- A call leaves the same object wrapped, with the state that the call put into it.
  pub set_cache-IsWrapped :
      (p : ℕ) (st : s.cache.State) (c : Client s)
      → IsWrapped p c
      → IsWrapped p (set_cache s p st (init_sf_discovery s c))
        × (cache_of p (set_cache s p st (init_sf_discovery s c)) ≡ st)
  unfolding set_cache
  set_cache-IsWrapped p st c h = (
    ap (λ c'. c'.sf_discovery) (init-set_cache p st c) ∙ h,
    ap (λ c'. c'.caches p) (init-set_cache p st c) ∙ (rw (at_own p) refl),
  )

  pub server_resources_for-wrapped :
      (gv : String) (p : ℕ) (c : Client s)
      → IsWrapped p c
      → server_resources_for s gv c ≡ (
        (s.cache.resources_for gv (cache_of p c)).0,
        set_cache s p (s.cache.resources_for gv (cache_of p c)).1 (init_sf_discovery s c),
      )
  unfolding server_resources_for
  server_resources_for-wrapped gv p c h =
      ap
        (λ o.
          on_discovery s (sf_resources_for s gv) (s.plain.resources_for gv) o
            (init_sf_discovery s c))
        h
      ∙ ap (λ a. (a.0, set_cache s p a.1 (init_sf_discovery s c)))
          (sf_resources_for_lem gv (cache_of p c))

  pub invalidate_discovery-IsWrapped :
      (p : ℕ) (c : Client s)
      → IsWrapped p c
      → IsWrapped p (invalidate_discovery s c)
        × (cache_of p (invalidate_discovery s c) ≡ s.cache.invalidate (cache_of p c))
  unfolding invalidate_discovery sf_invalidate
  invalidate_discovery-IsWrapped p c h =
      subst
        (λ o.
          IsWrapped p (invalidate_cache s o (init_sf_discovery s c))
          × (cache_of p (invalidate_cache s o (init_sf_discovery s c))
              ≡ s.cache.invalidate (cache_of p c)))
        (sym h) (set_cache-IsWrapped p _ c h)

  -- For an apiVersion that parses, the lists are the one that the cache answers.
  pub api_resource_list_once-wrapped :
      (v : String) (gv : GroupVersion) (p : ℕ) (c : Client s)
      → v ≢ ""
      → s.schema.parse v ≡ some gv
      → IsWrapped p c
      → api_resource_list_once s v c ≡ (
        listed s v (s.cache.resources_for (s.schema.print gv) (cache_of p c)).0,
        set_cache s p
            (s.cache.resources_for (s.schema.print gv) (cache_of p c)).1
            (init_sf_discovery s c),
      )
  unfolding api_resource_list_uncached
  api_resource_list_once-wrapped v gv p c named parsed h =
      api_resource_list_once_lem v c
      ∙ (rw (str_neq v named, parsed)
          (ap (λ a. (listed s v a.0, a.1))
            (server_resources_for-wrapped (s.schema.print gv) p c h)))
    where
      str_neq : (v : String) → v ≢ "" → str_eq v "" ≡ false
      str_neq v h = ground (arith, eq_iff v "")

  -- If the first discovery call comes before there is a cached discovery object, then an object that
  -- the client gets later is not used: lookups ask the plain discovery, and invalidation does nothing.
  pub init_sf_discovery-late :
      (c : Client s) (cached : Option ℕ) (gv : String)
      → c.sf_discovery_once ≡ false
      → c.cached_discovery ≡ none
      → let c' : Client s = record (init_sf_discovery s c) { cached_discovery = cached } in
        (invalidate_discovery s c' ≡ c')
        × ((server_resources_for s gv c').0 ≡ (s.plain.resources_for gv c'.plain_state).0)
  unfolding invalidate_discovery server_resources_for init_sf_discovery
  init_sf_discovery-late c cached gv first empty = (rw (first, empty) refl, rw (first, empty) refl)
