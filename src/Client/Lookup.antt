-- ===== src/Client/Lookup.antt =====
-- client/client.go: the lists of resources, the lookup of one resource, and how both retry after
-- the discovery cache is invalidated.
pub mod Wrapped
pub mod Again
pub mod Fresh
pub mod Located
use Prim.Native.String.{◌++◌ as ◌<>◌}
use kube_client.Prelude.{
  ℕ, String, Bool, true, false, Option, none, some, List, [], ◌∷◌, str_eq, if◌then◌else◌, Result,
  ok, fail,
}
use kube_client.Api.{
  GroupVersion, GroupVersionResource, ApiResource, ApiResourceList, parse_or_zero,
}
use kube_client.Client.Backend.{Error, Reply, Services}
use kube_client.Client.Discovery.{
  Client, contains, wrap, on_discovery, init_sf_discovery, sf_resources_for, sf_preferred,
  sf_groups_and_resources, sf_invalidate, set_cache, get_api_resource_from_resource_lists,
}

abbrev pub Lists : Type 0
Lists = Reply (List ApiResourceList)

abbrev pub no_resources : String → String
no_resources api_version =
    "apiVersion '" <> (api_version <> "' has no supported resources in cluster")

abbrev pub unsupported : String → String → String
unsupported api_version kind =
    "apiVersion '" <> (api_version <> ("', kind '" <> (kind <> "' is not supported by cluster")))

module _ (s : Services) where
  -- `c.discovery().ServerResourcesForGroupVersion(gv)` and the other two calls of `c.discovery()`
  unfoldable pub server_resources_for :
      String → Client s → Reply (Option ApiResourceList) × Client s
  unfolding init_sf_discovery sf_resources_for set_cache
  server_resources_for gv c =
      let c' = init_sf_discovery s c in
      on_discovery s (sf_resources_for s gv) (s.plain.resources_for gv) c'.sf_discovery c'

  unfoldable pub server_preferred : Client s → Lists × Client s
  unfolding init_sf_discovery sf_preferred set_cache
  server_preferred c =
      let c' = init_sf_discovery s c in
      on_discovery s (sf_preferred s) s.plain.preferred c'.sf_discovery c'

  unfoldable pub server_groups_and_resources : Client s → Lists × Client s
  unfolding init_sf_discovery sf_groups_and_resources set_cache
  server_groups_and_resources c =
      let c' = init_sf_discovery s c in
      on_discovery s (sf_groups_and_resources s) s.plain.groups_and_resources c'.sf_discovery c'

  abbrev pub invalidate_cache : Option ℕ → Client s → Client s
  invalidate_cache none c = c
  invalidate_cache (some p) c = set_cache s p (sf_invalidate s (c.caches p)) c

  -- `invalidateDiscovery`, which `InvalidateDiscoveryCache` calls
  unfoldable pub invalidate_discovery : Client s → Client s
  unfolding init_sf_discovery
  invalidate_discovery c = let c' = init_sf_discovery s c in invalidate_cache c'.sf_discovery c'

  abbrev pub raw_is_fake : Option ℕ → Bool
  raw_is_fake (some p) = s.cache.is_fake
  raw_is_fake none = s.plain.is_fake

  -- One list without an error; `resources_for-some` says that it is not nil then.
  abbrev pub listed : String → Reply (Option ApiResourceList) → Lists
  listed api_version r = elim r.err [
    | some e ↦ record { value = []; err = some (wrap (no_resources api_version) e) }
    | none ↦ record { value = elim r.value [ none ↦ [] | some l ↦ l ∷ [] ]; err = none }
  ]

  abbrev pub lists_of : String → Option GroupVersion → Client s → Lists × Client s
  lists_of api_version none c =
      let message = "apiVersion '" <> (api_version <> "' is invalid") in
      (record { value = []; err = some (record { text = message; is_not_found = false }) }, c)
  lists_of api_version (some gv) c =
      let (r, c') = server_resources_for (s.schema.print gv) c in (listed api_version r, c')

  -- `apiResourceListUncached`
  unfoldable pub api_resource_list_uncached : String → Client s → Lists × Client s
  unfolding server_preferred server_groups_and_resources
  api_resource_list_uncached api_version c =
      if str_eq api_version ""
      then (if raw_is_fake c.cached_discovery
          then server_groups_and_resources c
          else server_preferred c)
      else lists_of api_version (s.schema.parse api_version) c

  -- A nil interface gives a nil slice.
  abbrev pub unbox_lists : Reply (Option (List ApiResourceList)) → Lists
  unbox_lists r = elim r.value [
    | none ↦ record { value = []; err = r.err }
    | some v ↦ record { value = v; err = r.err }
  ]

  -- `apiResourceList`
  unfoldable pub api_resource_list_once : String → Client s → Lists × Client s
  unfolding api_resource_list_uncached
  api_resource_list_once api_version c =
      let (r, c') =
        s.flight.run (Client s) (List ApiResourceList) ("apiResourceList:" <> api_version)
          (api_resource_list_uncached api_version) c in
      (unbox_lists r, c')

  abbrev pub relist : String → Lists → Option Error → Client s → Lists × Client s
  relist api_version r none c = (r, c)
  relist api_version r (some e) c =
      if contains e.text "not found"
      then api_resource_list_once api_version (invalidate_discovery c)
      else (r, c)

  -- `APIResourceList`
  unfoldable pub api_resource_list : String → Client s → Lists × Client s
  unfolding api_resource_list_once
  api_resource_list api_version c =
      let (r, c') = api_resource_list_once api_version c in relist api_version r r.err c'

  abbrev pub or_not_found : String → String → Option ApiResource → Result Error ApiResource
  or_not_found api_version kind (some r) = ok r
  or_not_found api_version kind none =
      fail (s.new_not_found (parse_or_zero s.schema api_version).group kind)

  abbrev pub picked :
      String → String → Option Error → List ApiResourceList → Result Error ApiResource
  picked api_version kind (some e) [] = fail e
  picked api_version kind none [] =
      or_not_found api_version kind (get_api_resource_from_resource_lists s kind [])
  picked api_version kind err (l ∷ ls) =
      or_not_found api_version kind (get_api_resource_from_resource_lists s kind (l ∷ ls))

  -- `apiResource`
  unfoldable pub api_resource_once :
      String → String → Client s → Result Error ApiResource × Client s
  unfolding api_resource_list get_api_resource_from_resource_lists
  api_resource_once api_version kind c =
      let (r, c') = api_resource_list api_version c in (picked api_version kind r.err r.value, c')

  abbrev pub or_unsupported : String → String → Result Error ApiResource → Result Error ApiResource
  or_unsupported api_version kind (ok r) = ok r
  or_unsupported api_version kind (fail e) = fail (wrap (unsupported api_version kind) e)

  abbrev pub again :
      String → String → Result Error ApiResource → Client s → Result Error ApiResource × Client s
  again api_version kind (ok r) c = (ok r, c)
  again api_version kind (fail e) c =
      if e.is_not_found
      then (let (r, c') = api_resource_once api_version kind (invalidate_discovery c) in
          (or_unsupported api_version kind r, c'))
      else (fail (wrap (unsupported api_version kind) e), c)

  -- `APIResource`
  unfoldable pub api_resource : String → String → Client s → Result Error ApiResource × Client s
  unfolding api_resource_once
  api_resource api_version kind c =
      let (r, c') = api_resource_once api_version kind c in again api_version kind r c'

  abbrev pub gvr_or_error : Result Error ApiResource → Result Error GroupVersionResource
  gvr_or_error (fail e) = fail e
  gvr_or_error (ok r) = ok (record { group = r.group; version = r.version; resource = r.name })

  -- `GroupVersionResource`
  unfoldable pub group_version_resource :
      String → String → Client s → Result Error GroupVersionResource × Client s
  unfolding api_resource
  group_version_resource api_version kind c =
      let (r, c') = api_resource api_version kind c in (gvr_or_error r, c')

  abbrev wrapped_or : Option ℕ → Option ℕ → Option ℕ
  wrapped_or (some p) cached = some p
  wrapped_or none cached = cached

  -- `ToDiscoveryClient`: the object behind what it returns, and the client
  unfoldable pub to_discovery_client : Client s → Option ℕ × Client s
  unfolding init_sf_discovery
  to_discovery_client c =
      let c' = init_sf_discovery s c in (wrapped_or c'.sf_discovery c'.cached_discovery, c')
