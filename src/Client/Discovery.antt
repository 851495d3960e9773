-- ===== src/Client/Discovery.antt =====
-- client/client.go: the discovery wrapper, the lists of resources, and the lookup of one resource.
pub mod Search
use Prim.Native.String.{◌++◌ as ◌<>◌}
use text.Mathlib.Text.{find?}
use kube_client.Prelude.{
  ℕ, String, Bool, true, false, ◌&&◌, ◌||◌, Option, none, some, List, [], ◌∷◌, ◌++◌, str_eq, ◌==◌,
  if◌then◌else◌,
}
use kube_client.Api.{
  GroupVersion, GroupVersionResource, ApiResource, ApiResourceList, parse_or_zero,
}
use kube_client.Api.Fold.{to_lower, text_eq}
use kube_client.Client.Backend.{Error, Reply, Services}

-- `strings.Contains`
unfoldable pub contains : String → String → Bool
contains s sub = elim (find? s sub) [ none ↦ false | some _ ↦ true ]

-- A copy of the resource with the group and version of its list, `resource` in the loop.
unfoldable pub placed : ApiResource → GroupVersion → ApiResource
placed r gv = record r { group = gv.group; version = gv.version }

-- A text before an error that stays underneath, `errors.Wrapf` or `%w`.
unfoldable pub wrap : String → Error → Error
wrap message err = record { text = message <> (": " <> err.text); is_not_found = err.is_not_found }

module _ (s : Services) where
  -- The discovery part of `Client`. The cached discovery objects are numbered: `cached_discovery`
  -- and `sf_discovery` point to them.
  pub record Client : Type 0 where
    pub cached_discovery : Option ℕ
    pub sf_discovery : Option ℕ
    pub sf_discovery_once : Bool
    pub caches : ℕ → s.cache.State
    pub plain_state : s.plain.State

  -- `equalLowerCasedToOneOf`: without choices the loop is not entered.
  unfoldable pub equal_lower_cased_to_one_of : String → List String → Bool
  equal_lower_cased_to_one_of term [] = false
  equal_lower_cased_to_one_of term (choice ∷ choices) =
      if text_eq (to_lower s.unicode term) (to_lower s.unicode choice)
      then true
      else equal_lower_cased_to_one_of term choices

  -- What `getApiResourceFromResourceLists` asks of a resource.
  abbrev pub is_wanted : String → ApiResource → Bool
  is_wanted kind r = elim r.verbs [
    | [] ↦ false
    | verb ∷ verbs ↦ equal_lower_cased_to_one_of kind (r.short_names ++ (r.kind ∷ r.name ∷ []))
  ]

  -- The inner and the outer loop of `getApiResourceFromResourceLists`.
  unfoldable pub get_api_resource_from_list :
      String → GroupVersion → List ApiResource → Option ApiResource
  get_api_resource_from_list kind gv [] = none
  get_api_resource_from_list kind gv (r ∷ rs) =
      if is_wanted kind r then some (placed r gv) else get_api_resource_from_list kind gv rs

  abbrev pub or_later : Option ApiResource → Option ApiResource → Option ApiResource
  or_later (some r) _ = some r
  or_later none later = later

  unfoldable pub get_api_resource_from_resource_lists :
      String → List ApiResourceList → Option ApiResource
  unfolding get_api_resource_from_list
  get_api_resource_from_resource_lists kind [] = none
  get_api_resource_from_resource_lists kind (l ∷ ls) =
      or_later
        (get_api_resource_from_list kind (parse_or_zero s.schema l.group_version) l.api_resources)
        (get_api_resource_from_resource_lists kind ls)

  -- `sfCachedDiscovery`, over the state of the object that it wraps. `v == nil` is an empty box.
  abbrev pub unbox : Reply (Option (Option ApiResourceList)) → Reply (Option ApiResourceList)
  unbox r = elim r.value [
    | none ↦ record { value = none; err = r.err }
    | some v ↦ record { value = v; err = r.err }
  ]

  unfoldable pub sf_resources_for :
      String → s.cache.State → Reply (Option ApiResourceList) × s.cache.State
  sf_resources_for gv st =
      let (r, st') =
        s.flight.run s.cache.State (Option ApiResourceList) gv (s.cache.resources_for gv) st in
      (unbox r, st')

  unfoldable pub sf_preferred : s.cache.State → Reply (List ApiResourceList) × s.cache.State
  unfolding sf_resources_for
  sf_preferred st =
      if s.cache.is_aggregated
      then s.cache.preferred st
      else s.preferred_through s.cache.State s.cache.groups sf_resources_for st

  unfoldable pub sf_groups_and_resources :
      s.cache.State → Reply (List ApiResourceList) × s.cache.State
  unfolding sf_resources_for
  sf_groups_and_resources st =
      if s.cache.is_aggregated
      then s.cache.groups_and_resources st
      else s.groups_and_resources_through s.cache.State s.cache.groups sf_resources_for st

  -- One goroutine runs here, so the mutex of `Invalidate` is free.
  unfoldable pub sf_invalidate : s.cache.State → s.cache.State
  sf_invalidate st = s.cache.invalidate st

  unfoldable pub set_cache : ℕ → s.cache.State → Client → Client
  set_cache p st c = record c { caches = λ q. if q == p then st else c.caches q }

  -- `initSFDiscovery`: the first call alone wraps what `cachedDiscovery` is then.
  unfoldable pub init_sf_discovery : Client → Client
  init_sf_discovery c =
      if c.sf_discovery_once
      then c
      else record c { sf_discovery = c.cached_discovery; sf_discovery_once = true }

  abbrev pub on_cache : {A : Type 0} → ℕ → (s.cache.State → A × s.cache.State) → Client → A × Client
  on_cache p call c = let (a, st) = call (c.caches p) in (a, set_cache p st c)

  abbrev pub on_plain : {A : Type 0} → (s.plain.State → A × s.plain.State) → Client → A × Client
  on_plain call c = let (a, st) = call c.plain_state in (a, record c { plain_state = st })

  -- A call on `c.discovery()`: on the wrapper, if there is one, or on `c.Discovery()`.
  abbrev pub on_discovery :
      {A : Type 0}
      → (s.cache.State → A × s.cache.State)
      → (s.plain.State → A × s.plain.State)
      → Option ℕ
      → Client
      → A × Client
  on_discovery cached plain (some p) c = on_cache p cached c
  on_discovery cached plain none c = on_plain plain c
