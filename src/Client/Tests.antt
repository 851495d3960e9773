-- ===== src/Client/Tests.antt =====
-- Runs of the lookups against a server that serves one custom resource, and the theorems at them.
use mathlib.Core.List.{Memᴰ}
use kube_client.Prelude.{
  true, false, none, some, [], ◌∷◌, ◌≡◌, ◌≢◌, ◌⊎◌, refl, sym, ap, some_inj, ok, fail, eq_iff, arith,
}
use kube_client.Api.{
  GroupVersion, GroupVersionResource, ApiResource, ApiResourceList, parse_or_zero,
}
use kube_client.Api.Fold.{to_lower, text_eq}
use kube_client.Samples.{sample_schema}
use kube_client.Client.Samples.{cron_tab, list_of, served, services, client}
use kube_client.Client.Backend.{Error}
use kube_client.Client.Discovery.{
  Client, contains, wrap, placed, init_sf_discovery, sf_resources_for, sf_invalidate, set_cache,
  equal_lower_cased_to_one_of, get_api_resource_from_list, get_api_resource_from_resource_lists,
}
use kube_client.Client.Discovery.Search.{IsMatch, get_api_resource-IsMatch, get_api_resource-misses}
use kube_client.Client.Lookup.{
  unsupported, server_resources_for, invalidate_discovery, api_resource_list_uncached,
  api_resource_list_once, api_resource_list, api_resource_once, api_resource,
  group_version_resource,
}
use kube_client.Client.Lookup.Wrapped.{IsWrapped, init_sf_discovery-late}
use kube_client.Client.Lookup.Again.{api_resource-asks_again}
use kube_client.Client.Lookup.Fresh.{api_resource-Serves}
use kube_client.Client.Lookup.Located.{IsAnswer, group_version_resource-IsMatch}

-- Opens what a lookup computes with.
lookup_run : Unit {0}
unfolding init_sf_discovery sf_resources_for sf_invalidate set_cache equal_lower_cased_to_one_of
    get_api_resource_from_list get_api_resource_from_resource_lists to_lower text_eq contains wrap
    placed parse_or_zero server_resources_for invalidate_discovery api_resource_list_uncached
    api_resource_list_once api_resource_list api_resource_once api_resource group_version_resource
lookup_run = tt

abbrev cron_gvr : GroupVersionResource
cron_gvr = record { group = "stable.example.com"; version = "v1"; resource = "crontabs" }

-- The stale cache does not list the resource; the second lookup finds it, by its short name too.
found_by_short_name :
    (group_version_resource services "stable.example.com/v1" "CT" client).0 ≡ ok cron_gvr
unfolding lookup_run
found_by_short_name = refl

is_wrapped : IsWrapped services 0 client
unfolding lookup_run
is_wrapped = refl

abbrev stable : GroupVersion
stable = record { group = "stable.example.com"; version = "v1" }

abbrev cron_found : ApiResource
cron_found = record cron_tab { group = "stable.example.com"; version = "v1" }

abbrev fresh_list : ApiResourceList
fresh_list = list_of "stable.example.com/v1" (cron_tab ∷ [])

api_resource-Serves_example :
    ((api_resource services "stable.example.com/v1" "crontab" client).0 ≡ ok cron_found)
    ⊎ ((held : ApiResourceList) × ((served "stable.example.com/v1" false).value ≡ some held)
        × ((old : ApiResource) × (get_api_resource_from_resource_lists services "crontab"
                (held ∷ [])
              ≡ some old)
            × ((api_resource services "stable.example.com/v1" "crontab" client).0 ≡ ok old)))
unfolding lookup_run
api_resource-Serves_example =
    api_resource-Serves services "stable.example.com/v1" "crontab" stable fresh_list cron_found 0
      (λ h. ground (arith, eq_iff "stable.example.com/v1" "")) refl (λ st. refl) refl client
      is_wrapped (λ e h. cc)

abbrev not_supported : Error
not_supported = record {
  text = "apiVersion 'stable.example.com/v1', kind 'Job' is not supported by cluster: not found";
  is_not_found = true;
}

api_resource-asks_again_example :
    (e' : Error) × ((api_resource_once services "stable.example.com/v1" "Job" (
        invalidate_discovery services
          (api_resource_once services "stable.example.com/v1" "Job" client).1)).0
      ≡ fail e')
    × (not_supported ≡ wrap (unsupported "stable.example.com/v1" "Job") e')
unfolding lookup_run
api_resource-asks_again_example =
    api_resource-asks_again services "stable.example.com/v1" "Job" client not_supported refl refl

get_api_resource-IsMatch_example :
    (l : ApiResourceList) × Memᴰ l (list_of "v1" [] ∷ fresh_list ∷ [])
    × ((r0 : ApiResource) × Memᴰ r0 l.api_resources
        × IsMatch services "crontab" r0
        × (placed r0 (parse_or_zero sample_schema l.group_version) ≡ cron_found))
unfolding lookup_run
get_api_resource-IsMatch_example =
    get_api_resource-IsMatch services "crontab" (list_of "v1" [] ∷ fresh_list ∷ []) cron_found refl

get_api_resource-misses_example :
    get_api_resource_from_resource_lists services "ct" (list_of "v1" [] ∷ fresh_list ∷ []) ≢ none
unfolding lookup_run
get_api_resource-misses_example =
    get_api_resource-misses services "ct" (list_of "v1" [] ∷ fresh_list ∷ []) fresh_list cron_tab
      (Memᴰ.tail (Memᴰ.head refl)) (Memᴰ.head refl) ((λ e. cc), ("ct", Memᴰ.head refl, refl))

echoed :
    (l : ApiResourceList)
    → IsAnswer services stable l
    → parse_or_zero sample_schema l.group_version ≡ stable
unfolding lookup_run
echoed l (true, e) = ap (λ l. parse_or_zero sample_schema l.group_version) (sym (some_inj e))
echoed l (false, e) = ap (λ l. parse_or_zero sample_schema l.group_version) (sym (some_inj e))

group_version_resource-IsMatch_example :
    (l : ApiResourceList) × IsAnswer services stable l
    × ((r0 : ApiResource) × Memᴰ r0 l.api_resources
        × IsMatch services "ct" r0
        × (cron_gvr ≡ record { group = "stable.example.com"; version = "v1"; resource = r0.name }))
unfolding lookup_run
group_version_resource-IsMatch_example =
    group_version_resource-IsMatch services "stable.example.com/v1" "ct" stable 0
      (λ h. ground (arith, eq_iff "stable.example.com/v1" "")) refl client cron_gvr is_wrapped
      echoed refl

abbrev early : Client services
early = record client { cached_discovery = none }

init_sf_discovery-late_example :
    (invalidate_discovery services
        (record (init_sf_discovery services early) { cached_discovery = some 0 })
      ≡ record (init_sf_discovery services early) { cached_discovery = some 0 })
    × ((server_resources_for services "v1"
          (record (init_sf_discovery services early) { cached_discovery = some 0 })).0
        ≡ served "v1" false)
unfolding lookup_run
init_sf_discovery-late_example = init_sf_discovery-late services early (some 0) "v1" refl refl
