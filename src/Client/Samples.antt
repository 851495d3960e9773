-- ===== src/Client/Samples.antt =====
-- Servers and clients for the tests of the discovery.
use kube_client.Prelude.{
  String, Bool, true, false, Option, none, some, List, [], ◌∷◌, ◌≡◌, ◌≢◌, refl,
}
use kube_client.Api.{ApiResource, ApiResourceList}
use kube_client.Samples.{ascii, sample_schema}
use kube_client.Client.Backend.{Reply, Backend, SingleFlight, Services}
use kube_client.Client.Discovery.{Client}

abbrev pub cron_tab : ApiResource
cron_tab = record {
  kind = "CronTab";
  name = "crontabs";
  short_names = "ct" ∷ [];
  verbs = "get" ∷ "list" ∷ [];
  group = "";
  version = "";
  namespaced = true;
}

abbrev pub list_of : String → List ApiResource → ApiResourceList
list_of gv rs = record { group_version = gv; api_resources = rs }

abbrev pub served : String → Bool → Reply (Option ApiResourceList)
served gv true = record { value = some (list_of gv (cron_tab ∷ [])); err = none }
served gv false = record { value = some (list_of gv []); err = none }

pub served-some :
    (gv : String) (st : Bool) → (served gv st).err ≡ none → (served gv st).value ≢ none
served-some gv true e = λ h. cc
served-some gv false e = λ h. cc

-- A cache of a time before the custom resource was there; invalidation sets its state to true.
abbrev pub one_resource : Backend
one_resource = record {
  State = Bool;
  resources_for = λ gv st. (served gv st, st);
  resources_for-some = served-some;
  groups = λ st. (record { value = []; err = none }, st);
  preferred = λ st. (record { value = []; err = none }, st);
  groups_and_resources = λ st. (record { value = []; err = none }, st);
  invalidate = λ st. true;
  is_fake = false;
  is_aggregated = false;
}

abbrev pub alone : SingleFlight
alone = record {
  run = λ S A key fn s. let (r, s') = fn s in (record { value = some r.value; err = r.err }, s');
  run_alone = λ S A key fn s. refl;
}

abbrev pub services : Services
services = record {
  schema = sample_schema;
  unicode = ascii;
  flight = alone;
  cache = one_resource;
  plain = one_resource;
  preferred_through = λ S groups resources st. (record { value = []; err = none }, st);
  groups_and_resources_through = λ S groups resources st. (record { value = []; err = none }, st);
  new_not_found = λ group resource. record { text = "not found"; is_not_found = true };
  new_not_found_is = λ group resource. refl;
}

abbrev pub client : Client services
client = record {
  cached_discovery = some 0;
  sf_discovery = none;
  sf_discovery_once = false;
  caches = λ p. false;
  plain_state = false;
}

abbrev pub found_or_not : String → Bool → Reply (Option ApiResourceList)
found_or_not gv true = served gv true
found_or_not gv false = record {
  value = none;
  err = some (record { text = "not found"; is_not_found = false });
}

pub found_or_not-some :
    (gv : String) (st : Bool) → (found_or_not gv st).err ≡ none → (found_or_not gv st).value ≢ none
found_or_not-some gv true e = λ h. cc
found_or_not-some gv false e = λ h. cc

-- The same, but before its invalidation the cache does not know the group version.
abbrev pub missing_services : Services
missing_services = record services {
  cache = record one_resource {
    resources_for = λ gv st. (found_or_not gv st, st);
    resources_for-some = found_or_not-some;
  };
}
