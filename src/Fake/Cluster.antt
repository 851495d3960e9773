-- ===== src/Fake/Cluster.antt =====
-- fake/cluster.go: the fake cluster, its registry of custom resources, and objects in it.
pub mod Kinds
pub mod Served
pub mod Crd
pub mod Objects
pub mod Simple
mod Tests
use Prim.Native.String.{◌++◌ as ◌<>◌}
use mathlib.Core.Option
use kube_client.Prelude.{
  String, Bool, true, false, ◌&&◌, ◌||◌, not, Option, none, some, List, [], ◌∷◌, ◌++◌, str_eq,
  if◌then◌else◌, Result, ok, fail, ◌>>=◌,
}
use kube_client.Api.{
  GroupVersion, GroupVersionResource, ApiResource, ApiResourceList, Schema, parse_or_zero, gvr_eq,
}
use kube_client.Api.Fold.{Unicode, equal_fold}
use kube_client.Manifest
use kube_client.Manifest.{Manifest}
use kube_client.Fake.Tables.{full_verbs, api_resource}
use kube_client.Fake.Machinery.{ListKinds, Machinery}
use kube_client.Fake.Resources.{
  ClusterVersion, cluster_version_v127, cluster_resources, major, minor,
}

-- `kind, ok := m[gvr]` and `m[gvr] = kind` on a map with `GroupVersionResource` keys
unfoldable pub kind_of : GroupVersionResource → ListKinds → Option String
kind_of gvr [] = none
kind_of gvr ((g, kind) ∷ kinds) = if gvr_eq g gvr then some kind else kind_of gvr kinds

unfoldable pub set_kind : GroupVersionResource → String → ListKinds → ListKinds
set_kind gvr kind [] = (gvr, kind) ∷ []
set_kind gvr kind ((g, k) ∷ kinds) =
    if gvr_eq g gvr then (g, kind) ∷ kinds else (g, k) ∷ set_kind gvr kind kinds

abbrev pub is_some {ℓ} : {A : Type ℓ} → Option A → Bool
is_some none = false
is_some (some _) = true

abbrev pub gvr_of : ApiResource → GroupVersionResource
gvr_of r = record { group = r.group; version = r.version; resource = r.name }

-- The two loops of `NewFakeCluster` over the resources.
unfoldable pub add_kinds : List ApiResource → ListKinds → ListKinds
add_kinds [] kinds = kinds
add_kinds (res ∷ rs) kinds = add_kinds rs (set_kind (gvr_of res) (res.kind <> "List") kinds)

unfoldable pub list_kinds : List ApiResourceList → ListKinds → ListKinds
list_kinds [] kinds = kinds
list_kinds (gr ∷ grs) kinds = list_kinds grs (add_kinds gr.api_resources kinds)

-- The resource lists that the package's table variables point to. Every cluster of a version
-- shares them: `fc.Discovery.Resources` starts as the table's own slice of pointers.
abbrev pub World : Type 0
World = ClusterVersion → List ApiResourceList

-- `resources` is `fc.Discovery.Resources`: the table of `version`, and behind it the lists that
-- this cluster has appended, which no other cluster sees.
module _ (m : Machinery) where
  pub record Cluster : Type 0 where
    pub version : ClusterVersion
    pub own : List ApiResourceList
    pub gvr_list : ListKinds
    pub dynamic : m.Dynamic
    pub clientset : m.Clientset
    pub git_commit : String
    pub server_major : String
    pub server_minor : String

  unfoldable pub resources : World → Cluster → List ApiResourceList
  resources w c = w c.version ++ c.own

  abbrev pub server_version :
      ClusterVersion → Cluster → Option String → Option String → Option Cluster
  server_version ver c (some a) (some b) =
      some (record c { git_commit = ver; server_major = a; server_minor = b })
  server_version ver c _ _ = none

  -- The cluster before its server version is set.
  abbrev pub start : World → ClusterVersion → Cluster
  start w ver = record {
    version = ver;
    own = [];
    gvr_list = list_kinds (w ver) [];
    dynamic = m.fresh (list_kinds (w ver) []);
    clientset = m.new_clientset;
    git_commit = "";
    server_major = "";
    server_minor = "";
  }

  abbrev pub or_default : ClusterVersion → ClusterVersion
  or_default ver = if str_eq ver "" then cluster_version_v127 else ver

  -- `NewFakeCluster`; `none` is the panic of `Major` or `Minor` on a short version.
  unfoldable pub new_fake_cluster : World → ClusterVersion → Option Cluster
  new_fake_cluster w given =
      let ver = or_default given in server_version ver (start w ver) (major ver) (minor ver)

  -- `reloadDynamicClient`
  unfoldable pub reload_dynamic_client : Cluster → Cluster
  reload_dynamic_client c = record c { dynamic = m.fresh c.gvr_list }

  unfoldable pub create_ns : String → Cluster → Cluster
  create_ns ns c = record c { clientset = m.create_namespace ns c.clientset }

-- The loop of `RegisterCRD`: the first list of the group version gets the resource at its end.
unfoldable pub append_resource :
    String → ApiResource → List ApiResourceList → Option (List ApiResourceList)
append_resource gv r [] = none
append_resource gv r (l ∷ ls) =
    let rest = append_resource gv r ls in
    if str_eq l.group_version gv
    then some (record l { api_resources = l.api_resources ++ (r ∷ []) } ∷ ls)
    else Option.map (λ ls'. l ∷ ls') rest

unfoldable pub set_table : ClusterVersion → List ApiResourceList → World → World
set_table ver t w v = if str_eq v ver then t else w v

unfoldable pub crd_resource : String → String → String → String → Bool → ApiResource
crd_resource group version kind name namespaced =
    api_resource kind name full_verbs group version namespaced

module _ (m : Machinery) where
  -- Where the new resource goes: into the shared table, into a list of this cluster's own, or into
  -- a new list of its own.
  abbrev pub place :
      String
      → ApiResource
      → World
      → Cluster m
      → Option (List ApiResourceList)
      → Option (List ApiResourceList)
      → World × Cluster m
  place gv r w c (some t) _ = (set_table c.version t w, c)
  place gv r w c none (some ls) = (w, record c { own = ls })
  place gv r w c none none =
      (w, record c { own = c.own ++ (record { group_version = gv; api_resources = r ∷ [] } ∷ []) })

  abbrev pub append_crd : String → ApiResource → World → Cluster m → World × Cluster m
  append_crd gv r w c =
      place gv r w c (append_resource gv r (w c.version)) (append_resource gv r c.own)

  unfoldable pub register_crd :
      String → String → String → Bool → World → Cluster m → World × Cluster m
  unfolding reload_dynamic_client
  register_crd group version kind namespaced w c =
      let gvr = m.plural group version kind in
      if is_some (kind_of gvr c.gvr_list)
      then (w, c)
      else append_crd (group <> ("/" <> version))
          (crd_resource group version kind gvr.resource namespaced) w
          (reload_dynamic_client m
            (record c { gvr_list = set_kind gvr (kind <> "List") c.gvr_list }))

  unfoldable pub find_resource : String → List ApiResource → Option ApiResource
  find_resource kind_or_name [] = none
  find_resource kind_or_name (r ∷ rs) =
      if equal_fold m.unicode r.kind kind_or_name || equal_fold m.unicode r.name kind_or_name
      then some r
      else find_resource kind_or_name rs

  abbrev pub found_in :
      String → Option ApiResource → Option GroupVersionResource → Option GroupVersionResource
  found_in gv none rest = rest
  found_in gv (some r) rest =
      let parsed = parse_or_zero m.schema gv in
      some (record { group = parsed.group; version = parsed.version; resource = r.name })

  -- `findGvr`
  unfoldable pub find_gvr : List ApiResourceList → String → String → Option GroupVersionResource
  find_gvr [] api_version kind_or_name = none
  find_gvr (l ∷ ls) api_version kind_or_name =
      let rest = find_gvr ls api_version kind_or_name in
      if not (str_eq api_version "") && not (str_eq l.group_version api_version)
      then rest
      else found_in l.group_version (find_resource kind_or_name l.api_resources) rest

  abbrev pub found_or_error :
      String → Option GroupVersionResource → Result String GroupVersionResource
  found_or_error kind (some gvr) = ok gvr
  found_or_error kind none = fail ("GVR for " <> (kind <> " is not find"))

  -- `FindGVR`
  unfoldable pub find_cluster_gvr :
      World → Cluster m → String → String → Result String GroupVersionResource
  find_cluster_gvr w c api_version kind =
      found_or_error kind (find_gvr (resources m w c) api_version kind)

  -- A call of the dynamic client that failed, with the text that the method puts before the error.
  abbrev pub stored : String → Cluster m → Result String m.Dynamic → Result String (Cluster m)
  stored what c (ok d) = ok (record c { dynamic = d })
  stored what c (fail err) = fail (what <> err)

  unfoldable pub create : String → Manifest → World → Cluster m → Result String (Cluster m)
  create ns obj w c = do
    gvr ← find_cluster_gvr w c (Manifest.api_version obj) (Manifest.kind obj)
    stored "creating object failed: " c (m.create gvr (Manifest.namespace obj ns) obj c.dynamic)

  unfoldable pub delete : String → Manifest → World → Cluster m → Result String (Cluster m)
  delete ns obj w c = do
    gvr ← find_cluster_gvr w c (Manifest.api_version obj) (Manifest.kind obj)
    stored "deleting object failed: " c
        (m.delete gvr (Manifest.namespace obj ns) (Manifest.name obj) c.dynamic)

  unfoldable pub update : String → Manifest → World → Cluster m → Result String (Cluster m)
  update ns obj w c = do
    gvr ← find_cluster_gvr w c (Manifest.api_version obj) (Manifest.kind obj)
    stored "updating object failed: " c (m.update gvr (Manifest.namespace obj ns) obj c.dynamic)

  -- `MustFindGVR`; nil, here `none`, where nothing is found
  unfoldable pub must_find_gvr : World → Cluster m → String → String → Option GroupVersionResource
  must_find_gvr w c api_version kind = find_gvr (resources m w c) api_version kind

  abbrev pub or_panic : Cluster m → Result String m.Dynamic → Option (Cluster m)
  or_panic c (ok d) = some (record c { dynamic = d })
  or_panic c (fail err) = none

  -- `none` is a panic: of the nil resource, or with the dynamic client's error.
  unfoldable pub create_simple_namespaced :
      String → String → String → World → Cluster m → Option (Cluster m)
  unfolding must_find_gvr create_ns
  create_simple_namespaced ns kind name w c =
      let c' = create_ns m ns c in
      elim (must_find_gvr w c' "" kind) [
        | none ↦ none
        | some gvr ↦
            let gv = m.schema.print (record { group = gvr.group; version = gvr.version }) in
            or_panic c' (m.create gvr ns (Manifest.new gv kind name) c'.dynamic)
      ]

  unfoldable pub delete_simple_namespaced :
      String → String → String → World → Cluster m → Option (Cluster m)
  unfolding must_find_gvr
  delete_simple_namespaced ns kind name w c = elim (must_find_gvr w c "" kind) [
    | none ↦ none
    | some gvr ↦ or_panic c (m.delete gvr ns name c.dynamic)
  ]
