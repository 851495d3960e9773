-- ===== src/Fake/Cluster/Tests.antt =====
-- Runs of the fake cluster, and its theorems at concrete clusters.
use mathlib.Core.List.{Perm}
use kube_client.Prelude.{
  String, true, false, none, some, [], ◌∷◌, ◌≡◌, ◌≢◌, refl, if◌then◌else◌, str_eq, eq_iff, arith,
  ok, inl, All,
}
use kube_client.Api.{GroupVersionResource, gvr_eq, parse_or_zero}
use kube_client.Api.Fold.{equal_fold}
use kube_client.Manifest
use kube_client.Manifest.{Manifest}
use kube_client.Samples.{sample_machinery, sample_schema}
use kube_client.Fake.Resources.{cluster_resources, major, minor}
use kube_client.Fake.Resources.WellFormed.{IsFiled, cluster_resources-IsFiled}
use kube_client.Fake.Cluster.{
  World, Cluster, start, resources, new_fake_cluster, register_crd, find_cluster_gvr, create,
  delete, crd_resource, gvr_of, kind_of, create_simple_namespaced, delete_simple_namespaced,
  must_find_gvr, create_ns, list_kinds, append_resource, set_kind, add_kinds, reload_dynamic_client,
  find_gvr, find_resource, found_or_error, is_some, update,
}
use kube_client.Fake.Cluster.Kinds.{IsKnown}
use kube_client.Fake.Cluster.Served.{
  Served, cluster_resources-FiledWorld, new_fake_cluster-Served, find_cluster_gvr-IsKnown,
}
use kube_client.Fake.Cluster.Crd.Sharing.{
  has_group_version, register_crd-other_tables, register_crd-breaks_others,
}
use kube_client.Fake.Cluster.Crd.Effects.{register_crd_idempotent, register_crd-dynamic}
use kube_client.Fake.Cluster.Crd.Catalogue.{shown, entry, first_entry, register_crd-catalogue}
use kube_client.Fake.Cluster.Crd.Found.{register_crd-found}
use kube_client.Fake.Cluster.Objects.{Performs, objects_lem}
use kube_client.Fake.Cluster.Simple.{
  Calls, create_simple_namespaced-Calls, delete_simple_namespaced-Calls,
}

-- Opens what a run of the cluster computes with.
cluster_run : Unit {0}
unfolding new_fake_cluster cluster_resources register_crd find_cluster_gvr create delete list_kinds
    add_kinds set_kind kind_of gvr_eq append_resource reload_dynamic_client find_gvr find_resource
    equal_fold resources parse_or_zero major minor crd_resource create_simple_namespaced
    delete_simple_namespaced must_find_gvr create_ns update Manifest.api_version Manifest.kind
    Manifest.namespace Manifest.name Manifest.new Manifest.get
cluster_run = tt

abbrev newest : Cluster sample_machinery
newest = record (start sample_machinery cluster_resources "v1.36.0") {
  git_commit = "v1.36.0";
  server_major = "1";
  server_minor = "36";
}

newest_made : new_fake_cluster sample_machinery cluster_resources "v1.36.0" ≡ some newest
unfolding cluster_run
newest_made = refl

-- A version with nothing behind the "v" is a panic in `Major`.
short_version : new_fake_cluster sample_machinery cluster_resources "v" ≡ none
unfolding cluster_run
short_version = refl

abbrev pods : GroupVersionResource
pods = record { group = ""; version = "v1"; resource = "pods" }

pods_found : find_cluster_gvr sample_machinery cluster_resources newest "" "pod" ≡ ok pods
unfolding cluster_run
pods_found = refl

newest-Served : Served sample_machinery cluster_resources newest
newest-Served =
    new_fake_cluster-Served sample_machinery cluster_resources "v1.36.0" newest
      (cluster_resources-FiledWorld sample_machinery) newest_made

cluster_resources-IsFiled_example :
    All
      (λ l. All (IsFiled sample_schema l.group_version) l.api_resources)
      (cluster_resources "v1.36.0")
cluster_resources-IsFiled_example = cluster_resources-IsFiled sample_schema "v1.36.0"

new_fake_cluster-Served_example : Served sample_machinery cluster_resources newest
new_fake_cluster-Served_example =
    new_fake_cluster-Served sample_machinery cluster_resources "v1.36.0" newest
      (cluster_resources-FiledWorld sample_machinery) newest_made

find_cluster_gvr-IsKnown_example : IsKnown newest.gvr_list pods
find_cluster_gvr-IsKnown_example =
    find_cluster_gvr-IsKnown sample_machinery cluster_resources newest "" "pod" pods newest-Served
      pods_found

text_ne : (s : String) → str_eq s "" ≡ false → s ≢ ""
text_ne s h = ground (arith, eq_iff s "")

-- `RegisterCRD("deckhouse.io", "v1", "NodeGroup", false)`
abbrev after_crd : World × Cluster sample_machinery
after_crd =
    register_crd sample_machinery "deckhouse.io" "v1" "NodeGroup" false cluster_resources newest

register_crd_idempotent_example :
    register_crd sample_machinery "deckhouse.io" "v1" "NodeGroup" true after_crd.0 after_crd.1
    ≡ after_crd
register_crd_idempotent_example =
    register_crd_idempotent sample_machinery "deckhouse.io" "v1" "NodeGroup" false true
      cluster_resources newest

-- The object that the cluster held is gone.
abbrev with_pod : Cluster sample_machinery
with_pod = record newest { dynamic = (pods, "ns", "pod-1") ∷ [] }

register_crd-dynamic_example :
    (register_crd sample_machinery "deckhouse.io" "v1" "NodeGroup" false cluster_resources
      with_pod).1.dynamic
    ≡ (if is_some (
          kind_of
            (record { group = "deckhouse.io"; version = "v1"; resource = "NodeGroups" })
            with_pod.gvr_list)
        then with_pod.dynamic
        else [])
register_crd-dynamic_example =
    register_crd-dynamic sample_machinery "deckhouse.io" "v1" "NodeGroup" false cluster_resources
      with_pod

unknown_crd :
    kind_of
      (record { group = "deckhouse.io"; version = "v1"; resource = "NodeGroups" })
      newest.gvr_list
    ≡ none
unfolding cluster_run
unknown_crd = refl

register_crd-catalogue_example :
    Perm (shown sample_machinery "deckhouse.io" "v1" "NodeGroup" false after_crd) (
      if is_some (
        kind_of
          (record { group = "deckhouse.io"; version = "v1"; resource = "NodeGroups" })
          newest.gvr_list)
      then shown sample_machinery "deckhouse.io" "v1" "NodeGroup" false (cluster_resources, newest)
      else entry sample_machinery "deckhouse.io" "v1" "NodeGroup" false
        ∷ shown sample_machinery "deckhouse.io" "v1" "NodeGroup" false (cluster_resources, newest))
    × ((v name : String)
        → find_cluster_gvr sample_machinery after_crd.0 after_crd.1 v name
          ≡ found_or_error sample_machinery name (
              first_entry sample_machinery v name
                (shown sample_machinery "deckhouse.io" "v1" "NodeGroup" false after_crd)))
register_crd-catalogue_example =
    register_crd-catalogue sample_machinery "deckhouse.io" "v1" "NodeGroup" false cluster_resources
      newest

register_crd-found_example :
    (g : GroupVersionResource) × (find_cluster_gvr sample_machinery after_crd.0 after_crd.1
        "deckhouse.io/v1" "NodeGroup"
      ≡ ok g)
    × (g.group ≡ "deckhouse.io")
    × (g.version ≡ "v1")
register_crd-found_example =
    register_crd-found sample_machinery "deckhouse.io" "v1" "NodeGroup" false refl refl
      (text_ne "v1" refl) cluster_resources newest unknown_crd

register_crd-other_tables_example :
    (register_crd sample_machinery "apps" "v1" "Crd" false cluster_resources newest).0 "v1.27.0"
    ≡ cluster_resources "v1.27.0"
register_crd-other_tables_example =
    register_crd-other_tables sample_machinery "apps" "v1" "Crd" false cluster_resources newest
      "v1.27.0" (inl (ground (arith, eq_iff "v1.27.0" "v1.36.0")))

apps_listed : has_group_version "apps/v1" (cluster_resources "v1.36.0") ≡ true
unfolding cluster_run
apps_listed = refl

unknown_apps :
    kind_of (record { group = "apps"; version = "v1"; resource = "Crds" }) newest.gvr_list ≡ none
unfolding cluster_run
unknown_apps = refl

unknown_apps_crd :
    kind_of (gvr_of (crd_resource "apps" "v1" "Crd" "Crds" false)) newest.gvr_list ≡ none
unfolding cluster_run
unknown_apps_crd = refl

-- Two clusters of version v1.36.0, made alike: registering in the first breaks the second.
register_crd-breaks_others_example :
    ¬ Served sample_machinery
      (register_crd sample_machinery "apps" "v1" "Crd" false cluster_resources newest).0
      newest
register_crd-breaks_others_example =
    register_crd-breaks_others sample_machinery "apps" "v1" "Crd" false cluster_resources newest
      newest refl apps_listed unknown_apps unknown_apps_crd

abbrev a_pod : Manifest
a_pod = Manifest.new "v1" "Pod" "pod-1"

objects_lem_example :
    Performs sample_machinery cluster_resources newest "creating object failed: "
      (Manifest.api_version a_pod)
      (Manifest.kind a_pod)
      (λ gvr. sample_machinery.create gvr (Manifest.namespace a_pod "ns") a_pod)
      (create sample_machinery "ns" a_pod cluster_resources newest)
    × Performs sample_machinery cluster_resources newest "updating object failed: "
        (Manifest.api_version a_pod)
        (Manifest.kind a_pod)
        (λ gvr. sample_machinery.update gvr (Manifest.namespace a_pod "ns") a_pod)
        (update sample_machinery "ns" a_pod cluster_resources newest)
    × Performs sample_machinery cluster_resources newest "deleting object failed: "
        (Manifest.api_version a_pod)
        (Manifest.kind a_pod)
        (λ gvr. sample_machinery.delete gvr (Manifest.namespace a_pod "ns") (Manifest.name a_pod))
        (delete sample_machinery "ns" a_pod cluster_resources newest)
objects_lem_example = objects_lem sample_machinery cluster_resources newest "ns" a_pod newest-Served

created : create sample_machinery "ns" a_pod cluster_resources newest ≡ ok with_pod
unfolding cluster_run
created = refl

created_simple :
    create_simple_namespaced sample_machinery "ns" "Pod" "pod-1" cluster_resources newest
    ≡ some (record with_pod { clientset = "ns" ∷ [] })
unfolding cluster_run
created_simple = refl

create_simple_namespaced-Calls_example :
    Calls sample_machinery cluster_resources newest "Pod"
      (λ gvr. sample_machinery.create gvr "ns" (
        Manifest.new
          (sample_schema.print (record { group = gvr.group; version = gvr.version }))
          "Pod"
          "pod-1"))
      (create_ns sample_machinery "ns" newest)
      (record with_pod { clientset = "ns" ∷ [] })
create_simple_namespaced-Calls_example =
    create_simple_namespaced-Calls sample_machinery cluster_resources newest "ns" "Pod" "pod-1"
      (record with_pod { clientset = "ns" ∷ [] }) newest-Served created_simple

deleted_simple :
    delete_simple_namespaced sample_machinery "ns" "Pod" "pod-1" cluster_resources with_pod
    ≡ some newest
unfolding cluster_run
deleted_simple = refl

delete_simple_namespaced-Calls_example :
    Calls sample_machinery cluster_resources with_pod "Pod"
      (λ gvr. sample_machinery.delete gvr "ns" "pod-1")
      with_pod
      newest
unfolding cluster_run
delete_simple_namespaced-Calls_example =
    delete_simple_namespaced-Calls sample_machinery cluster_resources with_pod "ns" "Pod" "pod-1"
      newest newest-Served deleted_simple
