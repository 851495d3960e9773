-- ===== src/Fake/Cluster/Simple.antt =====
-- fake/cluster.go: `CreateSimpleNamespaced` and `DeleteSimpleNamespaced`.
use kube_client.Prelude.{
  String, Option, none, some, ◌≡◌, refl, inl, inr, Result, ok, Result-cases, some_inj,
}
use kube_client.Api.{GroupVersionResource}
use kube_client.Manifest
use kube_client.Fake.Machinery.{Machinery}
use kube_client.Fake.Cluster.{
  World, Cluster, resources, find_gvr, find_cluster_gvr, must_find_gvr, create_ns,
  create_simple_namespaced, delete_simple_namespaced, or_panic,
}
use kube_client.Fake.Cluster.Kinds.{IsKnown}
use kube_client.Fake.Cluster.Served.{Served, find_cluster_gvr-IsKnown}

module _ (m : Machinery) (w : World) (c : Cluster m) where
  -- A call of the dynamic client on a resource that the kind names and that the client knows; only
  -- the objects change, from one state of the cluster to another.
  abbrev pub Calls :
      String
      → (GroupVersionResource → m.Dynamic → Result String m.Dynamic)
      → Cluster m
      → Cluster m
      → Type 0
  Calls kind call from to =
      (gvr : GroupVersionResource) × IsKnown c.gvr_list gvr
      × (find_cluster_gvr m w c "" kind ≡ ok gvr)
      × ((d : m.Dynamic) × (call gvr c.dynamic ≡ ok d) × (record from { dynamic = d } ≡ to))

  found-IsKnown :
      (kind : String) (gvr : GroupVersionResource)
      → Served m w c
      → find_gvr m (resources m w c) "" kind ≡ some gvr
      → IsKnown c.gvr_list gvr × (find_cluster_gvr m w c "" kind ≡ ok gvr)
  unfolding find_cluster_gvr
  found-IsKnown kind gvr s found =
      let is : find_cluster_gvr m w c "" kind ≡ ok gvr = rw found refl in
      (find_cluster_gvr-IsKnown m w c "" kind gvr s is, is)

  calls :
      (kind : String) (call : GroupVersionResource → m.Dynamic → Result String m.Dynamic)
      (from to : Cluster m) (o : Option GroupVersionResource)
      → Served m w c
      → find_gvr m (resources m w c) "" kind ≡ o
      → elim o [ none ↦ none | some gvr ↦ or_panic m from (call gvr c.dynamic) ] ≡ some to
      → Calls kind call from to
  calls kind call from to none s found h = cc
  calls kind call from to (some gvr) s found h =
      let (known, is) = found-IsKnown kind gvr s found in
      elim (Result-cases (call gvr c.dynamic)) [
        | inr (err, failed) ↦ cc (rw failed at h)
        | inl (d, done) ↦ (gvr, known, is, (d, done, some_inj (rw done at h)))
      ]

  -- In a cluster that keeps the invariant, a `CreateSimpleNamespaced` that does not panic has made
  -- the namespace, and in it an object of the kind and name and of the group version of the resource
  -- that the kind names, which the dynamic client knows. Nothing else has changed.
  pub create_simple_namespaced-Calls :
      (ns kind name : String) (created : Cluster m)
      → Served m w c
      → create_simple_namespaced m ns kind name w c ≡ some created
      → Calls kind
          (λ gvr. m.create gvr ns (
            Manifest.new
              (m.schema.print (record { group = gvr.group; version = gvr.version }))
              kind
              name))
          (create_ns m ns c)
          created
  unfolding create_simple_namespaced must_find_gvr create_ns resources
  create_simple_namespaced-Calls ns kind name created s made =
      calls kind
        (λ gvr. m.create gvr ns (
          Manifest.new (m.schema.print (record { group = gvr.group; version = gvr.version })) kind
            name))
        (create_ns m ns c) created _ s refl made

  -- In a cluster that keeps the invariant, a `DeleteSimpleNamespaced` that does not panic has deleted
  -- the object of that namespace and name, of the resource that the kind names, which the dynamic
  -- client knows. Nothing else has changed.
  pub delete_simple_namespaced-Calls :
      (ns kind name : String) (deleted : Cluster m)
      → Served m w c
      → delete_simple_namespaced m ns kind name w c ≡ some deleted
      → Calls kind (λ gvr. m.delete gvr ns name) c deleted
  unfolding delete_simple_namespaced must_find_gvr
  delete_simple_namespaced-Calls ns kind name deleted s gone =
      calls kind (λ gvr. m.delete gvr ns name) c deleted _ s refl gone
