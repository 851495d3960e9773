-- ===== src/Fake/Cluster/Objects.antt =====
-- fake/cluster.go: `Create`, `Update` and `Delete`.
use Prim.Native.String.{◌++◌ as ◌<>◌}
use kube_client.Prelude.{String, ◌≡◌, inl, inr, Result, ok, fail, ◌>>=◌, Result-cases}
use kube_client.Api.{GroupVersionResource}
use kube_client.Manifest
use kube_client.Manifest.{Manifest}
use kube_client.Fake.Machinery.{Machinery}
use kube_client.Fake.Cluster.{World, Cluster, find_cluster_gvr, stored, create, update, delete}
use kube_client.Fake.Cluster.Kinds.{IsKnown}
use kube_client.Fake.Cluster.Served.{Served, find_cluster_gvr-IsKnown}

module _ (m : Machinery) (w : World) (c : Cluster m) where
  abbrev pub Call : Type 0
  Call = GroupVersionResource → m.Dynamic → Result String m.Dynamic

  -- The resource is found, the call is made on it, and its result is put in the cluster or comes
  -- back behind the text.
  pub data Performs (what api_version kind : String) (call : Call)
      : Result String (Cluster m) → Type 0 where
    done :
        {r : Result String (Cluster m)} (gvr : GroupVersionResource) (d : m.Dynamic)
        → IsKnown c.gvr_list gvr
        → find_cluster_gvr m w c api_version kind ≡ ok gvr
        → call gvr c.dynamic ≡ ok d
        → r ≡ ok (record c { dynamic = d })
        → Performs what api_version kind call r
    refused :
        {r : Result String (Cluster m)} (gvr : GroupVersionResource) (err : String)
        → IsKnown c.gvr_list gvr
        → find_cluster_gvr m w c api_version kind ≡ ok gvr
        → call gvr c.dynamic ≡ fail err
        → r ≡ fail (what <> err)
        → Performs what api_version kind call r
    not_found :
        {r : Result String (Cluster m)} (err : String)
        → find_cluster_gvr m w c api_version kind ≡ fail err
        → r ≡ fail err
        → Performs what api_version kind call r

  performs :
      (what api_version kind : String) (call : Call)
      → Served m w c
      → Performs what api_version kind call
          (find_cluster_gvr m w c api_version kind >>= λ gvr. stored m what c (call gvr c.dynamic))
  performs what v k call s = elim (Result-cases (find_cluster_gvr m w c v k)) [
    | inr (err, missing) ↦ not_found err missing (rw missing)
    | inl (gvr, found) ↦
        let known = find_cluster_gvr-IsKnown m w c v k gvr s found in
        elim (Result-cases (call gvr c.dynamic)) [
          | inl (d, made) ↦ done gvr d known found made (rw (found, made))
          | inr (err, failed) ↦ refused gvr err known found failed (rw (found, failed))
        ]
  ]

  -- `Create`, `Update` and `Delete` act on the resource that `FindGVR` gives for the manifest's
  -- apiVersion and kind, in the manifest's namespace or else the given one. The dynamic client
  -- knows that resource, nothing of the cluster but its objects changes, and the error is that of
  -- `FindGVR`, or the client's behind a text of the method's own.
  pub objects_lem :
      (ns : String) (obj : Manifest)
      → Served m w c
      → Performs "creating object failed: "
          (Manifest.api_version obj)
          (Manifest.kind obj)
          (λ gvr. m.create gvr (Manifest.namespace obj ns) obj)
          (create m ns obj w c)
        × Performs "updating object failed: "
            (Manifest.api_version obj)
            (Manifest.kind obj)
            (λ gvr. m.update gvr (Manifest.namespace obj ns) obj)
            (update m ns obj w c)
        × Performs "deleting object failed: "
            (Manifest.api_version obj)
            (Manifest.kind obj)
            (λ gvr. m.delete gvr (Manifest.namespace obj ns) (Manifest.name obj))
            (delete m ns obj w c)
  unfolding create update delete
  objects_lem ns obj s = (performs _ _ _ _ s, performs _ _ _ _ s, performs _ _ _ _ s)
