-- ===== src/Fake/Cluster/Served.antt =====
-- fake/cluster.go: the invariant of a fake cluster. The dynamic client of client-go's fake needs a
-- list kind for every resource that it is asked for; the cluster's registry has to supply it.
use kube_client.Prelude.{
  String, ◌||◌, not, ◌&&◌, Option, none, some, List, [], ◌∷◌, ◌≡◌, sym, ap, ◌∙◌, subst, All,
  All-append, Bool-cases, Option-cases, inl, inr, str_eq, some_inj, ok,
}
use kube_client.Api.{GroupVersionResource, ApiResource, ApiResourceList}
use kube_client.Api.Fold.{equal_fold}
use kube_client.Fake.Machinery.{ListKinds, Machinery}
use kube_client.Fake.Resources.{ClusterVersion, cluster_resources, major, minor}
use kube_client.Fake.Resources.WellFormed.{IsFiled, cluster_resources-IsFiled}
use kube_client.Fake.Cluster.{
  gvr_of, list_kinds, World, Cluster, resources, new_fake_cluster, server_version, find_resource,
  found_in, found_or_error, start, or_default, find_gvr, find_cluster_gvr,
}
use kube_client.Fake.Cluster.Kinds.{IsKnown, list_kinds-IsKnown}

module _ (m : Machinery) where
  -- The resource is filed under its own group and version, and the dynamic client knows it.
  abbrev pub ServedResource : ListKinds → String → ApiResource → Type 0
  ServedResource kinds gv r = IsFiled m.schema gv r × IsKnown kinds (gvr_of r)

  abbrev pub ServedList : ListKinds → ApiResourceList → Type 0
  ServedList kinds l = All (ServedResource kinds l.group_version) l.api_resources

  abbrev pub Served : World → Cluster m → Type 0
  Served w c = All (ServedList c.gvr_list) (resources m w c)

  -- The tables of the package are as the source has them, or have grown by filed resources.
  abbrev pub FiledWorld : World → Type 0
  FiledWorld w =
      (ver : ClusterVersion)
      → All (λ l. All (IsFiled m.schema l.group_version) l.api_resources) (w ver)

  pub cluster_resources-FiledWorld : FiledWorld cluster_resources
  cluster_resources-FiledWorld ver = cluster_resources-IsFiled m.schema ver

  All-both {ℓ} :
      {A : Type ℓ} (P Q : A → Type 0) (xs : List A) → All P xs → All Q xs → All (λ x. P x × Q x) xs
  All-both P Q [] h k = tt
  All-both P Q (x ∷ xs) h k = ((h.0, k.0), All-both P Q xs h.1 k.1)

  served_table :
      (ls : List ApiResourceList) (kinds : ListKinds)
      → All (λ l. All (IsFiled m.schema l.group_version) l.api_resources) ls
      → All (λ l. All (λ r. IsKnown kinds (gvr_of r)) l.api_resources) ls
      → All (ServedList kinds) ls
  served_table [] kinds h k = tt
  served_table (l ∷ ls) kinds h k = (
    All-both (IsFiled m.schema l.group_version) (λ r. IsKnown kinds (gvr_of r)) l.api_resources h.0
        k.0,
    served_table ls kinds h.1 k.1,
  )

  server_version-Served :
      (w : World) (ver : ClusterVersion) (c c' : Cluster m) (a b : Option String)
      → Served w c
      → server_version m ver c a b ≡ some c'
      → Served w c'
  unfolding resources
  server_version-Served w ver c c' (some a) (some b) s h = subst (Served w) (some_inj h) s
  server_version-Served w ver c c' none b s h = cc
  server_version-Served w ver c c' (some a) none s h = cc

  -- A new cluster serves what its discovery lists: every resource is filed under its own group and
  -- version, and the dynamic client knows its list kind.
  pub new_fake_cluster-Served :
      (w : World) (ver : ClusterVersion) (c : Cluster m)
      → FiledWorld w
      → new_fake_cluster m w ver ≡ some c
      → Served w c
  unfolding new_fake_cluster resources
  new_fake_cluster-Served w ver c filed h =
      let v : ClusterVersion = or_default m ver in
      let kinds : ListKinds = list_kinds (w v) [] in
      server_version-Served w v (start m w v) c (major v) (minor v)
        (All-append (ServedList kinds) (w v) []
          (served_table (w v) kinds (filed v) (list_kinds-IsKnown (w v) [])) tt)
        h

  find_resource-All :
      (P : ApiResource → Type 0) (k : String) (rs : List ApiResource) (r : ApiResource)
      → All P rs
      → find_resource m k rs ≡ some r
      → P r
  unfolding find_resource
  find_resource-All P k [] r h e = cc
  find_resource-All P k (x ∷ rs) r h e =
      elim (Bool-cases (equal_fold m.unicode x.kind k || equal_fold m.unicode x.name k)) [
        | inl same ↦ subst P (some_inj (rw (same, find_resource) at e)) h.0
        | inr other ↦ find_resource-All P k rs r h.1 (rw (other, find_resource) at e)
      ]

  -- What one list contributes is known.
  found_in-IsKnown :
      (kinds : ListKinds) (l : ApiResourceList) (k : String) (rest : Option GroupVersionResource)
      (g : GroupVersionResource)
      → ServedList kinds l
      → (rest ≡ some g → IsKnown kinds g)
      → found_in m l.group_version (find_resource m k l.api_resources) rest ≡ some g
      → IsKnown kinds g
  found_in-IsKnown kinds l k rest g h later e =
      elim (Option-cases (find_resource m k l.api_resources)) [
        | inl missing ↦ later (rw missing at e)
        | inr (r, found) ↦
            let (filed, known) = find_resource-All _ k l.api_resources r h found in
            let same : gvr_of r ≡ g =
              ap (λ gv. record { group = gv.group; version = gv.version; resource = r.name })
                (sym filed)
              ∙ some_inj (rw found at e) in
            subst (IsKnown kinds) same known
      ]

  find_gvr-IsKnown :
      (kinds : ListKinds) (ls : List ApiResourceList) (v k : String) (g : GroupVersionResource)
      → All (ServedList kinds) ls
      → find_gvr m ls v k ≡ some g
      → IsKnown kinds g
  unfolding find_gvr
  find_gvr-IsKnown kinds [] v k g h e = cc
  find_gvr-IsKnown kinds (l ∷ ls) v k g h e =
      elim (Bool-cases (not (str_eq v "") && not (str_eq l.group_version v))) [
        | inl skipped ↦ find_gvr-IsKnown kinds ls v k g h.1 (rw skipped at e)
        | inr read ↦
            found_in-IsKnown kinds l k (find_gvr m ls v k) g h.0
              (find_gvr-IsKnown kinds ls v k g h.1) (rw read at e)
      ]

  -- What `FindGVR` finds in a cluster that serves its resources, the dynamic client has a list
  -- kind for.
  pub find_cluster_gvr-IsKnown :
      (w : World) (c : Cluster m) (api_version kind : String) (g : GroupVersionResource)
      → Served w c
      → find_cluster_gvr m w c api_version kind ≡ ok g
      → IsKnown c.gvr_list g
  unfolding find_cluster_gvr
  find_cluster_gvr-IsKnown w c v k g s e = elim (Option-cases (find_gvr m (resources m w c) v k)) [
    | inl missing ↦ cc (ap (found_or_error m k) missing)
    | inr (g', found) ↦
        find_gvr-IsKnown c.gvr_list _ v k g s (found ∙ cc (ap (found_or_error m k) found))
  ]
