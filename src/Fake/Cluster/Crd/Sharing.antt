-- ===== src/Fake/Cluster/Crd/Sharing.antt =====
-- fake/cluster.go: what `RegisterCRD` on one cluster does to the others. The lists of a version's
-- table are shared by every cluster of that version.
use Prim.Native.String.{◌++◌ as ◌<>◌}
use mathlib.Core.Option
use kube_client.Prelude.{
  String, Bool, true, false, ◌||◌, Option, none, some, List, [], ◌∷◌, ◌≡◌, ◌≢◌, ◌⊎◌, refl, sym,
  subst, All, arith, Bool-cases, inl, inr, str_eq, eq_iff, some_inj,
}
use kube_client.Api.{ApiResource, ApiResourceList}
use kube_client.Fake.Machinery.{ListKinds, Machinery}
use kube_client.Fake.Resources.{ClusterVersion}
use kube_client.Fake.Cluster.{
  kind_of, is_some, gvr_of, World, Cluster, resources, append_resource, set_table, crd_resource,
  place, register_crd, reload_dynamic_client,
}
use kube_client.Fake.Cluster.Kinds.{IsKnown}
use kube_client.Fake.Cluster.Served.{ServedList, Served}
use kube_client.Fake.Cluster.Crd.{with_resource, All-split}

-- The lists have one of the group version.
abbrev pub has_group_version : String → List ApiResourceList → Bool
has_group_version gv [] = false
has_group_version gv (l ∷ ls) = str_eq l.group_version gv || has_group_version gv ls

append_resource_total :
    (gv : String) (r : ApiResource) (ls : List ApiResourceList)
    → has_group_version gv ls ≡ true
    → (t : List ApiResourceList) × (append_resource gv r ls ≡ some t)
unfolding append_resource
append_resource_total gv r [] h = cc
append_resource_total gv r (l ∷ ls) h = elim (Bool-cases (str_eq l.group_version gv)) [
  | inl same ↦ (with_resource r l ∷ ls, rw same)
  | inr other ↦ let (t, e) = append_resource_total gv r ls (rw other at h) in (l ∷ t, rw (other, e))
]

append_resource-none :
    (gv : String) (r : ApiResource) (ls : List ApiResourceList)
    → has_group_version gv ls ≡ false
    → append_resource gv r ls ≡ none
unfolding append_resource
append_resource-none gv r [] h = refl
append_resource-none gv r (l ∷ ls) h = ground (arith, append_resource-none gv r ls)

set_table_at :
    (v ver : ClusterVersion) (t : List ApiResourceList) (w : World)
    → v ≡ ver
    → set_table ver t w v ≡ t
unfolding set_table
set_table_at v ver t w same = rw ((eq_iff v ver).1 same)

module _ (m : Machinery) where
  -- Lists that hold the resource are served only where its list kind is known.
  append_resource-IsKnown :
      (kinds : ListKinds) (gv : String) (r : ApiResource) (ls t : List ApiResourceList)
      → append_resource gv r ls ≡ some t
      → All (ServedList m kinds) t
      → IsKnown kinds (gvr_of r)
  unfolding append_resource
  append_resource-IsKnown kinds gv r [] t e h = cc
  append_resource-IsKnown kinds gv r (l ∷ ls) t e h =
      elim (Bool-cases (str_eq l.group_version gv)) [
        | inl same ↦
            let here = subst (All (ServedList m kinds)) (sym (some_inj (rw same at e))) h in
            let (old, new) = All-split _ l.api_resources (r ∷ []) here.0 in new.0.1
        | inr other ↦
            let (found, rest, k) = (Option.map-eq-some_iff _ _).0 (rw other at e) in
            append_resource-IsKnown kinds gv r ls found rest
              (subst (All (ServedList m kinds)) (sym k) h).1
      ]

  place-other_tables :
      (gv : String) (r : ApiResource) (w : World) (c : Cluster m)
      (shared own : Option (List ApiResourceList)) (ver : ClusterVersion)
      → (ver ≢ c.version) ⊎ (shared ≡ none)
      → (place m gv r w c shared own).0 ver ≡ w ver
  unfolding set_table
  place-other_tables gv r w c (some t) own ver (inl other) = ground (arith, eq_iff ver c.version)
  place-other_tables gv r w c (some t) own ver (inr e) = cc
  place-other_tables gv r w c none (some ls) ver h = refl
  place-other_tables gv r w c none none ver h = refl

  module _ (group version kind : String) (namespaced : Bool) (w : World) (c : Cluster m) where
    -- `RegisterCRD` changes at most the table of the cluster's own version, and that one only if it
    -- lists the group version already: clusters of another version, and clusters whose table does
    -- not list it, keep their discovery.
    pub register_crd-other_tables :
        (ver : ClusterVersion)
        → (ver ≢ c.version) ⊎ (has_group_version (group <> ("/" <> version)) (w c.version) ≡ false)
        → (register_crd m group version kind namespaced w c).0 ver ≡ w ver
    unfolding register_crd set_table reload_dynamic_client
    register_crd-other_tables ver h =
        let gv = group <> ("/" <> version) in
        let r = crd_resource group version kind (m.plural group version kind).resource namespaced in
        let unlisted : (ver ≢ c.version) ⊎ (append_resource gv r (w c.version) ≡ none) = elim h [
          | inl other ↦ inl other
          | inr e ↦ inr (append_resource-none gv r (w c.version) e)
        ] in
        elim (Bool-cases (is_some (kind_of (m.plural group version kind) c.gvr_list))) [
          | inl old ↦ rw (old, register_crd)
          | inr fresh ↦
              rw (fresh, register_crd)
                (place-other_tables gv r w _ (append_resource gv r (w c.version))
                  (append_resource gv r c.own) ver unlisted)
        ]

    -- A second cluster of the same version that does not know the resource stops serving its own
    -- discovery when the first registers it under a group version of the shared table: discovery
    -- there lists a resource that its dynamic client has no list kind for.
    pub register_crd-breaks_others :
        (b : Cluster m)
        → b.version ≡ c.version
        → has_group_version (group <> ("/" <> version)) (w c.version) ≡ true
        → kind_of (m.plural group version kind) c.gvr_list ≡ none
        → kind_of
            (gvr_of
              (crd_resource group version kind (m.plural group version kind).resource namespaced))
            b.gvr_list
          ≡ none
        → ¬ Served m (register_crd m group version kind namespaced w c).0 b
    unfolding register_crd set_table reload_dynamic_client resources
    register_crd-breaks_others b same listed fresh unknown s =
        let gv = group <> ("/" <> version) in
        let r = crd_resource group version kind (m.plural group version kind).resource namespaced in
        let (t, grown) = append_resource_total gv r (w c.version) listed in
        let after = rw (fresh, grown, register_crd) at s in
        let (shared, mine) = All-split _ (set_table c.version t w b.version) b.own after in
        let table =
          subst (All (ServedList m b.gvr_list)) (set_table_at b.version c.version t w same)
            shared in
        let known : IsKnown b.gvr_list (gvr_of r) =
          append_resource-IsKnown b.gvr_list gv r (w c.version) t grown table in
        cc
