-- ===== src/Fake/Cluster/Crd/Effects.antt =====
-- fake/cluster.go: what `RegisterCRD` gives its own cluster, and what it takes.
use Prim.Native.String.{◌++◌ as ◌<>◌}
use kube_client.Prelude.{
  String, Bool, true, false, Option, none, some, List, [], ◌∷◌, ◌≡◌, refl, if◌then◌else◌, arith,
  Bool-cases, inl, inr, codes, Text,
}
use kube_client.Api.{GroupVersionResource, ApiResource, ApiResourceList}
use kube_client.Api.Fold.{Unicode, same_runes, equal_fold}
use kube_client.Fake.Machinery.{Machinery}
use kube_client.Fake.Cluster.{
  kind_of, set_kind, is_some, World, Cluster, append_resource, crd_resource, place, register_crd,
  reload_dynamic_client,
}
use kube_client.Fake.Cluster.Kinds.{set_kind-IsKnown_self}

same_runes_refl : (u : Unicode) (s : Text) → same_runes u s s ≡ true
unfolding same_runes
same_runes_refl u [] = refl
same_runes_refl u (c ∷ s) = ground (arith, same_runes_refl u s)

pub equal_fold_refl : (u : Unicode) (s : String) → equal_fold u s s ≡ true
unfolding equal_fold
equal_fold_refl u s = same_runes_refl u (codes s)

module _ (m : Machinery) where
  place-keeps :
      (gv : String) (r : ApiResource) (w : World) (c : Cluster m)
      (shared own : Option (List ApiResourceList))
      → ((place m gv r w c shared own).1.gvr_list ≡ c.gvr_list)
        × ((place m gv r w c shared own).1.dynamic ≡ c.dynamic)
  place-keeps gv r w c (some t) own = (refl, refl)
  place-keeps gv r w c none (some ls) = (refl, refl)
  place-keeps gv r w c none none = (refl, refl)

  module _ (group version kind : String) (namespaced : Bool) where
    abbrev pub gvr : GroupVersionResource
    gvr = m.plural group version kind

    -- The cluster with its registry extended, and what is then put in place.
    abbrev pub extended : Cluster m → Cluster m
    extended c =
        reload_dynamic_client m (record c { gvr_list = set_kind gvr (kind <> "List") c.gvr_list })

    pub register_crd-known :
        (w : World) (c : Cluster m)
        → is_some (kind_of gvr c.gvr_list) ≡ true
        → register_crd m group version kind namespaced w c ≡ (w, c)
    unfolding register_crd
    register_crd-known w c h = rw (h, register_crd)

    pub register_crd-new :
        (w : World) (c : Cluster m)
        → is_some (kind_of gvr c.gvr_list) ≡ false
        → register_crd m group version kind namespaced w c
          ≡ place m
              (group <> ("/" <> version))
              (crd_resource group version kind gvr.resource namespaced)
              w
              (extended c)
              (append_resource
                (group <> ("/" <> version))
                (crd_resource group version kind gvr.resource namespaced)
                (w c.version))
              (append_resource
                (group <> ("/" <> version))
                (crd_resource group version kind gvr.resource namespaced)
                c.own)
    unfolding register_crd reload_dynamic_client
    register_crd-new w c h = rw (h, register_crd)

    register_crd-registers :
        (w : World) (c : Cluster m)
        → is_some (kind_of gvr (register_crd m group version kind namespaced w c).1.gvr_list) ≡ true
    unfolding reload_dynamic_client
    register_crd-registers w c = elim (Bool-cases (is_some (kind_of gvr c.gvr_list))) [
      | inl old ↦ rw (register_crd-known w c old) old
      | inr fresh ↦
          rw
            (
              register_crd-new w c fresh,
              (place-keeps _ _ w (extended c) (append_resource _ _ (w c.version))
                  (append_resource _ _ c.own)).0,
            )
            (set_kind-IsKnown_self gvr _ c.gvr_list)
    ]

    -- Registering a resource a second time, or one that the tables have, changes nothing.
    pub register_crd_idempotent :
        (again : Bool) (w : World) (c : Cluster m)
        → register_crd m group version kind again
            (register_crd m group version kind namespaced w c).0
            (register_crd m group version kind namespaced w c).1
          ≡ register_crd m group version kind namespaced w c
    unfolding register_crd
    register_crd_idempotent again w c = rw (register_crd-registers w c)

    -- `RegisterCRD` of a resource that is not in the registry yet makes a new dynamic client: every
    -- object that the cluster held is gone.
    pub register_crd-dynamic :
        (w : World) (c : Cluster m)
        → (register_crd m group version kind namespaced w c).1.dynamic ≡ (
            if is_some (kind_of gvr c.gvr_list)
            then c.dynamic
            else m.fresh (register_crd m group version kind namespaced w c).1.gvr_list)
    unfolding reload_dynamic_client
    register_crd-dynamic w c = elim (Bool-cases (is_some (kind_of gvr c.gvr_list))) [
      | inl old ↦ rw (register_crd-known w c old, old)
      | inr fresh ↦ rw (
        register_crd-new w c fresh,
        fresh,
        (place-keeps _ _ w (extended c) (append_resource _ _ (w c.version))
            (append_resource _ _ c.own)).0,
        (place-keeps _ _ w (extended c) (append_resource _ _ (w c.version))
            (append_resource _ _ c.own)).1,
      )
    ]
