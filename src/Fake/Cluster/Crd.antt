-- ===== src/Fake/Cluster/Crd.antt =====
-- fake/cluster.go: `RegisterCRD`.
pub mod Sharing
pub mod Effects
pub mod Found
pub mod Catalogue
use Prim.Native.String.{◌++◌ as ◌<>◌}
use mathlib.Core.Option
use kube_client.Prelude.{
  String, Bool, true, false, not, ◌&&◌, Option, some, List, [], ◌∷◌, ◌++◌, ◌≡◌, ◌≢◌, ap, ◌∙◌, subst,
  if◌then◌else◌, All, arith, Bool-cases, Option-cases, inl, inr, str_eq, eq_iff, some_inj,
}
use kube_client.Api.{GroupVersionResource, ApiResource, ApiResourceList, has_no_slash}
use kube_client.Fake.Machinery.{Machinery}
use kube_client.Fake.Resources.WellFormed.{IsFiled}
use kube_client.Fake.Cluster.{
  set_kind, Cluster, append_resource, crd_resource, append_crd, reload_dynamic_client,
}
use kube_client.Fake.Cluster.Served.{Served}

pub All-split {ℓ κ} :
    {A : Type ℓ} (P : A → Type κ) (xs ys : List A) → All P (xs ++ ys) → All P xs × All P ys
All-split P [] ys h = (tt, h)
All-split P (x ∷ xs) ys h = let (a, b) = All-split P xs ys h.1 in ((h.0, a), b)

-- The list with the resource at its end.
abbrev pub with_resource : ApiResource → ApiResourceList → ApiResourceList
with_resource r l = record l { api_resources = l.api_resources ++ (r ∷ []) }

pub append_resource-All :
    (P : ApiResourceList → Type 0) (gv : String) (r : ApiResource)
    → ((l : ApiResourceList) → l.group_version ≡ gv → P l → P (with_resource r l))
    → (ls ls' : List ApiResourceList) → append_resource gv r ls ≡ some ls'
    → All P ls
    → All P ls'
unfolding append_resource
append_resource-All P gv r step [] ls' e h = cc
append_resource-All P gv r step (l ∷ ls) ls' e h = elim (Bool-cases (str_eq l.group_version gv)) [
  | inl same ↦ subst (All P) (some_inj (rw same at e)) (step l ((eq_iff _ gv).0 same) h.0, h.1)
  | inr other ↦
      let (found, rest, k) = (Option.map-eq-some_iff _ _).0 (rw other at e) in
      subst (All P) k (h.0, append_resource-All P gv r step ls found rest h.1)
]

module _ (m : Machinery) where
  module _ (group version kind : String) (namespaced : Bool)
      (plain_group : has_no_slash group ≡ true) (plain_version : has_no_slash version ≡ true)
      (some_version : version ≢ "") (some_kind : kind ≢ "") where
    abbrev crd : ApiResource
    crd = crd_resource group version kind (m.plural group version kind).resource namespaced

    -- The cluster once its registry holds the custom resource.
    abbrev registered : Cluster m → Cluster m
    registered c =
        reload_dynamic_client m (record c {
          gvr_list = set_kind (m.plural group version kind) (kind <> "List") c.gvr_list;
        })

    abbrev FiledList : ApiResourceList → Type 0
    FiledList l = All (IsFiled m.schema l.group_version) l.api_resources
