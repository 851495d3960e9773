-- ===== src/Fake/Cluster/Crd/Catalogue.antt =====
-- fake/cluster.go: discovery as one catalogue of resources, without the lists that hold them.
use Prim.Native.String.{◌++◌ as ◌<>◌}
use mathlib.Core.Option
use mathlib.Core.List.{Perm, append-nil}
use mathlib.Core.List.Perm
use kube_client.Prelude.{
  String, Bool, true, false, ◌&&◌, ◌||◌, not, Option, none, some, List, [], ◌∷◌, ◌++◌, ◌≡◌, refl,
  sym, ap, subst, if◌then◌else◌, Bool-cases, inl, inr, str_eq, eq_iff, eq_refl, some_inj, arith,
}
use kube_client.Api.{GroupVersionResource, ApiResource, ApiResourceList, parse_or_zero}
use kube_client.Api.Fold.{equal_fold}
use kube_client.Fake.Machinery.{Machinery}
use kube_client.Fake.Cluster.{
  kind_of, is_some, World, Cluster, resources, append_resource, set_table, crd_resource, place,
  register_crd, find_resource, found_in, find_gvr, found_or_error, find_cluster_gvr,
  reload_dynamic_client,
}
use kube_client.Fake.Cluster.Crd.Effects.{extended, gvr, register_crd-new, register_crd-known}

-- A resource with the group version that it is served under.
abbrev pub Listed : Type 0
Listed = String × ApiResource

abbrev tagged : String → List ApiResource → List Listed → List Listed
tagged gv [] es = es
tagged gv (r ∷ rs) es = (gv, r) ∷ tagged gv rs es

abbrev pub catalogue : List ApiResourceList → List Listed
catalogue [] = []
catalogue (l ∷ ls) = tagged l.group_version l.api_resources (catalogue ls)

tagged-snoc :
    (gv : String) (rs : List ApiResource) (r : ApiResource) (es : List Listed)
    → Perm (tagged gv (rs ++ (r ∷ [])) es) ((gv, r) ∷ tagged gv rs es)
tagged-snoc gv [] r es = Perm.rfl
tagged-snoc gv (x ∷ rs) r es =
    Perm.trans (Perm.cons (gv, x) (tagged-snoc gv rs r es)) (Perm.swap (gv, r) (gv, x) _)

tagged-Perm :
    (gv : String) (rs : List ApiResource) (e : Listed) (es fs : List Listed)
    → Perm es (e ∷ fs)
    → Perm (tagged gv rs es) (e ∷ tagged gv rs fs)
tagged-Perm gv [] e es fs h = h
tagged-Perm gv (x ∷ rs) e es fs h =
    Perm.trans (Perm.cons (gv, x) (tagged-Perm gv rs e es fs h)) (Perm.swap e (gv, x) _)

append_resource-catalogue :
    (gv : String) (r : ApiResource) (ls ls' : List ApiResourceList)
    → append_resource gv r ls ≡ some ls'
    → (own : List ApiResourceList) → Perm (catalogue (ls' ++ own)) ((gv, r) ∷ catalogue (ls ++ own))
unfolding append_resource
append_resource-catalogue gv r [] ls' e own = cc
append_resource-catalogue gv r (l ∷ ls) ls' e own = elim (Bool-cases (str_eq l.group_version gv)) [
  | inl same ↦
      subst (λ t. Perm (catalogue (t ++ own)) ((gv, r) ∷ catalogue ((l ∷ ls) ++ own)))
        (some_inj (rw same at e))
        (subst
          (λ k.
            Perm
              (catalogue ((record l { api_resources = l.api_resources ++ (r ∷ []) } ∷ ls) ++ own))
              ((k, r) ∷ catalogue ((l ∷ ls) ++ own)))
          ((eq_iff _ gv).0 same)
          (tagged-snoc l.group_version l.api_resources r (catalogue (ls ++ own))))
  | inr other ↦
      let (found, rest, k) = (Option.map-eq-some_iff _ _).0 (rw other at e) in
      subst (λ t. Perm (catalogue (t ++ own)) ((gv, r) ∷ catalogue ((l ∷ ls) ++ own))) k
        (tagged-Perm l.group_version l.api_resources (gv, r) _ _
          (append_resource-catalogue gv r ls found rest own))
]

behind :
    (ls : List ApiResourceList) (e : Listed) (own own' : List ApiResourceList)
    → Perm (catalogue own') (e ∷ catalogue own)
    → Perm (catalogue (ls ++ own')) (e ∷ catalogue (ls ++ own))
behind [] e own own' h = h
behind (l ∷ ls) e own own' h =
    tagged-Perm l.group_version l.api_resources e _ _ (behind ls e own own' h)

new_list-Perm :
    (gv : String) (r : ApiResource) (own : List ApiResourceList)
    → Perm
        (catalogue (own ++ (record { group_version = gv; api_resources = r ∷ [] } ∷ [])))
        ((gv, r) ∷ catalogue own)
new_list-Perm gv r [] = Perm.rfl
new_list-Perm gv r (l ∷ own) =
    tagged-Perm l.group_version l.api_resources (gv, r) _ _ (new_list-Perm gv r own)

neither : (a b : Bool) → (not a && not b) ≡ true → (a || b) ≡ false
neither a b h = ground arith

either : (a b : Bool) → (not a && not b) ≡ false → (a || b) ≡ true
either a b h = ground arith

module _ (m : Machinery) where
  -- The first entry of the catalogue that the lookup wants.
  abbrev pub first_entry : String → String → List Listed → Option GroupVersionResource
  first_entry v kind [] = none
  first_entry v kind ((gv, r) ∷ es) =
      if (str_eq v "" || str_eq gv v)
        && (equal_fold m.unicode r.kind kind || equal_fold m.unicode r.name kind)
      then (let parsed = parse_or_zero m.schema gv in
          some (record { group = parsed.group; version = parsed.version; resource = r.name }))
      else first_entry v kind es

  skips :
      (v kind gv : String) (rs : List ApiResource) (es : List Listed)
      → (not (str_eq v "") && not (str_eq gv v)) ≡ true
      → first_entry v kind (tagged gv rs es) ≡ first_entry v kind es
  skips v kind gv [] es h = refl
  skips v kind gv (r ∷ rs) es h =
      rw (neither (str_eq v "") (str_eq gv v) h) (skips v kind gv rs es h)

  searches :
      (v kind gv : String) (rs : List ApiResource) (es : List Listed)
      → (not (str_eq v "") && not (str_eq gv v)) ≡ false
      → first_entry v kind (tagged gv rs es)
        ≡ found_in m gv (find_resource m kind rs) (first_entry v kind es)
  unfolding find_resource
  searches v kind gv [] es h = refl
  searches v kind gv (r ∷ rs) es h =
      rw (either (str_eq v "") (str_eq gv v) h)
        (elim (Bool-cases (equal_fold m.unicode r.kind kind || equal_fold m.unicode r.name kind)) [
          | inl found ↦ rw found refl
          | inr missed ↦ rw missed (searches v kind gv rs es h)
        ])

  find_gvr-catalogue :
      (ls : List ApiResourceList) (v kind : String)
      → find_gvr m ls v kind ≡ first_entry v kind (catalogue ls)
  unfolding find_gvr
  find_gvr-catalogue [] v kind = refl
  find_gvr-catalogue (l ∷ ls) v kind =
      elim (Bool-cases (not (str_eq v "") && not (str_eq l.group_version v))) [
        | inl skip ↦
            rw (skip, find_gvr-catalogue ls v kind)
              (sym (skips v kind l.group_version l.api_resources (catalogue ls) skip))
        | inr search ↦
            rw (search, find_gvr-catalogue ls v kind)
              (sym (searches v kind l.group_version l.api_resources (catalogue ls) search))
      ]

  module _ (group version kind : String) (namespaced : Bool) where
    abbrev pub entry : Listed
    entry = (
      group <> ("/" <> version),
      crd_resource group version kind (gvr m group version kind namespaced).resource namespaced,
    )

    abbrev pub shown : World × Cluster m → List Listed
    shown (w, c) = catalogue (resources m w c)

    place-catalogue :
        (w : World) (c : Cluster m) (shared own : Option (List ApiResourceList))
        → append_resource entry.0 entry.1 (w c.version) ≡ shared
        → append_resource entry.0 entry.1 c.own ≡ own
        → Perm
            (shown
              (place m entry.0 entry.1 w (extended m group version kind namespaced c) shared own))
            (entry ∷ shown (w, c))
    unfolding resources reload_dynamic_client set_table
    place-catalogue w c (some t) own es eo =
        rw (eq_refl c.version) (append_resource-catalogue entry.0 entry.1 (w c.version) t es c.own)
    place-catalogue w c none (some ls) es eo = behind (w c.version) entry c.own ls (
        subst (λ a. Perm (catalogue a) (entry ∷ catalogue c.own)) (append-nil ls)
          (subst (λ b. Perm (catalogue (ls ++ [])) (entry ∷ catalogue b)) (append-nil c.own)
            (append_resource-catalogue entry.0 entry.1 c.own ls eo [])))
    place-catalogue w c none none es eo =
        behind (w c.version) entry c.own _ (new_list-Perm entry.0 entry.1 c.own)

    -- `RegisterCRD` adds one entry to the catalogue of its cluster, wherever it puts it, or none when
    -- the resource is in the registry already; and `FindGVR` then finds the first entry of the
    -- catalogue with the apiVersion, if that is not empty, and with the kind or name but for case.
    pub register_crd-catalogue :
        (w : World) (c : Cluster m)
        → Perm (shown (register_crd m group version kind namespaced w c)) (
            if is_some (kind_of (gvr m group version kind namespaced) c.gvr_list)
            then shown (w, c)
            else entry ∷ shown (w, c))
          × ((v name : String)
              → find_cluster_gvr m
                  (register_crd m group version kind namespaced w c).0
                  (register_crd m group version kind namespaced w c).1
                  v
                  name
                ≡ found_or_error m name
                    (first_entry v name (shown (register_crd m group version kind namespaced w c))))
    unfolding find_cluster_gvr
    register_crd-catalogue w c = (
      elim (Bool-cases (is_some (kind_of (gvr m group version kind namespaced) c.gvr_list))) [
        | inl old ↦ rw (register_crd-known m group version kind namespaced w c old, old) Perm.rfl
        | inr fresh ↦
            rw (register_crd-new m group version kind namespaced w c fresh, fresh)
              (place-catalogue w c (append_resource entry.0 entry.1 (w c.version))
                (append_resource entry.0 entry.1 c.own) refl refl)
      ],
      λ v name. ap (found_or_error m name) (find_gvr-catalogue _ v name),
    )
