-- ===== src/Fake/Cluster/Crd/Found.antt =====
-- fake/cluster.go: `FindGVR` finds what `RegisterCRD` registered.
use Prim.Native.String.{◌++◌ as ◌<>◌}
use mathlib.Core.Option
use text.Mathlib.TextLemmas.{append-ne-nil_of_right_ne-nil, cons-append, cons-ne-nil}
use kube_client.Prelude.{
  String, Bool, true, false, ◌||◌, ◌&&◌, Option, none, some, List, [], ◌∷◌, ◌++◌, ◌≡◌, ◌≢◌, refl,
  sym, ap, ◌∙◌, subst, arith, Bool-cases, Option-cases, inl, inr, str_eq, eq_iff, some_inj, ok,
  eq_refl,
}
use kube_client.Api.{
  GroupVersionResource, ApiResource, ApiResourceList, has_no_slash, parse_or_zero,
}
use kube_client.Fake.Machinery.{Machinery}
use kube_client.Fake.Cluster.{
  kind_of, is_some, World, Cluster, resources, append_resource, set_table, crd_resource, place,
  register_crd, reload_dynamic_client, find_resource, find_gvr, found_or_error, find_cluster_gvr,
}
use kube_client.Fake.Cluster.Crd.{with_resource}
use kube_client.Fake.Cluster.Crd.Effects.{equal_fold_refl, extended, register_crd-new}

module _ (m : Machinery) where
  find_resource-last :
      (k : String) (rs : List ApiResource) (r : ApiResource)
      → r.kind ≡ k
      → is_some (find_resource m k (rs ++ (r ∷ []))) ≡ true
  unfolding find_resource
  find_resource-last k [] r e = rw (e, equal_fold_refl m.unicode k)
  find_resource-last k (x ∷ rs) r e = ground (arith, find_resource-last k rs r e)

  -- Some list of the group version has a resource of the kind.
  abbrev offers : String → String → List ApiResourceList → Bool
  offers v k [] = false
  offers v k (l ∷ ls) =
      (str_eq l.group_version v && is_some (find_resource m k l.api_resources)) || offers v k ls

  offers-append_left :
      (v k : String) (ls t : List ApiResourceList)
      → offers v k ls ≡ true
      → offers v k (ls ++ t) ≡ true
  offers-append_left v k [] t h = cc
  offers-append_left v k (l ∷ ls) t h = ground (arith, offers-append_left v k ls t)

  offers-append_right :
      (v k : String) (ls t : List ApiResourceList)
      → offers v k t ≡ true
      → offers v k (ls ++ t) ≡ true
  offers-append_right v k [] t h = h
  offers-append_right v k (l ∷ ls) t h = ground (arith, offers-append_right v k ls t)

  offers-with_resource :
      (v k : String) (r : ApiResource) (l : ApiResourceList) (ls : List ApiResourceList)
      → r.kind ≡ k
      → l.group_version ≡ v
      → offers v k (with_resource r l ∷ ls) ≡ true
  offers-with_resource v k r l ls e same =
      ground (arith, find_resource-last k l.api_resources r e, (eq_iff l.group_version v).1 same)

  offers-append_resource :
      (v k : String) (r : ApiResource) (ls t : List ApiResourceList)
      → r.kind ≡ k
      → append_resource v r ls ≡ some t
      → offers v k t ≡ true
  unfolding append_resource
  offers-append_resource v k r [] t e h = cc
  offers-append_resource v k r (l ∷ ls) t e h = elim (Bool-cases (str_eq l.group_version v)) [
    | inl same ↦
        subst (λ u. offers v k u ≡ true) (some_inj (rw same at h))
          (offers-with_resource v k r l ls e ((eq_iff l.group_version v).0 same))
    | inr other ↦
        let (found, rest, same) = (Option.map-eq-some_iff _ _).0 (rw other at h) in
        subst (λ u. offers v k u ≡ true) same
          (offers-append_right v k (l ∷ []) found (offers-append_resource v k r ls found e rest))
  ]

  -- Where the group version is named, what is found carries what it parses to.
  abbrev IsPlacedIn : String → GroupVersionResource → Type 0
  IsPlacedIn v g =
      (g.group ≡ (parse_or_zero m.schema v).group)
      × (g.version ≡ (parse_or_zero m.schema v).version)

  find_gvr_offered :
      (v k : String) (ls : List ApiResourceList)
      → v ≢ ""
      → offers v k ls ≡ true
      → (g : GroupVersionResource) × (find_gvr m ls v k ≡ some g) × IsPlacedIn v g
  unfolding find_gvr
  find_gvr_offered v k [] n h = cc
  find_gvr_offered v k (l ∷ ls) n h =
      let named : str_eq v "" ≡ false = ground (arith, eq_iff v "") in
      elim (Bool-cases (str_eq l.group_version v)) [
        | inr other ↦ rw (named, other) (find_gvr_offered v k ls n (rw other at h))
        | inl same ↦ elim (Option-cases (find_resource m k l.api_resources)) [
          | inl missing ↦
              rw (named, same, missing) (find_gvr_offered v k ls n (rw (same, missing) at h))
          | inr (r, found) ↦
              let place = ap (parse_or_zero m.schema) ((eq_iff l.group_version v).0 same) in
              (
                record {
                  group = (parse_or_zero m.schema l.group_version).group;
                  version = (parse_or_zero m.schema l.group_version).version;
                  resource = r.name;
                },
                rw (named, same, found),
                (ap (λ gv. gv.group) place, ap (λ gv. gv.version) place),
              )
        ]
      ]

  module _ (group version kind : String) (namespaced : Bool)
      (plain_group : has_no_slash group ≡ true) (plain_version : has_no_slash version ≡ true)
      (some_version : version ≢ "") where
    abbrev gv : String
    gv = group <> ("/" <> version)

    gv-ne-empty : gv ≢ ""
    gv-ne-empty =
        append-ne-nil_of_right_ne-nil group
          (λ e. cons-ne-nil _ _ (sym (cons-append _ _ version) ∙ e))

    parse-gv : parse_or_zero m.schema gv ≡ record { group = group; version = version }
    unfolding parse_or_zero
    parse-gv = rw (m.schema.parse-slash group version plain_group plain_version some_version)

    crd : ApiResource
    crd = crd_resource group version kind (m.plural group version kind).resource namespaced

    place-offers :
        (w : World) (c : Cluster m) (shared own : Option (List ApiResourceList))
        → append_resource gv crd (w c.version) ≡ shared
        → append_resource gv crd c.own ≡ own
        → offers gv kind
            (resources m (place m gv crd w c shared own).0 (place m gv crd w c shared own).1)
          ≡ true
    unfolding resources crd crd_resource set_table
    place-offers w c (some t) own es eo = rw (eq_refl c.version) (
        offers-append_left gv kind t c.own
          (offers-append_resource gv kind crd (w c.version) t refl es))
    place-offers w c none (some ls) es eo =
        offers-append_right gv kind (w c.version) ls
          (offers-append_resource gv kind crd c.own ls refl eo)
    place-offers w c none none es eo = offers-append_right gv kind (w c.version) _ (
        offers-append_right gv kind c.own _ (
          offers-with_resource gv kind crd (record { group_version = gv; api_resources = [] }) []
            refl refl))

    -- For a group without slash and a version without slash that is not empty: after `RegisterCRD` of
    -- a resource that was not in the registry, `FindGVR` by its group version and kind finds a
    -- resource of that group and that version.
    pub register_crd-found :
        (w : World) (c : Cluster m)
        → kind_of (m.plural group version kind) c.gvr_list ≡ none
        → (g : GroupVersionResource) × (find_cluster_gvr m
              (register_crd m group version kind namespaced w c).0
              (register_crd m group version kind namespaced w c).1
              gv
              kind
            ≡ ok g)
          × (g.group ≡ group)
          × (g.version ≡ version)
    unfolding find_cluster_gvr reload_dynamic_client crd
    register_crd-found w c fresh =
        let (g, found, place_is) = find_gvr_offered gv kind _ gv-ne-empty (
          place-offers w (extended m group version kind namespaced c)
            (append_resource gv crd (w c.version)) (append_resource gv crd c.own) refl refl) in
        (
          g,
          rw (register_crd-new m group version kind namespaced w c (ap is_some fresh))
              (ap (found_or_error m kind) found),
          place_is.0 ∙ ap (λ x. x.group) parse-gv,
          place_is.1 ∙ ap (λ x. x.version) parse-gv,
        )
