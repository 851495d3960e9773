-- ===== src/Client/Lookup/Located.antt =====
-- Where the result of `GroupVersionResource` comes from.
use mathlib.Core.List.{Memᴰ}
use kube_client.Prelude.{
  ℕ, String, Option, none, some, List, [], ◌∷◌, ◌≡◌, ◌≢◌, refl, sym, ap, ◌∙◌, subst, inl, inr,
  Bool-cases, Result, ok, fail, All,
}
use kube_client.Api.{
  GroupVersion, GroupVersionResource, ApiResource, ApiResourceList, parse_or_zero,
}
use kube_client.Client.Backend.{Error, Reply, Services}
use kube_client.Client.Discovery.{Client, contains, placed, get_api_resource_from_resource_lists}
use kube_client.Client.Discovery.Search.{IsMatch, get_api_resource-IsMatch}
use kube_client.Client.Lookup.{
  Lists, again, relist, picked, or_not_found, or_unsupported, invalidate_discovery, gvr_or_error,
  api_resource_list_once, api_resource_list, api_resource_once, api_resource, listed,
  group_version_resource,
}
use kube_client.Client.Lookup.Wrapped.{
  IsWrapped, cache_of, set_cache-IsWrapped, invalidate_discovery-IsWrapped,
  api_resource_list_once-wrapped,
}

All-Mem {ℓ κ} : {A : Type ℓ} (P : A → Type κ) (x : A) (xs : List A) → Memᴰ x xs → All P xs → P x
All-Mem P x [] here h = elim here [ ]
All-Mem P x (y ∷ ys) (Memᴰ.head e) h = subst P (sym e) h.0
All-Mem P x (y ∷ ys) (Memᴰ.tail later) h = All-Mem P x ys later h.1

module _ (s : Services) where
  -- The cache answers the list for the group version, in some state of it.
  abbrev pub IsAnswer : GroupVersion → ApiResourceList → Type 0
  IsAnswer gv l =
      (st : s.cache.State) × ((s.cache.resources_for (s.schema.print gv) st).0.value ≡ some l)

  -- A resource of such a list that the name matches.
  abbrev pub IsFrom : String → GroupVersion → ApiResource → Type 0
  IsFrom kind gv r =
      (l : ApiResourceList) × IsAnswer gv l
      × ((r0 : ApiResource) × Memᴰ r0 l.api_resources
          × IsMatch s kind r0
          × (placed r0 (parse_or_zero s.schema l.group_version) ≡ r))

  listed-All :
      (v : String) (r : Reply (Option ApiResourceList))
      → All (λ l. r.value ≡ some l) (listed s v r).value
  listed-All v r = by_parts r.value r.err
    where
      by_parts :
          (value : Option ApiResourceList) (err : Option Error)
          → All (λ l. value ≡ some l) (listed s v (record { value = value; err = err })).value
      by_parts none none = tt
      by_parts (some l) none = (refl, tt)
      by_parts value (some e) = tt

  module _ (v kind : String) (gv : GroupVersion) (p : ℕ) where
    Carried : Lists × Client s → Type 0
    Carried x = All (IsAnswer gv) x.0.value × IsWrapped s p x.1

    relist-Carried :
        (x : Lists × Client s)
        → ((c : Client s) → IsWrapped s p c → Carried (api_resource_list_once s v c))
        → Carried x
        → Carried (relist s v x.0 x.0.err x.1)
    unfolding Carried
    relist-Carried (x, c) asks (from, wrapped) = by_error x.err
      where
        by_error : (err : Option Error) → Carried (relist s v x err c)
        by_error none = (from, wrapped)
        by_error (some e) = elim (Bool-cases (contains e.text "not found")) [
          | inl says ↦
              rw says
                (asks (invalidate_discovery s c) (invalidate_discovery-IsWrapped s p c wrapped).0)
          | inr other ↦ rw other (from, wrapped)
        ]

    module _ (named : v ≢ "") (parsed : s.schema.parse v ≡ some gv) where
      once-Carried : (c : Client s) → IsWrapped s p c → Carried (api_resource_list_once s v c)
      unfolding Carried
      once-Carried c h =
          subst Carried (sym (api_resource_list_once-wrapped s v gv p c named parsed h)) (
            All-map
                (listed s v (s.cache.resources_for (s.schema.print gv) (cache_of s p c)).0).value
                (listed-All v _),
            (set_cache-IsWrapped s p _ c h).0,
          )
        where
          All-map :
              (ls : List ApiResourceList)
              → All
                  (λ l.
                    (s.cache.resources_for (s.schema.print gv) (cache_of s p c)).0.value ≡ some l)
                  ls
              → All (IsAnswer gv) ls
          All-map [] h = tt
          All-map (l ∷ ls) h = ((cache_of s p c, h.0), All-map ls h.1)

      list-Carried : (c : Client s) → IsWrapped s p c → Carried (api_resource_list s v c)
      unfolding api_resource_list
      list-Carried c h =
          relist-Carried (api_resource_list_once s v c) once-Carried (once-Carried c h)

      picked-IsFrom :
          (err : Option Error) (ls : List ApiResourceList) (r : ApiResource)
          → All (IsAnswer gv) ls
          → picked s v kind err ls ≡ ok r
          → IsFrom kind gv r
      picked-IsFrom err ls r from h =
          let (l, here, found) = get_api_resource-IsMatch s kind ls r (searched err ls h) in
          (l, All-Mem (IsAnswer gv) l ls here from, found)
        where
          is_found : (o : Option ApiResource) → or_not_found s v kind o ≡ ok r → o ≡ some r
          is_found (some r') h = cc
          is_found none h = cc

          searched :
              (err : Option Error) (ls : List ApiResourceList)
              → picked s v kind err ls ≡ ok r
              → get_api_resource_from_resource_lists s kind ls ≡ some r
          searched (some e) [] h = cc
          searched none [] h = is_found _ h
          searched err (l ∷ ls) h = is_found _ h

      once-IsFrom :
          (c : Client s) (r : ApiResource)
          → IsWrapped s p c
          → (api_resource_once s v kind c).0 ≡ ok r
          → IsFrom kind gv r
      unfolding api_resource_once Carried
      once-IsFrom c r h e =
          picked-IsFrom (api_resource_list s v c).0.err (api_resource_list s v c).0.value r
            (list-Carried c h).0 e

      again-IsFrom :
          (x : Result Error ApiResource) (c : Client s) (r : ApiResource)
          → IsWrapped s p c
          → (x ≡ ok r → IsFrom kind gv r)
          → (again s v kind x c).0 ≡ ok r
          → IsFrom kind gv r
      again-IsFrom (ok r') c r h now e = now e
      again-IsFrom (fail e') c r h now e = elim (Bool-cases e'.is_not_found) [
        | inl missing ↦
            once-IsFrom (invalidate_discovery s c) r (invalidate_discovery-IsWrapped s p c h).0
              (supported _ (rw missing at e))
        | inr other ↦ cc (rw other at e)
      ]
        where
          supported : (x : Result Error ApiResource) → or_unsupported s v kind x ≡ ok r → x ≡ ok r
          supported (ok r') e = e
          supported (fail e') e = cc

      -- For a wrapped client, an apiVersion that parses and is not empty, and a cache that answers
      -- only lists of the group version that it is asked for: the group and the version that
      -- `GroupVersionResource` returns are those of the apiVersion, and the resource is the name of
      -- one that the kind matches, in a list that the cache answers.
      pub group_version_resource-IsMatch :
          (c : Client s) (g : GroupVersionResource)
          → IsWrapped s p c
          → ((l : ApiResourceList) → IsAnswer gv l → parse_or_zero s.schema l.group_version ≡ gv)
          → (group_version_resource s v kind c).0 ≡ ok g
          → (l : ApiResourceList) × IsAnswer gv l
            × ((r0 : ApiResource) × Memᴰ r0 l.api_resources
                × IsMatch s kind r0
                × (g ≡ record { group = gv.group; version = gv.version; resource = r0.name }))
      unfolding group_version_resource api_resource api_resource_once Carried placed
      group_version_resource-IsMatch c g h echoes e =
          let (r, got, is) = of_gvr _ e in
          let (l, answered, (r0, here, match, same)) =
            again-IsFrom (api_resource_once s v kind c).0 (api_resource_once s v kind c).1 r
              (list-Carried c h).1 (once-IsFrom c r h) got in
          (
            l,
            answered,
            (
              r0,
              here,
              match,
              sym is
                  ∙ ap (λ r. record { group = r.group; version = r.version; resource = r.name })
                      (sym same)
                  ∙ ap (λ gv. record { group = gv.group; version = gv.version; resource = r0.name })
                      (echoes l answered),
            ),
          )
        where
          of_gvr :
              (x : Result Error ApiResource)
              → gvr_or_error s x ≡ ok g
              → (r : ApiResource) × (x ≡ ok r)
                × (record { group = r.group; version = r.version; resource = r.name } ≡ g)
          of_gvr (ok r) e = (r, refl, cc)
          of_gvr (fail e') e = cc
