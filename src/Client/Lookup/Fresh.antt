-- ===== src/Client/Lookup/Fresh.antt =====
-- A stale cache does not hide a resource: the lookups ask again after the cache is invalidated.
use kube_client.Prelude.{
  ℕ, String, true, Option, none, some, List, [], ◌∷◌, ◌≡◌, ◌≢◌, sym, ap, ◌∙◌, ◌⊎◌, subst, inl, inr,
  Option-cases, ok,
}
use kube_client.Api.{GroupVersion, ApiResource, ApiResourceList}
use kube_client.Client.Backend.{Error, Reply, Services}
use kube_client.Client.Discovery.{Client, contains, wrap, get_api_resource_from_resource_lists}
use kube_client.Client.Lookup.{
  no_resources, again, relist, picked, or_not_found, or_unsupported, invalidate_discovery,
  api_resource_list_once, api_resource_list, api_resource_once, api_resource, listed,
}
use kube_client.Client.Lookup.Wrapped.{
  IsWrapped, cache_of, set_cache-IsWrapped, invalidate_discovery-IsWrapped,
  api_resource_list_once-wrapped,
}

module _ (s : Services) where
  -- Whatever the cache holds, once invalidated it answers the list for the group version.
  abbrev pub Serves : GroupVersion → ApiResourceList → Type 0
  Serves gv l =
      (st : s.cache.State)
      → (s.cache.resources_for (s.schema.print gv) (s.cache.invalidate st)).0
        ≡ record { value = some l; err = none }

  -- What the wrapped cache answers now.
  abbrev pub answer_now : GroupVersion → ℕ → Client s → Reply (Option ApiResourceList)
  answer_now gv p c = (s.cache.resources_for (s.schema.print gv) (cache_of s p c)).0

  -- One list without an error is what is searched.
  api_resource_once-list :
      (v kind : String) (c : Client s) (ls : List ApiResourceList)
      → (api_resource_list_once s v c).0 ≡ record { value = ls; err = none }
      → api_resource_once s v kind c ≡ (picked s v kind none ls, (api_resource_list_once s v c).1)
  unfolding api_resource_once api_resource_list
  api_resource_once-list v kind c ls e =
      ap
        (λ x.
          let y = relist s v x x.err (api_resource_list_once s v c).1 in
          (picked s v kind y.0.err y.0.value, y.1))
        e

  module _ (v kind : String) (gv : GroupVersion) (l : ApiResourceList) (r : ApiResource) (p : ℕ)
      (named : v ≢ "") (parsed : s.schema.parse v ≡ some gv) (serves : Serves gv l)
      (there : get_api_resource_from_resource_lists s kind (l ∷ []) ≡ some r) where
    relisted :
        (c : Client s)
        → IsWrapped s p c
        → (api_resource_list_once s v (invalidate_discovery s c)).0
          ≡ record { value = l ∷ []; err = none }
    relisted c h =
        let (h', same) = invalidate_discovery-IsWrapped s p c h in
        ap (λ a. a.0)
          (api_resource_list_once-wrapped s v gv p (invalidate_discovery s c) named parsed h')
        ∙ ap (λ st. listed s v (s.cache.resources_for (s.schema.print gv) st).0) same
        ∙ ap (listed s v) (serves (cache_of s p c))

    looked_up_again :
        (c : Client s)
        → IsWrapped s p c
        → (api_resource_once s v kind (invalidate_discovery s c)).0 ≡ ok r
    looked_up_again c h =
        ap (λ a. a.0)
          (api_resource_once-list v kind (invalidate_discovery s c) (l ∷ []) (relisted c h))
        ∙ ap (or_not_found s v kind) there

    listing-IsWrapped :
        (c : Client s) → IsWrapped s p c → IsWrapped s p (api_resource_list_once s v c).1
    listing-IsWrapped c h =
        subst (λ a. IsWrapped s p a.1)
          (sym (api_resource_list_once-wrapped s v gv p c named parsed h))
          (set_cache-IsWrapped s p _ c h).0

    -- The cache holds an error that says "not found".
    after_error :
        (c : Client s) (e : Error)
        → IsWrapped s p c
        → (api_resource_list_once s v c).0 ≡ record { value = []; err = some e }
        → contains e.text "not found" ≡ true
        → (api_resource s v kind c).0 ≡ ok r
    unfolding api_resource api_resource_once api_resource_list
    after_error c e h listed says =
        ap
          (λ x.
            let y = relist s v x x.err (api_resource_list_once s v c).1 in
            (again s v kind (picked s v kind y.0.err y.0.value) y.1).0)
          listed
        ∙ (rw says (
            ap
              (λ x.
                (again s v kind (picked s v kind x.err x.value)
                  (api_resource_list_once s v
                    (invalidate_discovery s (api_resource_list_once s v c).1)).1).0)
              (relisted _ (listing-IsWrapped c h))
            ∙ ap
                (λ o.
                  (again s v kind (or_not_found s v kind o)
                    (api_resource_list_once s v
                      (invalidate_discovery s (api_resource_list_once s v c).1)).1).0)
                there))

    -- The cache holds a list.
    after_list :
        (c : Client s) (held : ApiResourceList) (found : Option ApiResource)
        → IsWrapped s p c
        → (api_resource_list_once s v c).0 ≡ record { value = held ∷ []; err = none }
        → get_api_resource_from_resource_lists s kind (held ∷ []) ≡ found
        → (api_resource s v kind c).0
          ≡ (again s v kind (or_not_found s v kind found) (api_resource_list_once s v c).1).0
    unfolding api_resource
    after_list c held found h listed search =
        ap (λ a. (again s v kind a.0 a.1).0) (api_resource_once-list v kind c (held ∷ []) listed)
        ∙ ap (λ o. (again s v kind (or_not_found s v kind o) (api_resource_list_once s v c).1).0)
            search

    once_more :
        (c : Client s) → IsWrapped s p c → (again s v kind (or_not_found s v kind none) c).0 ≡ ok r
    once_more c h = rw (s.new_not_found_is _ _) (ap (or_unsupported s v kind) (looked_up_again c h))

    abbrev Outcome : Client s → ApiResourceList → Type 0
    Outcome c held =
        ((api_resource s v kind c).0 ≡ ok r)
        ⊎ ((old : ApiResource) × (get_api_resource_from_resource_lists s kind (held ∷ [])
              ≡ some old)
            × ((api_resource s v kind c).0 ≡ ok old))

    with_list :
        (c : Client s) (held : ApiResourceList)
        → IsWrapped s p c
        → (api_resource_list_once s v c).0 ≡ record { value = held ∷ []; err = none }
        → Outcome c held
    with_list c held h listed =
        elim (Option-cases (get_api_resource_from_resource_lists s kind (held ∷ []))) [
          | inl missing ↦
              inl (after_list c held none h listed missing ∙ once_more _ (listing-IsWrapped c h))
          | inr (old, found) ↦ inr (old, found, after_list c held (some old) h listed found)
        ]

    -- For a wrapped client and an apiVersion that parses and is not empty: if the invalidated cache
    -- answers a list in which the kind matches, `APIResource` finds that resource or one in the list
    -- that the cache answers now, provided that the cache answers now with a list or with an error
    -- whose text, behind the client's, contains "not found".
    pub api_resource-Serves :
        (c : Client s)
        → IsWrapped s p c
        → ((e : Error)
            → (answer_now gv p c).err ≡ some e
            → contains (wrap (no_resources v) e).text "not found" ≡ true)
        → ((api_resource s v kind c).0 ≡ ok r)
          ⊎ ((held : ApiResourceList) × ((answer_now gv p c).value ≡ some held)
              × ((old : ApiResource) × (get_api_resource_from_resource_lists s kind (held ∷ [])
                    ≡ some old)
                  × ((api_resource s v kind c).0 ≡ ok old)))
    api_resource-Serves c h says =
        let now = answer_now gv p c in
        let answer = ap (λ a. a.0) (api_resource_list_once-wrapped s v gv p c named parsed h) in
        elim (Option-cases now.err) [
          | inr (e, failed) ↦ inl (
              after_error c (wrap (no_resources v) e) h
                (answer ∙ ap (λ o. listed s v (record { value = now.value; err = o })) failed)
                (says e failed))
          | inl fine ↦ elim (Option-cases now.value) [
            | inl nil ↦ absurd (s.cache.resources_for-some _ _ fine nil)
            | inr (held, is) ↦
                elim (with_list c held h (
                  answer
                  ∙ ap (λ o. listed s v (record { value = now.value; err = o })) fine
                  ∙ ap (λ o. listed s v (record { value = o; err = none })) is)) [
                    | inl new ↦ inl new
                    | inr (old, found, got) ↦ inr (held, is, (old, found, got))
                  ]
          ]
        ]
