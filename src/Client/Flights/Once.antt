-- ===== src/Client/Flights/Once.antt =====
-- client/client.go: `APIResourceList` of one goroutine as calls on the wrapped cache alone.
use kube_client.Prelude.{
  ℕ, String, Bool, true, false, Option, none, some, ◌≡◌, ◌≢◌, refl, sym, ap, ◌∙◌, subst, inl, inr,
  Bool-cases, Option-cases, arith, str_eq, eq_iff,
}
use kube_client.Api.{GroupVersion}
use kube_client.Client.Backend.{Error, Services}
use kube_client.Client.Discovery.{Client, sf_invalidate}
use kube_client.Client.Lookup.{
  Lists, listed, relist, invalidate_discovery, api_resource_list_uncached, api_resource_list_once,
  api_resource_list,
}
use kube_client.Client.Lookup.Wrapped.{
  IsWrapped, cache_of, set_cache-IsWrapped, invalidate_discovery-IsWrapped,
  api_resource_list_once-wrapped, api_resource_list_once_lem,
}
use kube_client.Client.Flights.{invalid, asks_again}

module _ (s : Services) (v : String) where
  abbrev pub asked : Option GroupVersion → s.cache.State → Lists × s.cache.State
  asked none st = (invalid v, st)
  asked (some gv) st =
      let (r, st') = s.cache.resources_for (s.schema.print gv) st in (listed s v r, st')

  -- One lookup, and one with the second that it may ask for.
  abbrev pub once : s.cache.State → Lists × s.cache.State
  once st = asked (s.schema.parse v) st

  abbrev pub once_more : s.cache.State → Bool → Lists × s.cache.State
  once_more st true = once (sf_invalidate s (once st).1)
  once_more st false = once st

  abbrev pub lookup : s.cache.State → Lists × s.cache.State
  lookup st = once_more st (asks_again false (once st).0.err)

  -- What a call on the client does to the wrapped object.
  pub record Does (p : ℕ) (result : Lists × Client s) (spec : Lists × s.cache.State) : Type 0 where
    pub same_result : result.0 ≡ spec.0
    pub wrapped : IsWrapped s p result.1
    pub same_cache : cache_of s p result.1 ≡ spec.1

  parse_fails :
      (c : Client s)
      → v ≢ ""
      → s.schema.parse v ≡ none
      → api_resource_list_once s v c ≡ (invalid v, c)
  unfolding api_resource_list_uncached
  parse_fails c named bad = api_resource_list_once_lem s v c ∙ (rw (str_neq v named, bad) refl)
    where
      str_neq : (v : String) → v ≢ "" → str_eq v "" ≡ false
      str_neq v h = ground (arith, eq_iff v "")

  once-Does :
      (p : ℕ) (c : Client s)
      → v ≢ ""
      → IsWrapped s p c
      → Does p (api_resource_list_once s v c) (once (cache_of s p c))
  once-Does p c named h = elim (Option-cases (s.schema.parse v)) [
    | inl bad ↦
        subst (λ o. Does p (api_resource_list_once s v c) (asked o (cache_of s p c))) (sym bad)
          (subst (λ a. Does p a (invalid v, cache_of s p c)) (sym (parse_fails c named bad))
            (record { same_result = refl; wrapped = h; same_cache = refl }))
    | inr (gv, parsed) ↦
        let (wrapped, same_cache) =
          set_cache-IsWrapped s p (asked (some gv) (cache_of s p c)).1 c h in
        subst (λ o. Does p (api_resource_list_once s v c) (asked o (cache_of s p c))) (sym parsed)
          (subst (λ a. Does p a (asked (some gv) (cache_of s p c)))
            (sym (api_resource_list_once-wrapped s v gv p c named parsed h))
            (record { same_result = refl; wrapped = wrapped; same_cache = same_cache }))
  ]

  relist-keeps :
      (r : Lists) (o : Option Error) (c : Client s)
      → asks_again false o ≡ false
      → relist s v r o c ≡ (r, c)
  relist-keeps r none c h = refl
  relist-keeps r (some e) c h = rw h refl

  relist-repeats :
      (r : Lists) (o : Option Error) (c : Client s)
      → asks_again false o ≡ true
      → relist s v r o c ≡ api_resource_list_once s v (invalidate_discovery s c)
  relist-repeats r none c h = cc
  relist-repeats r (some e) c h = rw h refl

  -- `APIResourceList` on a wrapped client, for an apiVersion that is not empty.
  pub api_resource_list-Does :
      (p : ℕ) (c : Client s)
      → v ≢ ""
      → IsWrapped s p c
      → Does p (api_resource_list s v c) (lookup (cache_of s p c))
  unfolding api_resource_list sf_invalidate
  api_resource_list-Does p c named h =
      let st = cache_of s p c in
      let (r, c') = api_resource_list_once s v c in
      let first = once-Does p c named h in
      elim (Bool-cases (asks_again false (once st).0.err)) [
        | inl wanted ↦
            let (wrapped, same) = invalidate_discovery-IsWrapped s p c' first.wrapped in
            let second = once-Does p (invalidate_discovery s c') named wrapped in
            subst (λ b. Does p (api_resource_list s v c) (once_more st b)) (sym wanted)
              (subst (λ a. Does p a (once (sf_invalidate s (once st).1)))
                (sym (
                  relist-repeats r r.err c'
                    (ap (λ x. asks_again false x.err) first.same_result ∙ wanted)))
                (subst
                  (λ st'.
                    Does p (api_resource_list_once s v (invalidate_discovery s c')) (once st'))
                  (same ∙ ap (sf_invalidate s) first.same_cache) second))
        | inr last ↦
            subst (λ b. Does p (api_resource_list s v c) (once_more st b)) (sym last)
              (subst (λ a. Does p a (once st))
                (sym (
                  relist-keeps r r.err c'
                    (ap (λ x. asks_again false x.err) first.same_result ∙ last)))
                first)
      ]
