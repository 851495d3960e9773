-- ===== src/Client/Flights/Alone.antt =====
-- client/client.go: a goroutine that is the only one in `APIResourceList`, beside the function.
use kube_client.Prelude.{
  ℕ, String, Bool, true, false, Option, none, some, ◌≡◌, ◌≢◌, refl, sym, ap, ◌∙◌, subst, ◌==◌,
  Bool-cases, inl, inr, ==_iff,
}
use kube_client.Api.{GroupVersion}
use kube_client.Client.Backend.{Services}
use kube_client.Client.Discovery.{Client, sf_invalidate}
use kube_client.Client.Lookup.{Lists, listed, api_resource_list}
use kube_client.Client.Lookup.Wrapped.{IsWrapped, cache_of}
use kube_client.Client.Flights.{
  Group, Pc, invalid, idle, calling, waiting, leading, inner_waiting, fetching, fetched, computed,
  done, locking, invalidating, list_key, Sys, Step, ask, lead, join, refuse, inner_lead, inner_join,
  fetch, inner_return, return, take_result, retry, lock, invalidate, asks_again, Reach, later,
}
use kube_client.Client.Flights.Views.{outer_leads, inner_leads, no_key}
use kube_client.Client.Flights.Invariant.{Inv, Reach-Inv}
use kube_client.Client.Flights.Steps.{Change, starts, change, Change-idle}
use kube_client.Client.Flights.Bound.{Run, now, next_step}
use kube_client.Client.Flights.Once.{once, once_more, asked, lookup, api_resource_list-Does}

module _ (s : Services) (v : String) (st : s.cache.State) where
  -- The cache before a lookup: the first, or the one after the invalidation.
  abbrev begins : Bool → s.cache.State
  begins false = st
  begins true = sf_invalidate s (once s v st).1

  -- A second lookup was asked for.
  abbrev Wanted : Type 0
  Wanted = asks_again false (once s v st).0.err ≡ true

  abbrev Named : String → Bool → Type 0
  Named w second = (w ≡ v) × (second ≡ true → Wanted)

  -- What the goroutine and the cache are when it stands there.
  abbrev At : Pc → s.cache.State → Type 0
  At idle c = Unit {0}
  At (calling w second) c = Named w second × (c ≡ begins second)
  At (leading w second) c = Named w second × (c ≡ begins second)
  At (fetching w second key) c =
      Named w second
      × (c ≡ begins second)
      × ((gv : GroupVersion) × (s.schema.parse v ≡ some gv) × (key ≡ s.schema.print gv))
  At (fetched w second key answer) c =
      Named w second
      × ((answer, c) ≡ s.cache.resources_for key (begins second))
      × ((gv : GroupVersion) × (s.schema.parse v ≡ some gv) × (key ≡ s.schema.print gv))
  At (computed w second r) c = Named w second × ((r, c) ≡ once s v (begins second))
  At (done w second r) c = Named w second × ((r, c) ≡ once s v (begins second))
  At (locking w) c = (w ≡ v) × Wanted × (c ≡ (once s v st).1)
  At (invalidating w) c = (w ≡ v) × Wanted × (c ≡ (once s v st).1)
  At (waiting w second) c = ⊥
  At (inner_waiting w second key) c = ⊥

  repeats :
      (second : Bool) (r : Lists) (c : s.cache.State)
      → asks_again second r.err ≡ true
      → (r, c) ≡ once s v (begins second)
      → Wanted × (c ≡ (once s v st).1)
  repeats true r c h got = cc
  repeats false r c h got = (ap (λ a. asks_again false a.0.err) (sym got) ∙ h, ap (λ a. a.1) got)

  -- A result that is taken is that of the whole lookup.
  ends :
      (second : Bool) (r : Lists) (c : s.cache.State)
      → asks_again second r.err ≡ false
      → (second ≡ true → Wanted)
      → (r, c) ≡ once s v (begins second)
      → (r, c) ≡ lookup s v st
  ends true r c h wanted got = got ∙ sym (ap (once_more s v st) (wanted refl))
  ends false r c h wanted got =
      got ∙ sym (ap (once_more s v st) (ap (λ a. asks_again false a.0.err) (sym got) ∙ h))

  module _ (g : Group) (i : ℕ) where
    abbrev Others : Sys s g → Type 0
    Others x = (j : ℕ) → (i == j) ≡ false → x.pc j ≡ idle

    -- No goroutine runs a call, since this one runs none.
    none_leads :
        (x : Sys s g) (leads : Pc → Option String) (j : ℕ)
        → Others x
        → leads idle ≡ none
        → leads (x.pc i) ≡ none
        → leads (x.pc j) ≡ none
    none_leads x leads j others no_idle no_own = elim (Bool-cases (i == j)) [
      | inl is ↦ ap (λ n. leads (x.pc n)) (sym ((==_iff i j).0 is)) ∙ no_own
      | inr not ↦ ap leads (others j not) ∙ no_idle
    ]

    -- A step of a goroutine in a lookup is a step of this one.
    mine :
        (x : Sys s g) (k : ℕ) (q : Pc)
        → Others x
        → At (x.pc i) x.cache
        → x.pc k ≡ q
        → q ≢ idle
        → ((k == i) ≡ true) × At q x.cache
    mine x k q others at e busy = elim (Bool-cases (i == k)) [
      | inl is ↦
          let same = (==_iff i k).0 is in
          ((==_iff k i).1 (sym same), subst (λ q. At q x.cache) (ap x.pc same ∙ e) at)
      | inr not ↦ absurd (busy (sym e ∙ others k not))
    ]

    own :
        (x : Sys s g) (k : ℕ) (q : Pc) (leads : Pc → Option String)
        → (k == i) ≡ true
        → x.pc k ≡ q
        → leads q ≡ none
        → leads (x.pc i) ≡ none
    own x k q leads is e no_own =
        ap (λ n. leads (x.pc n)) (sym ((==_iff k i).0 is)) ∙ ap leads e ∙ no_own

    Step-At :
        (x y : Sys s g) (stp : Step s g x y)
        → starts s g stp ≡ false
        → Inv s g x
        → Others x
        → At (x.pc i) x.cache
        → At (y.pc i) y.cache
    Step-At x y (ask k w named e) goes_on h others at = cc
    Step-At x y (lead k w second e free) goes_on h others at =
        let (is, a) = mine x k (calling w second) others at e (λ h. cc) in rw is a
    Step-At x y (join k j w second e runs) goes_on h others at =
        let (is, a) = mine x k (calling w second) others at e (λ h. cc) in
        no_key (
          sym (none_leads x outer_leads j others refl (own x k _ outer_leads is e refl))
          ∙ h.outer_calls.held (list_key w) j runs)
    Step-At x y (refuse k w second e bad) goes_on h others at =
        let (is, ((is_v, wanted), cache)) = mine x k (leading w second) others at e (λ h. cc) in
        rw is (
          (is_v, wanted),
          ap (λ c. (invalid w, c)) cache
              ∙ ap (λ u. (invalid u, begins second)) is_v
              ∙ sym (ap (λ o. asked s v o (begins second)) (ap s.schema.parse (sym is_v) ∙ bad)),
        )
    Step-At x y (inner_lead k w second gv e parsed free) goes_on h others at =
        let (is, ((is_v, wanted), cache)) = mine x k (leading w second) others at e (λ h. cc) in
        rw is ((is_v, wanted), cache, (gv, ap s.schema.parse (sym is_v) ∙ parsed, refl))
    Step-At x y (inner_join k j w second gv e parsed runs) goes_on h others at =
        let (is, a) = mine x k (leading w second) others at e (λ h. cc) in
        no_key (
          sym (none_leads x inner_leads j others refl (own x k _ inner_leads is e refl))
          ∙ h.inner_calls.held (s.schema.print gv) j runs)
    Step-At x y (fetch k w second key e) goes_on h others at =
        let (is, (named, cache, parsed)) = mine x k (fetching w second key) others at e (λ h. cc) in
        rw is (named, ap (s.cache.resources_for key) cache, parsed)
    Step-At x y (inner_return k w second key got e) goes_on h others at =
        let (is, ((is_v, wanted), answer, (gv, parsed, is_key))) =
          mine x k (fetched w second key got) others at e (λ h. cc) in
        rw is (
          (is_v, wanted),
          ap (λ u. (listed s u got, x.cache)) is_v
              ∙ ap (λ a. (listed s v a.0, a.1))
                  (answer ∙ ap (λ k. s.cache.resources_for k (begins second)) is_key)
              ∙ sym (ap (λ o. asked s v o (begins second)) parsed),
        )
    Step-At x y (return k w second r e) goes_on h others at =
        let (is, a) = mine x k (computed w second r) others at e (λ h. cc) in rw is a
    Step-At x y (take_result k w second r e last) goes_on h others at =
        let (is, a) = mine x k (done w second r) others at e (λ h. cc) in rw is tt
    Step-At x y (retry k w second r e wanted) goes_on h others at =
        let (is, ((is_v, may), got)) = mine x k (done w second r) others at e (λ h. cc) in
        let (first, cache) = repeats second r x.cache wanted got in rw is (is_v, first, cache)
    Step-At x y (lock k w e free) goes_on h others at =
        let (is, a) = mine x k (locking w) others at e (λ h. cc) in rw is a
    Step-At x y (invalidate k w e) goes_on h others at =
        let (is, (is_v, wanted, cache)) = mine x k (invalidating w) others at e (λ h. cc) in
        rw is ((is_v, λ h. wanted), ap (sf_invalidate s) cache)

    Run-At :
        (cache : s.cache.State) (x : Sys s g) (k : ℕ) (y : Sys s g)
        → Reach s g cache x
        → Others x
        → At (x.pc i) x.cache
        → Run s g x k y
        → Reach s g cache y × Others y × At (y.pc i) y.cache
    Run-At cache x k y r others at now = (r, others, at)
    Run-At cache x _ z r others at (next_step {k} {y} run stp goes_on) =
        let (r', others', at') = Run-At cache x k y r others at run in
        let c = subst (Change s g y z) goes_on (change s g stp) in
        (
          later r' stp,
          (λ j not. Change-idle s g y z c j (others' j not)),
          Step-At y z stp goes_on (Reach-Inv s g cache y r') others' at',
        )

module _ (s : Services) (g : Group) where
  -- For a wrapped client whose cache is as the system's: when a goroutine begins a lookup of an
  -- apiVersion that is not empty while no other is in one, and no other lookup starts, then the
  -- result that it takes and the cache that it leaves are those of `APIResourceList` as one function.
  pub api_resource_list-alone :
      (cache : s.cache.State) (x y : Sys s g) (i k p : ℕ) (v : String) (c : Client s)
      (second : Bool) (r : Lists)
      → Reach s g cache x
      → x.pc i ≡ calling v false
      → ((j : ℕ) → (i == j) ≡ false → x.pc j ≡ idle)
      → v ≢ ""
      → IsWrapped s p c
      → cache_of s p c ≡ x.cache
      → Run s g x k y
      → y.pc i ≡ done v second r
      → asks_again second r.err ≡ false
      → (r ≡ (api_resource_list s v c).0) × (y.cache ≡ cache_of s p (api_resource_list s v c).1)
  api_resource_list-alone cache x y i k p v c second r reached begun others named h same run ended
        taken =
      let does = api_resource_list-Does s v p c named h in
      let at0 = subst (λ q. At s v x.cache q x.cache) (sym begun) ((refl, λ h. cc), refl) in
      let (r', others', at) = Run-At s v x.cache g i cache x k y reached others at0 run in
      let ((is_v, wanted), got) = subst (λ q. At s v x.cache q y.cache) ended at in
      let result =
        ends s v x.cache second r y.cache taken wanted got ∙ ap (lookup s v) (sym same) in
      (ap (λ a. a.0) result ∙ sym does.same_result, ap (λ a. a.1) result ∙ sym does.same_cache)
