-- ===== src/Client/Flights/Safety.antt =====
-- client/client.go: which calls of `APIResourceList` exclude each other.
use kube_client.Prelude.{ℕ, String, true, some, ◌≡◌, ◌⊎◌, sym, ◌∙◌, inl, inr, some_inj}
use kube_client.Client.Backend.{Services}
use kube_client.Client.Flights.{Group, list_key, Sys, Reach}
use kube_client.Client.Flights.Lock.{locks, Locked}
use kube_client.Client.Flights.Views.{outer_leads, outer_waits, inner_leads, inner_waits}
use kube_client.Client.Flights.Tables.{Held}
use kube_client.Client.Flights.Invariant.{Reach-Inv}

module _ (s : Services) (g : Group) where
  -- In every state that is reached: two goroutines in the cache's call for one group version are the
  -- same, also if they were asked with different apiVersions; so are two that run the function of
  -- `apiResourceList` for one apiVersion, and two in the cache's `Invalidate`.
  pub calls_alone :
      (cache : s.cache.State) (x : Sys s g) (i j : ℕ) (gv v : String)
      → Reach s g cache x
      → ((inner_leads (x.pc i) ≡ some gv) × (inner_leads (x.pc j) ≡ some gv))
        ⊎ (((outer_leads (x.pc i) ≡ some (list_key v)) × (outer_leads (x.pc j) ≡ some (list_key v)))
            ⊎ ((locks (x.pc i) ≡ true) × (locks (x.pc j) ≡ true)))
      → i ≡ j
  calls_alone cache x i j gv v r both = elim both [
    | inl (in_i, in_j) ↦ some_inj (sym (inner.led gv i in_i) ∙ inner.led gv j in_j)
    | inr (inl (in_i, in_j)) ↦
        some_inj (sym (outer.led (list_key v) i in_i) ∙ outer.led (list_key v) j in_j)
    | inr (inr (in_i, in_j)) ↦ some_inj (sym (mutex.owned i in_i) ∙ mutex.owned j in_j)
  ]
    where
      inner : Held g inner_leads inner_waits x.inner x.pc
      inner = (Reach-Inv s g cache x r).inner_calls

      outer : Held g outer_leads outer_waits x.outer x.pc
      outer = (Reach-Inv s g cache x r).outer_calls

      mutex : Locked x.mu x.pc
      mutex = (Reach-Inv s g cache x r).mutex
