-- ===== src/Metrics/Emitted.antt =====
-- The default storage after registration: which samples it takes, and which it drops.
use mathlib.Core.List.{Perm}
use kube_client.Prelude.{
  ℕ, String, true, Option, none, some, List, [], ◌∷◌, ◌≡◌, refl, sym, ap, ◌∙◌, subst, Text, Entries,
  Option-cases, inl, inr, some_inj,
}
use kube_client.Api.Fold.{text_eq, text_eq_iff}
use kube_client.Metrics.{
  Amounts, MetricStorage, merge_labels, result_labels, increment, observe,
  register_kubernetes_client_metrics, replace_prefix, request_result_total, request_latency_seconds,
  request_buckets,
}
use kube_client.Metrics.Names.{latency_names_differ}
use kube_client.Metrics.Storage.{
  Prometheus, DefaultMetricStorage, default_metric_storage, new_default_metric_storage, vec_of,
  register_counter, register_histogram, counter_add, histogram_observe, label_keys,
}
use kube_client.Metrics.Labels.{keys, result_keys, keys-result_labels}

abbrev pub and_then {ℓ} : {S : Type ℓ} → Option S → (S → Option S) → Option S
and_then none later = none
and_then (some s) later = later s

-- Samples one after the other.
abbrev pub each {ℓ} : {A S : Type ℓ} → (A → S → Option S) → List A → S → Option S
each step [] s = some s
each step (a ∷ rest) s = and_then (step a s) (each step rest)

module _ (m : Amounts) (p : Prometheus m) (range : List String → List String) where
  abbrev pub Store : Type 0
  Store = DefaultMetricStorage m p range

  abbrev pub storage : MetricStorage m
  storage = default_metric_storage m p range

  abbrev pub latency_labels : Entries String → List String
  latency_labels extra = label_keys m p range (merge_labels extra ("verb" ∷ "url" ∷ []))

  abbrev pub counter_labels : Entries String → List String
  counter_labels extra = label_keys m p range (merge_labels extra result_keys)

  -- What a registration into a new storage leaves behind.
  abbrev pub IsRegistered : Entries String → Text → p.Registry → Store → Type 0
  IsRegistered extra prefix reg st =
      (h : p.Vec) × (reg1 : p.Registry) × (c : p.Vec) × (reg2 : p.Registry) × (p.register
          (some (request_buckets m)) (replace_prefix request_latency_seconds prefix)
          (latency_labels extra) reg
        ≡ some (h, reg1))
      × (p.register none (replace_prefix request_result_total prefix) (counter_labels extra) reg1
          ≡ some (c, reg2))
      × (record {
        counters = (replace_prefix request_result_total prefix, c) ∷ [];
        histograms = (replace_prefix request_latency_seconds prefix, h) ∷ [];
        registry = reg2;
      }
          ≡ st)

  pub registered :
      (extra : Entries String) (prefix : Text) (reg : p.Registry) (st : Store)
      → register_kubernetes_client_metrics m storage extra prefix
          (new_default_metric_storage m p range reg)
        ≡ some st
      → IsRegistered extra prefix reg st
  unfolding register_kubernetes_client_metrics new_default_metric_storage register_histogram
      register_counter vec_of label_keys
  registered extra prefix reg st e =
      elim (Option-cases (
        p.register (some (request_buckets m)) (replace_prefix request_latency_seconds prefix)
          (latency_labels extra) reg)) [
            | inl panic ↦ cc (rw panic at e)
            | inr ((h, reg1), first) ↦
                elim (Option-cases (
                  p.register none (replace_prefix request_result_total prefix)
                    (counter_labels extra) reg1)) [
                      | inl panic ↦ cc (rw (first, panic) at e)
                      | inr ((c, reg2), second) ↦
                          (h, reg1, c, reg2, first, second, some_inj (rw (first, second) at e))
                    ]
          ]

  text_eq_refl : (s : Text) → text_eq s s ≡ true
  text_eq_refl s = (text_eq_iff s s).1 refl

  -- After a registration in a new default storage that does not panic, a latency that the client
  -- observes is dropped: nothing changes, in the storage or in the registry.
  pub observe-registered :
      (extra : Entries String) (prefix : Text) (reg : p.Registry) (st : Store) (verb url : String)
      (latency : ℕ)
      → register_kubernetes_client_metrics m storage extra prefix
          (new_default_metric_storage m p range reg)
        ≡ some st
      → observe m storage prefix verb url latency st ≡ some st
  unfolding observe histogram_observe vec_of
  observe-registered extra prefix reg st verb url latency e =
      let (h, reg1, c, reg2, first, second, same) = registered extra prefix reg st e in
      subst (λ st. observe m storage prefix verb url latency st ≡ some st) same
        (rw (latency_names_differ prefix) refl)

  abbrev increment_one : Entries String → Text → String × String × String → Store → Option Store
  increment_one extra prefix (code, method, host) st =
      increment m storage extra prefix code method host st

  abbrev pub increment_each :
      Entries String → Text → List (String × String × String) → Store → Option Store
  increment_each extra prefix = each (increment_one extra prefix)

  -- The samples that the results should give.
  abbrev pub sample_one :
      Entries String → p.Vec → String × String × String → p.Registry → Option p.Registry
  sample_one extra v (code, method, host) reg =
      p.sample v (result_labels extra code method host) (m.of_millis 1000) reg

  abbrev pub sample_each :
      Entries String → p.Vec → List (String × String × String) → p.Registry → Option p.Registry
  sample_each extra v = each (sample_one extra v)

  module _ (range_perm : (ks : List String) → Perm (range ks) ks) where
    -- The counter of the results is registered with the labels of its samples.
    abbrev HasResultCounter : Entries String → Text → Store → Type 0
    HasResultCounter extra prefix st =
        (v : p.Vec) × (vec_of (replace_prefix request_result_total prefix) st.counters ≡ some v)
        × Perm (p.label_names v) (keys (merge_labels extra result_keys))

    IsRegistered-HasResultCounter :
        (extra : Entries String) (prefix : Text) (reg : p.Registry) (st : Store)
        → IsRegistered extra prefix reg st
        → HasResultCounter extra prefix st
    unfolding vec_of label_keys
    IsRegistered-HasResultCounter extra prefix reg st (h, reg1, c, reg2, first, second, same) =
        subst (HasResultCounter extra prefix) same (
          c,
          rw (text_eq_refl (replace_prefix request_result_total prefix)) refl,
          subst (λ ls. Perm ls (keys (merge_labels extra result_keys)))
              (sym (p.register-names none _ (counter_labels extra) reg1 c reg2 second).1)
              (range_perm (keys (merge_labels extra result_keys))),
        )

    HasResultCounter-increment :
        (extra : Entries String) (prefix : Text) (results : List (String × String × String))
        (v : p.Vec) (st : Store)
        → vec_of (replace_prefix request_result_total prefix) st.counters ≡ some v
        → Perm (p.label_names v) (keys (merge_labels extra result_keys))
        → (reg' : p.Registry) × (sample_each extra v results st.registry ≡ some reg')
          × (increment_each extra prefix results st ≡ some (record st { registry = reg' }))
    unfolding increment counter_add
    HasResultCounter-increment extra prefix [] v st here labels = (st.registry, refl, refl)
    HasResultCounter-increment extra prefix ((code, method, host) ∷ results) v st here labels =
        let (reg, taken) =
          p.sample-taken v (result_labels extra code method host) (m.of_millis 1000) st.registry (
            subst (Perm (p.label_names v)) (sym (keys-result_labels extra code method host))
              labels) in
        let (reg', rest, counted) =
          HasResultCounter-increment extra prefix results v (record st { registry = reg }) here
            labels in
        (
          reg',
          ap (λ o. and_then o (sample_each extra v results)) taken ∙ rest,
          rw (here, taken) counted,
        )

    -- After a registration in a new default storage that does not panic, where Go's range takes each
    -- key once, no result makes `Increment` panic: each adds 1 to the registered counter under the
    -- labels of the result, and changes nothing else.
    pub increment_each-registered :
        (extra : Entries String) (prefix : Text) (reg : p.Registry) (st : Store)
        (results : List (String × String × String))
        → register_kubernetes_client_metrics m storage extra prefix
            (new_default_metric_storage m p range reg)
          ≡ some st
        → (v : p.Vec) × (vec_of (replace_prefix request_result_total prefix) st.counters ≡ some v)
          × ((reg' : p.Registry) × (sample_each extra v results st.registry ≡ some reg')
              × (increment_each extra prefix results st ≡ some (record st { registry = reg' })))
    increment_each-registered extra prefix reg st results e =
        let (v, here, labels) =
          IsRegistered-HasResultCounter extra prefix reg st (registered extra prefix reg st e) in
        (v, here, HasResultCounter-increment extra prefix results v st here labels)
