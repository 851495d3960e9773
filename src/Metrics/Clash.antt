-- ===== src/Metrics/Clash.antt =====
-- Two clients with default storages in one process.
use mathlib.Core.List.{Memᴰ}
use kube_client.Prelude.{String, none, some, List, ◌≡◌, refl, sym, subst, Text, Entries}
use kube_client.Metrics.{
  Amounts, register_kubernetes_client_metrics, replace_prefix, request_latency_seconds,
  request_buckets,
}
use kube_client.Metrics.Storage.{
  Prometheus, DefaultMetricStorage, new_default_metric_storage, register_histogram, vec_of,
  label_keys,
}
use kube_client.Metrics.Emitted.{storage, registered, latency_labels}

module _ (m : Amounts) (p : Prometheus m) (range : List String → List String) where
  -- Once a client has registered its metrics in a default storage, the registration of another
  -- client with a new default storage over the same registry and the same prefix panics, whatever the extra labels.
  pub register-clashes :
      (extra extra' : Entries String) (prefix : Text) (reg : p.Registry)
      (st : DefaultMetricStorage m p range)
      → register_kubernetes_client_metrics m
          (storage m p range)
          extra
          prefix
          (new_default_metric_storage m p range reg)
        ≡ some st
      → register_kubernetes_client_metrics m
          (storage m p range)
          extra'
          prefix
          (new_default_metric_storage m p range st.registry)
        ≡ none
  unfolding register_kubernetes_client_metrics new_default_metric_storage register_histogram vec_of
      label_keys
  register-clashes extra extra' prefix reg st e =
      let (h, reg1, c, reg2, first, second, same) = registered m p range extra prefix reg st e in
      let name = replace_prefix request_latency_seconds prefix in
      let there : Memᴰ name (p.names reg2) =
        subst (Memᴰ name) (sym (p.register-names none _ _ reg1 c reg2 second).0) (
          Memᴰ.tail (
            subst (Memᴰ name) (sym (p.register-names _ name _ reg h reg1 first).0)
              (Memᴰ.head refl))) in
      rw
        (p.register-twice (some (request_buckets m)) name (latency_labels m p range extra')
          st.registry (subst (λ st. Memᴰ name (p.names st.registry)) same there))
        refl
