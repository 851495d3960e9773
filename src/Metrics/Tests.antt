-- ===== src/Metrics/Tests.antt =====
-- A registry that keeps its names and samples, runs of the metrics against it, and the theorems at
-- them.
use mathlib.Core.List.{Memᴰ}
use mathlib.Core.List.Perm
use kube_client.Prelude.{
  ℕ, String, Bool, true, false, Option, none, some, List, [], ◌∷◌, ◌++◌, ◌≡◌, refl, sym, ap,
  if◌then◌else◌, Text, codes, Entries, put_key, Bool-cases, inl, inr, some_inj,
}
use kube_client.Api.Fold.{text_eq, text_eq_iff}
use kube_client.Metrics.{
  Amounts, put_all, merge_labels, result_labels, increment, observe,
  register_kubernetes_client_metrics, replace_prefix, replace_on, starts_with, placeholder,
  request_result_total,
}
use kube_client.Metrics.Names.{replace_prefix-placeholder}
use kube_client.Metrics.Storage.{
  Prometheus, new_default_metric_storage, vec_of, register_counter, register_histogram, counter_add,
  histogram_observe, label_keys,
}
use kube_client.Metrics.Emitted.{
  Store, storage, increment_each, sample_each, increment_each-registered, observe-registered,
}
use kube_client.Metrics.Clash.{register-clashes}

abbrev millis : Amounts
millis = record { Amount = ℕ; of_millis = λ n. n; seconds = λ n. n }

abbrev Vector : Type 0
Vector = Text × List String

abbrev Page : Type 0
Page = List Text × List (Text × Entries String × ℕ)

abbrev is_taken : Text → List Text → Bool
is_taken name [] = false
is_taken name (n ∷ ns) = if text_eq n name then true else is_taken name ns

is_taken-Mem : (name : Text) (ns : List Text) → Memᴰ name ns → is_taken name ns ≡ true
is_taken-Mem name [] h = elim h [ ]
is_taken-Mem name (n ∷ ns) (Memᴰ.head e) = rw ((text_eq_iff n name).1 (sym e)) refl
is_taken-Mem name (n ∷ ns) (Memᴰ.tail later) = elim (Bool-cases (text_eq n name)) [
  | inl same ↦ rw same refl
  | inr other ↦ rw other (is_taken-Mem name ns later)
]

abbrev enter : Bool → Text → List String → Page → Option (Vector × Page)
enter true name labels page = none
enter false name labels (names, samples) = some ((name, labels), (name ∷ names, samples))

enter_lem :
    (b : Bool) (name : Text) (labels : List String) (page : Page) (v : Vector) (page' : Page)
    → enter b name labels page ≡ some (v, page')
    → (page'.0 ≡ name ∷ page.0) × (v.1 ≡ labels)
enter_lem true name labels page v page' e = cc
enter_lem false name labels page v page' e =
    (ap (λ x. x.1.0) (sym (some_inj e)), ap (λ x. x.0.1) (sym (some_inj e)))

abbrev page_registry : Prometheus millis
page_registry = record {
  Registry = Page;
  Vec = Vector;
  names = λ page. page.0;
  label_names = λ v. v.1;
  register = λ buckets name labels page. enter (is_taken name page.0) name labels page;
  sample = λ v labels x page. some (page.0, (v.0, labels, x) ∷ page.1);
  register-names = λ buckets name labels page. enter_lem (is_taken name page.0) name labels page;
  register-twice = λ buckets name labels page here.
      ap (λ b. enter b name labels page) (is_taken-Mem name page.0 here);
  sample-taken = λ v labels x page h. ((page.0, (v.0, labels, x) ∷ page.1), refl);
}

abbrev as_listed : List String → List String
as_listed ks = ks

abbrev operator : Entries String
operator = ("operator", "addon") ∷ []

-- Opens what a run of the metrics computes with.
metrics_run : Unit {0}
unfolding put_key put_all merge_labels result_labels increment observe text_eq replace_prefix
    replace_on starts_with register_kubernetes_client_metrics new_default_metric_storage vec_of
    register_counter register_histogram counter_add histogram_observe label_keys
metrics_run = tt

abbrev prefix : Text
prefix = codes "kube_client_"

abbrev latency : Text
latency = codes "kube_client_kubernetes_client_request_latency_seconds"

abbrev result : Text
result = codes "kube_client_kubernetes_client_request_result_total"

abbrev result_vec : Vector
result_vec = (result, "operator" ∷ "code" ∷ "method" ∷ "host" ∷ [])

abbrev after_init : Store millis page_registry as_listed
after_init = record {
  counters = (result, result_vec) ∷ [];
  histograms = (latency, (latency, "operator" ∷ "verb" ∷ "url" ∷ [])) ∷ [];
  registry = (result ∷ latency ∷ [], []);
}

init_registers :
    register_kubernetes_client_metrics millis
      (storage millis page_registry as_listed)
      operator
      prefix
      (new_default_metric_storage millis page_registry as_listed ([], []))
    ≡ some after_init
unfolding metrics_run
init_registers = refl

increment_each-registered_example :
    (v : Vector) × (vec_of (replace_prefix request_result_total prefix) after_init.counters
      ≡ some v)
    × ((reg' : Page) × (sample_each millis page_registry as_listed operator v
            (("200", "GET", "api") ∷ [])
            (result ∷ latency ∷ [], [])
          ≡ some reg')
        × (increment_each millis page_registry as_listed operator prefix
              (("200", "GET", "api") ∷ [])
              after_init
            ≡ some (record after_init { registry = reg' })))
unfolding metrics_run
increment_each-registered_example =
    increment_each-registered millis page_registry as_listed (λ ks. Perm.refl ks) operator prefix
      ([], []) after_init (("200", "GET", "api") ∷ []) init_registers

observe-registered_example :
    observe millis
      (storage millis page_registry as_listed)
      prefix
      "GET"
      "https://api/pods"
      5
      after_init
    ≡ some after_init
unfolding metrics_run
observe-registered_example =
    observe-registered millis page_registry as_listed operator prefix ([], []) after_init "GET"
      "https://api/pods" 5 init_registers

register-clashes_example :
    register_kubernetes_client_metrics millis
      (storage millis page_registry as_listed)
      []
      prefix
      (new_default_metric_storage millis page_registry as_listed (result ∷ latency ∷ [], []))
    ≡ none
unfolding metrics_run
register-clashes_example =
    register-clashes millis page_registry as_listed operator [] prefix ([], []) after_init
      init_registers

replace_prefix-placeholder_example :
    (replace_prefix (placeholder ++ codes "requests") (codes "my_") ≡ codes "my_requests")
    × (replace_prefix (codes "requests") (codes "my_") ≡ codes "requests")
unfolding metrics_run
replace_prefix-placeholder_example =
    replace_prefix-placeholder (codes "requests") (codes "my_") refl
