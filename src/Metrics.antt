-- ===== src/Metrics.antt =====
-- internal/metrics/metrics.go, internal/metrics/labels.go, client/metrics.go: the names and labels of
-- the client's metrics, their registration, and the two backends for client-go.
pub mod Names
pub mod Storage
pub mod Labels
pub mod Emitted
pub mod Clash
mod Tests
use kube_client.Prelude.{
  ℕ, zero, suc, ◌-◌, String, Bool, true, false, Option, none, some, List, [], ◌∷◌, ◌++◌, map, ◌==◌,
  if◌then◌else◌, Text, codes, length, Entries, put_key,
}

-- A `float64` of a sample, by the conversions that the code uses.
pub record Amounts : Type 1 where
  pub Amount : Type 0
  pub of_millis : ℕ → Amount
  -- `Duration.Seconds`, of nanoseconds
  pub seconds : ℕ → Amount

-- `MetricStorage`. `none` is a panic. The state is the storage and what it writes to; `Counter` and
-- `Histogram` are what the registrations return.
pub record MetricStorage (m : Amounts) : Type 1 where
  pub State : Type 0
  pub Counter : Type 0
  pub Histogram : Type 0
  pub register_counter : Text → Entries String → State → Option (Counter × State)
  pub counter_add : Text → m.Amount → Entries String → State → Option State
  pub register_histogram :
      Text → Entries String → List m.Amount → State → Option (Histogram × State)
  pub histogram_observe : Text → m.Amount → Entries String → List m.Amount → State → Option State

abbrev pub label_verb : String
label_verb = "verb"

abbrev pub label_url : String
label_url = "url"

abbrev pub label_code : String
label_code = "code"

abbrev pub label_method : String
label_method = "method"

abbrev pub label_host : String
label_host = "host"

abbrev pub placeholder : Text
placeholder = codes "{PREFIX}"

abbrev pub request_latency_seconds : Text
request_latency_seconds = codes "{PREFIX}kubernetes_client_request_latency_seconds"

abbrev pub request_result_total : Text
request_result_total = codes "{PREFIX}kubernetes_client_request_result_total"

abbrev pub rate_limiter_latency_seconds : Text
rate_limiter_latency_seconds = codes "{PREFIX}kubernetes_client_rate_limiter_latency_seconds"

unfoldable pub starts_with : Text → Text → Bool
starts_with [] s = true
starts_with (o ∷ old) [] = false
starts_with (o ∷ old) (c ∷ s) = if o == c then starts_with old s else false

-- `strings.ReplaceAll` of the placeholder. The number is how much of a match is still to be passed
-- over.
unfoldable pub replace_on : Text → ℕ → Text → Text
unfolding starts_with
replace_on prefix skip [] = []
replace_on prefix (suc skip) (c ∷ s) = replace_on prefix skip s
replace_on prefix zero (c ∷ s) = elim (starts_with placeholder (c ∷ s)) [
  | true ↦ prefix ++ replace_on prefix (length placeholder - 1) s
  | false ↦ c ∷ replace_on prefix zero s
]

-- `ReplacePrefix`
unfoldable pub replace_prefix : Text → Text → Text
unfolding replace_on
replace_prefix metric_name prefix = replace_on prefix zero metric_name

-- `labels[k] = v` for the entries of a map. The order of Go's range does not change the map.
unfoldable pub put_all : Entries String → Entries String → Entries String
put_all [] out = out
put_all (e ∷ es) out = put_all es (put_key out e.0 e.1)

abbrev pub emptied : Entries String → Entries String
emptied extra = map (λ e. (e.0, "")) extra

abbrev pub zero_labels : List String → Entries String
zero_labels keys = map (λ k. (k, "")) keys

-- `mergeLabels`: its two loops write empty values.
unfoldable pub merge_labels : Entries String → List String → Entries String
unfolding put_all
merge_labels extra keys = put_all (zero_labels keys) (put_all (emptied extra) [])

-- The labels of `Increment`.
unfoldable pub result_labels : Entries String → String → String → String → Entries String
unfolding put_all
result_labels extra code method host =
    put_key (put_key (put_key (put_all extra []) label_code code) label_method method) label_host
      host

module _ (m : Amounts) where
  abbrev pub request_buckets : List m.Amount
  request_buckets = map m.of_millis (
      0 ∷ 1 ∷ 2 ∷ 5 ∷ 10 ∷ 20 ∷ 50 ∷ 100 ∷ 200 ∷ 500 ∷ 1000 ∷ 2000 ∷ 5000 ∷ 10000 ∷ 20000 ∷ 50000
      ∷ [])

  module _ (storage : MetricStorage m) where
    abbrev then_counter :
        Entries String
        → Text
        → Option (storage.Histogram × storage.State)
        → Option (storage.Counter × storage.State)
    then_counter extra prefix none = none
    then_counter extra prefix (some (h, st)) =
        storage.register_counter (replace_prefix request_result_total prefix)
          (merge_labels extra (label_code ∷ label_method ∷ label_host ∷ [])) st

    abbrev state_of : Option (storage.Counter × storage.State) → Option storage.State
    state_of none = none
    state_of (some (c, st)) = some st

    -- `RegisterKubernetesClientMetrics`; it drops what the registrations return
    unfoldable pub register_kubernetes_client_metrics :
        Entries String → Text → storage.State → Option storage.State
    unfolding replace_prefix merge_labels
    register_kubernetes_client_metrics extra prefix st = state_of (
        then_counter extra prefix (
          storage.register_histogram (replace_prefix request_latency_seconds prefix)
            (merge_labels extra (label_verb ∷ label_url ∷ [])) request_buckets st))

    -- `NewRateLimiterLatency` and `Observe` of what it returns
    unfoldable pub observe : Text → String → String → ℕ → storage.State → Option storage.State
    unfolding replace_prefix
    observe prefix verb url latency st =
        storage.histogram_observe (replace_prefix rate_limiter_latency_seconds prefix)
          (m.seconds latency) ((label_verb, verb) ∷ (label_url, url) ∷ []) [] st

    -- `NewRequestResult` and `Increment` of what it returns
    unfoldable pub increment :
        Entries String → Text → String → String → String → storage.State → Option storage.State
    unfolding replace_prefix result_labels
    increment extra prefix code method host st =
        storage.counter_add (replace_prefix request_result_total prefix) (m.of_millis 1000)
          (result_labels extra code method host) st
