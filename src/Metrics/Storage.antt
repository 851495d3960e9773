-- ===== src/Metrics/Storage.antt =====
-- client/default_metric_storage.go: the default storage, over a Prometheus registry.
use mathlib.Core.List.{Memᴰ, Perm}
use kube_client.Prelude.{
  String, Option, none, some, List, [], ◌∷◌, map, if◌then◌else◌, ◌≡◌, Text, Entries,
}
use kube_client.Api.Fold.{text_eq}
use kube_client.Metrics.{Amounts, MetricStorage}

-- `NewCounterVec` or `NewHistogramVec` with `MustRegister`, and `With(labels).Add` or `.Observe`,
-- each `none` where it panics. Registration panics on a name that is registered; a sample with the
-- labels that the vector was made with, in any order, is taken.
pub record Prometheus (m : Amounts) : Type 1 where
  pub Registry : Type 0
  pub Vec : Type 0
  pub names : Registry → List Text
  pub label_names : Vec → List String
  -- the buckets of a histogram; a counter has none
  pub register : Option (List m.Amount) → Text → List String → Registry → Option (Vec × Registry)
  pub sample : Vec → Entries String → m.Amount → Registry → Option Registry
  pub register-names :
      (buckets : Option (List m.Amount)) (name : Text) (labels : List String) (reg : Registry)
      (v : Vec) (reg' : Registry)
      → register buckets name labels reg ≡ some (v, reg')
      → (names reg' ≡ name ∷ names reg) × (label_names v ≡ labels)
  pub register-twice :
      (buckets : Option (List m.Amount)) (name : Text) (labels : List String) (reg : Registry)
      → Memᴰ name (names reg)
      → register buckets name labels reg ≡ none
  pub sample-taken :
      (v : Vec) (labels : Entries String) (x : m.Amount) (reg : Registry)
      → Perm (label_names v) (map (λ e. e.0) labels)
      → (reg' : Registry) × (sample v labels x reg ≡ some reg')

-- A map from metric names to vectors, and a write to it.
unfoldable pub vec_of : {V : Type 0} → Text → List (Text × V) → Option V
vec_of metric [] = none
vec_of metric ((name, v) ∷ vecs) = if text_eq name metric then some v else vec_of metric vecs

module _ (m : Amounts) (p : Prometheus m) (range : List String → List String) where
  pub record DefaultMetricStorage : Type 0 where
    pub counters : List (Text × p.Vec)
    pub histograms : List (Text × p.Vec)
    pub registry : p.Registry

  -- `newDefaultMetricStorage`, beside the registry of the process
  unfoldable pub new_default_metric_storage : p.Registry → DefaultMetricStorage
  new_default_metric_storage reg = record { counters = []; histograms = []; registry = reg }

  -- `labelKeys`: the keys in the order in which Go's range takes them.
  unfoldable pub label_keys : Entries String → List String
  label_keys labels = range (map (λ e. e.0) labels)

  abbrev kept_counter :
      Text
      → DefaultMetricStorage
      → Option (p.Vec × p.Registry)
      → Option (p.Vec × DefaultMetricStorage)
  kept_counter metric s none = none
  kept_counter metric s (some (v, reg)) =
      some (v, record s { counters = (metric, v) ∷ s.counters; registry = reg })

  -- `RegisterCounter`; the write adds an entry, since the metric was not there.
  unfoldable pub register_counter :
      Text → Entries String → DefaultMetricStorage → Option (p.Vec × DefaultMetricStorage)
  unfolding vec_of label_keys
  register_counter metric labels s = elim (vec_of metric s.counters) [
    | some v ↦ some (v, s)
    | none ↦ kept_counter metric s (p.register none metric (label_keys labels) s.registry)
  ]

  abbrev kept_histogram :
      Text
      → DefaultMetricStorage
      → Option (p.Vec × p.Registry)
      → Option (p.Vec × DefaultMetricStorage)
  kept_histogram metric s none = none
  kept_histogram metric s (some (v, reg)) =
      some (v, record s { histograms = (metric, v) ∷ s.histograms; registry = reg })

  -- `RegisterHistogram`.
  unfoldable pub register_histogram :
      Text
      → Entries String
      → List m.Amount
      → DefaultMetricStorage
      → Option (p.Vec × DefaultMetricStorage)
  unfolding vec_of label_keys
  register_histogram metric labels buckets s = elim (vec_of metric s.histograms) [
    | some v ↦ some (v, s)
    | none ↦
        kept_histogram metric s (p.register (some buckets) metric (label_keys labels) s.registry)
  ]

  abbrev sampled : DefaultMetricStorage → Option p.Registry → Option DefaultMetricStorage
  sampled s none = none
  sampled s (some reg) = some (record s { registry = reg })

  abbrev add_to :
      Option p.Vec → Entries String → m.Amount → DefaultMetricStorage → Option DefaultMetricStorage
  add_to none labels value s = some s
  add_to (some v) labels value s = sampled s (p.sample v labels value s.registry)

  -- `CounterAdd` and `HistogramObserve`
  unfoldable pub counter_add :
      Text → m.Amount → Entries String → DefaultMetricStorage → Option DefaultMetricStorage
  unfolding vec_of
  counter_add metric value labels s = add_to (vec_of metric s.counters) labels value s

  unfoldable pub histogram_observe :
      Text
      → m.Amount
      → Entries String
      → List m.Amount
      → DefaultMetricStorage
      → Option DefaultMetricStorage
  unfolding vec_of
  histogram_observe metric value labels buckets s =
      add_to (vec_of metric s.histograms) labels value s

  -- The default storage as the metric storage that the client takes.
  abbrev pub default_metric_storage : MetricStorage m
  default_metric_storage = record {
    State = DefaultMetricStorage;
    Counter = p.Vec;
    Histogram = p.Vec;
    register_counter = register_counter;
    counter_add = counter_add;
    register_histogram = register_histogram;
    histogram_observe = histogram_observe;
  }
