-- ===== src/Lib.antt =====
-- kube-client: a Go client for the Kubernetes API, with a fake cluster for tests.
--
-- The program's parts, and the files that model them:
--
-- * manifest/manifest.go, a Kubernetes object as a nested map: Manifest.antt has the map as data
--   (`Value`, `Fields`), the constructors `New`, `NewFromYAML`, `MustFromYAML`, the accessors and
--   `SetNamespace`. Manifest/Laws.antt relates them.
-- * manifest/releaseutil/manifest.go and manifest/manifest_list.go, a stream of YAML documents:
--   Manifest/Split.antt has the regular expression `sep`, `Split`, `TrimSpace` and
--   `SplitManifests` on code points; Manifest/Order.antt has
--   `BySplitManifestsOrder` on bytes; Manifest/Docs.antt has `ListFromYamlDocs`.
-- * fake/resources.go and fake/v116_resources.go to fake/v136_resources.go, the resources of each
--   Kubernetes version: Fake/Resources.antt has the versions and the switch, Fake/Resources/V116.antt
--   to V136.antt the tables entry by entry, Fake/Tables.antt the shapes that they share.
-- * fake/cluster.go, a fake cluster: Fake/Cluster.antt has its state (the shared tables apart, as
--   `World`), `NewFakeCluster`, `RegisterCRD`, the lookups and the calls on objects. The modules
--   below it carry the invariant of discovery and dynamic client through them.
-- * client/client.go, discovery: Client/Discovery.antt has the wrapper `sfCachedDiscovery` and the
--   search of `getApiResourceFromResourceLists`; Client/Lookup.antt has `APIResourceList`,
--   `APIResource`, `GroupVersionResource` and the invalidation of the cache. A cached discovery
--   object is a number, and the client keeps the state of each.
--   Client/Flights.antt has `APIResourceList` of one apiVersion once more, as steps of goroutines
--   that interleave: the calls in flight of `discoverySF` and of the wrapper's `sf`, the mutex of
--   `Invalidate`, and where each goroutine stands. Client/Flights/Once.antt has the same call of one
--   goroutine as calls on the cache.
-- * client/client.go, `Init`: Client/Config.antt has the choice of a configuration, what `Init`
--   writes into it, and the order in which it makes clients and the discovery cache.
-- * internal/metrics, client/metrics.go and client/default_metric_storage.go, metrics:
--   Metrics.antt has the names, labels and backends over any `MetricStorage`, and
--   Metrics/Storage.antt the default storage over a Prometheus registry.
-- * klogtolog/adapter.go, the writer behind klog: Klog.antt has the regular expression as matchers
--   that backtrack, and `Write` on the log as a list of entries, with the ways in which it ends:
--   `Fatal` of the logger ends the process once it has logged.
--
-- The fake cluster parses group versions and builds manifests by Manifest.antt. The client and the
-- fake cluster share the API types of Api.antt and the case-insensitive comparisons of
-- Api/Fold.antt. Metrics uses its storage through the record `MetricStorage`, which the default
-- storage fills. Prelude.antt passes library names on and has Boolean tests, maps as lists of
-- entries, and results with an error. Samples.antt and the Tests modules hold concrete values for
-- every parameter.
--
-- Code that is not in the repository is a parameter, with what the code relies on as fields or
-- hypotheses: `Schema` (apimachinery's group versions), `Machinery` (the fake clientset, the dynamic
-- client, the guess of a plural), `Services` and `Backend` (client-go's discovery clients and
-- helpers, singleflight), `Group` (the calls in flight of a singleflight group), `Environment`
-- (clientcmd, client-go and the file system), `Prometheus` (its registry), `Unicode` (the tables
-- behind ToLower and EqualFold), the YAML decoder, and the order in which Go's range takes the
-- entries of a map.
--
-- Fuel: `split_on` runs on one more than the length of the text, since a match of `sep` is not
-- empty; `digits_on` runs on one more than the number, which has no more digits than that. Every
-- other loop is structural. Counts and indices stay far below 2^63, so they are native naturals.
--
-- Not modelled: the logger, `InitAdapter`, the options that set one field of a client, what the
-- clients do that `Init` makes from its configuration, a panic of `Init` in the metrics, and the
-- shell script that writes the resource tables. Goroutines interleave in `APIResourceList` for one
-- apiVersion alone; every other operation runs by itself, so mutexes are free there. A call of the
-- wrapped cache is one step. A panic is `none`, or an outcome of `Write`.
pub mod Prelude
pub mod Api
pub mod Manifest
pub mod Fake
pub mod Client
pub mod Metrics
pub mod Klog
mod Samples
