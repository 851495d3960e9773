-- ===== src/Client/Flights.antt =====
-- client/client.go: the lookups of several goroutines, interleaved. Each asks for the list of one
-- apiVersion from a client whose cached discovery is wrapped, through `discoverySF` and through the
-- `sf` of the wrapper.
pub mod Tables
pub mod Lock
pub mod Views
pub mod Invariant
pub mod Weight
pub mod Steps
pub mod Safety
pub mod Progress
pub mod Bound
pub mod Once
pub mod Alone
pub mod Stale
mod Tests
use Prim.Native.String.{◌++◌ as ◌<>◌}
use kube_client.Prelude.{
  ℕ, String, Bool, true, false, Option, none, some, [], ◌≡◌, ◌≢◌, ◌==◌, str_eq, if◌then◌else◌,
}
use kube_client.Api.{GroupVersion, ApiResourceList}
use kube_client.Client.Backend.{Error, Reply, Services}
use kube_client.Client.Discovery.{contains, sf_invalidate}
use kube_client.Client.Lookup.{Lists, listed}

-- The calls in flight of a `singleflight.Group`, by what its documentation says: for each key at
-- most one call runs; a caller that comes while it runs waits for it and gets its results.
pub record Group : Type 1 where
  pub Table : Type 0
  pub idle_table : Table
  -- the goroutine whose call runs for the key
  pub leader : Table → String → Option ℕ
  pub enter : String → ℕ → Table → Table
  pub leave : String → Table → Table
  pub leader-idle_table : (key : String) → leader idle_table key ≡ none
  pub leader-enter :
      (key other : String) (i : ℕ) (t : Table)
      → leader (enter key i t) other ≡ (if str_eq key other then some i else leader t other)
  pub leader-leave :
      (key other : String) (t : Table)
      → leader (leave key t) other ≡ (if str_eq key other then none else leader t other)

-- Where a goroutine stands in `APIResourceList`. The flag says that it asks for the second time.
pub data Pc : Type 0 where
  idle : Pc
  -- before `discoverySF.Do`, and in it: waiting for another's call, or running the function
  calling : (v : String) (second : Bool) → Pc
  waiting : (v : String) (second : Bool) → Pc
  leading : (v : String) (second : Bool) → Pc
  -- in `sf.Do`: waiting, or in the cache's call, before and after the cache answers
  inner_waiting : (v : String) (second : Bool) (gv : String) → Pc
  fetching : (v : String) (second : Bool) (gv : String) → Pc
  fetched :
      (v : String) (second : Bool) (gv : String) (answer : Reply (Option ApiResourceList)) → Pc
  -- at the end of the function, and behind `discoverySF.Do`
  computed : (v : String) (second : Bool) (r : Lists) → Pc
  done : (v : String) (second : Bool) (r : Lists) → Pc
  -- before the lock of `Invalidate`, and behind it
  locking : (v : String) → Pc
  invalidating : (v : String) → Pc

abbrev pub list_key : String → String
list_key v = "apiResourceList:" <> v

-- A goroutine that waited gets the result.
abbrev pub received : String → Lists → Pc → Pc
received key r (waiting v second) =
    if str_eq (list_key v) key then done v second r else waiting v second
received key r p = p

abbrev pub set_pc : (ℕ → Pc) → ℕ → Pc → ℕ → Pc
set_pc pc i p j = if i == j then p else pc j

-- Whether `APIResourceList` asks again.
abbrev pub asks_again : Bool → Option Error → Bool
asks_again false (some e) = contains e.text "not found"
asks_again false none = false
asks_again true err = false

abbrev pub invalid : String → Lists
invalid v = record {
  value = [];
  err = some (record { text = "apiVersion '" <> (v <> "' is invalid"); is_not_found = false });
}

module _ (s : Services) (g : Group) where
  -- The same of the inner group; the list is made into lists for the apiVersion of the caller.
  abbrev pub inner_received : String → Reply (Option ApiResourceList) → Pc → Pc
  inner_received key answer (inner_waiting v second gv) =
      if str_eq gv key then computed v second (listed s v answer) else inner_waiting v second gv
  inner_received key answer p = p

  -- The calls in flight of `discoverySF` and of `sf`, the wrapper's `mu` with its owner, the wrapped
  -- cache, and the goroutines by their numbers.
  pub record Sys : Type 0 where
    pub outer : g.Table
    pub inner : g.Table
    pub mu : Option ℕ
    pub cache : s.cache.State
    pub pc : ℕ → Pc

  -- One step of one goroutine.
  pub data Step (x : Sys) : Sys → Type 0 where
    ask :
        (i : ℕ) (v : String)
        → v ≢ ""
        → x.pc i ≡ idle
        → Step x (record x { pc = set_pc x.pc i (calling v false) })
    -- `discoverySF.Do` in `apiResourceList`: the first caller for the apiVersion runs the function
    lead :
        (i : ℕ) (v : String) (second : Bool)
        → x.pc i ≡ calling v second
        → g.leader x.outer (list_key v) ≡ none
        → Step x (record x {
          outer = g.enter (list_key v) i x.outer;
          pc = set_pc x.pc i (leading v second);
        })
    join :
        (i j : ℕ) (v : String) (second : Bool)
        → x.pc i ≡ calling v second
        → g.leader x.outer (list_key v) ≡ some j
        → Step x (record x { pc = set_pc x.pc i (waiting v second) })
    -- `apiResourceListUncached` up to the call of `ServerResourcesForGroupVersion`, and `sf.Do` in it
    refuse :
        (i : ℕ) (v : String) (second : Bool)
        → x.pc i ≡ leading v second
        → s.schema.parse v ≡ none
        → Step x (record x { pc = set_pc x.pc i (computed v second (invalid v)) })
    inner_lead :
        (i : ℕ) (v : String) (second : Bool) (gv : GroupVersion)
        → x.pc i ≡ leading v second
        → s.schema.parse v ≡ some gv
        → g.leader x.inner (s.schema.print gv) ≡ none
        → Step x (record x {
          inner = g.enter (s.schema.print gv) i x.inner;
          pc = set_pc x.pc i (fetching v second (s.schema.print gv));
        })
    inner_join :
        (i j : ℕ) (v : String) (second : Bool) (gv : GroupVersion)
        → x.pc i ≡ leading v second
        → s.schema.parse v ≡ some gv
        → g.leader x.inner (s.schema.print gv) ≡ some j
        → Step x (record x { pc = set_pc x.pc i (inner_waiting v second (s.schema.print gv)) })
    -- the call of the wrapped cache, which other calls of the cache do not interrupt
    fetch :
        (i : ℕ) (v : String) (second : Bool) (gv : String)
        → x.pc i ≡ fetching v second gv
        → Step x (record x {
          cache = (s.cache.resources_for gv x.cache).1;
          pc = set_pc x.pc i (fetched v second gv (s.cache.resources_for gv x.cache).0);
        })
    -- the end of `sf.Do` and of `apiResourceListUncached`, and then of `discoverySF.Do`
    inner_return :
        (i : ℕ) (v : String) (second : Bool) (gv : String) (answer : Reply (Option ApiResourceList))
        → x.pc i ≡ fetched v second gv answer
        → Step x (record x {
          inner = g.leave gv x.inner;
          pc =
              set_pc
                (λ j. inner_received gv answer (x.pc j))
                i
                (computed v second (listed s v answer));
        })
    return :
        (i : ℕ) (v : String) (second : Bool) (r : Lists)
        → x.pc i ≡ computed v second r
        → Step x (record x {
          outer = g.leave (list_key v) x.outer;
          pc = set_pc (λ j. received (list_key v) r (x.pc j)) i (done v second r);
        })
    -- `APIResourceList` behind its first or second call
    take_result :
        (i : ℕ) (v : String) (second : Bool) (r : Lists)
        → x.pc i ≡ done v second r
        → asks_again second r.err ≡ false
        → Step x (record x { pc = set_pc x.pc i idle })
    retry :
        (i : ℕ) (v : String) (second : Bool) (r : Lists)
        → x.pc i ≡ done v second r
        → asks_again second r.err ≡ true
        → Step x (record x { pc = set_pc x.pc i (locking v) })
    -- `invalidateDiscovery`, which calls `Invalidate` of the wrapper
    lock :
        (i : ℕ) (v : String)
        → x.pc i ≡ locking v
        → x.mu ≡ none
        → Step x (record x { mu = some i; pc = set_pc x.pc i (invalidating v) })
    invalidate :
        (i : ℕ) (v : String)
        → x.pc i ≡ invalidating v
        → Step x (record x {
          mu = none;
          cache = sf_invalidate s x.cache;
          pc = set_pc x.pc i (calling v true);
        })

  -- All goroutines before their first call.
  abbrev pub all_idle : s.cache.State → Sys
  all_idle cache = record {
    outer = g.idle_table;
    inner = g.idle_table;
    mu = none;
    cache = cache;
    pc = λ i. idle;
  }

  pub data Reach (cache : s.cache.State) : Sys → Type 0 where
    nothing_yet : Reach cache (all_idle cache)
    later : {x y : Sys} → Reach cache x → Step x y → Reach cache y
