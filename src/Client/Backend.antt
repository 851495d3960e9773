-- ===== src/Client/Backend.antt =====
-- What the client's discovery calls: client-go's discovery clients with their caches, the helpers
-- of its discovery package, `golang.org/x/sync/singleflight`, and errors. None of it is in this
-- repository.
use kube_client.Prelude.{String, Bool, true, Option, none, some, List, ◌≡◌, ◌≢◌}
use kube_client.Api.{ApiResourceList, Schema}
use kube_client.Api.Fold.{Unicode}

-- An `error`: its text, and whether `apiErrors.IsNotFound` holds of it or of what it wraps.
pub record Error : Type 0 where
  pub text : String
  pub is_not_found : Bool

-- Go's two results `(value, err)`; a nil error is `none`, a nil pointer too.
pub record Reply (A : Type 0) : Type 0 where
  pub value : A
  pub err : Option Error

-- A `CachedDiscoveryInterface`, or a `DiscoveryInterface` (whose `invalidate` is never called), by
-- the calls that the client makes and the state that they read and write.
pub record Backend : Type 1 where
  pub State : Type 0
  -- `ServerResourcesForGroupVersion`; it returns a list where it returns no error
  pub resources_for : String → State → Reply (Option ApiResourceList) × State
  pub resources_for-some :
      (gv : String) (s : State)
      → (resources_for gv s).0.err ≡ none
      → (resources_for gv s).0.value ≢ none
  -- `ServerGroups`, by the group versions that it names
  pub groups : State → Reply (List String) × State
  -- `ServerPreferredResources`, and the lists of `ServerGroupsAndResources`
  pub preferred : State → Reply (List ApiResourceList) × State
  pub groups_and_resources : State → Reply (List ApiResourceList) × State
  pub invalidate : State → State
  -- the type tests on `*FakeDiscovery` and on `AggregatedDiscoveryInterface`
  pub is_fake : Bool
  pub is_aggregated : Bool

-- `Group.Do(key, fn)`, for a caller with no other call in flight: the function is called once. The
-- value comes back boxed in an `any`; a nil `any` is `none`.
pub record SingleFlight : Type 1 where
  pub run : (S A : Type 0) → String → (S → Reply A × S) → S → Reply (Option A) × S
  pub run_alone :
      (S A : Type 0) (key : String) (fn : S → Reply A × S) (s : S)
      → run S A key fn s ≡ (record { value = some (fn s).0.value; err = (fn s).0.err }, (fn s).1)

pub record Services : Type 1 where
  pub schema : Schema
  pub unicode : Unicode
  pub flight : SingleFlight
  -- the cached discovery clients, and the discovery of `c.Interface`
  pub cache : Backend
  pub plain : Backend
  -- `discovery.ServerPreferredResources(d)` and `discovery.ServerGroupsAndResources(d)`: they ask
  -- `d` for its groups and for the resources of group versions, by the functions given here
  pub preferred_through :
      (S : Type 0)
      → (S → Reply (List String) × S)
      → (String → S → Reply (Option ApiResourceList) × S)
      → S
      → Reply (List ApiResourceList) × S
  pub groups_and_resources_through :
      (S : Type 0)
      → (S → Reply (List String) × S)
      → (String → S → Reply (Option ApiResourceList) × S)
      → S
      → Reply (List ApiResourceList) × S
  -- `apiErrors.NewNotFound` on a group and a resource
  pub new_not_found : String → String → Error
  pub new_not_found_is :
      (group resource : String) → (new_not_found group resource).is_not_found ≡ true
