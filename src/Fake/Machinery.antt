-- ===== src/Fake/Machinery.antt =====
-- What the fake cluster uses of client-go and apimachinery: the plural of a kind, the fake dynamic
-- client and the fake clientset. They are not in this repository; `Machinery` is their interface,
-- and its one law is what the documentation says of a kind that is not empty.
use kube_client.Prelude.{String, List, ◌≡◌, ◌≢◌, Result}
use kube_client.Api.{GroupVersionResource, Schema}
use kube_client.Api.Fold.{Unicode}
use kube_client.Manifest.{Manifest}

-- The map from resources to list kinds that the dynamic client is made with.
abbrev pub ListKinds : Type 0
ListKinds = List (GroupVersionResource × String)

pub record Machinery : Type 1 where
  pub schema : Schema
  pub unicode : Unicode
  -- `meta.UnsafeGuessKindToResource`, its first result, on a group, a version and a kind
  pub plural : String → String → String → GroupVersionResource
  pub plural_place :
      (group version kind : String)
      → kind ≢ ""
      → ((plural group version kind).group ≡ group)
        × ((plural group version kind).version ≡ version)
  -- The objects that a dynamic client holds, an empty client, and the calls on a resource and a
  -- namespace; an error is its text.
  pub Dynamic : Type 0
  pub fresh : ListKinds → Dynamic
  pub create : GroupVersionResource → String → Manifest → Dynamic → Result String Dynamic
  pub update : GroupVersionResource → String → Manifest → Dynamic → Result String Dynamic
  pub delete : GroupVersionResource → String → String → Dynamic → Result String Dynamic
  -- The clientset, and the creation of a namespace there with its result dropped
  pub Clientset : Type 0
  pub new_clientset : Clientset
  pub create_namespace : String → Clientset → Clientset
