-- ===== src/Api.antt =====
-- The parts of the Kubernetes API types that the client and the fake cluster read and write:
-- `metav1.APIResource`, `metav1.APIResourceList`, `schema.GroupVersion`,
-- `schema.GroupVersionResource`. Their Go declarations are not in this repository, and neither are
-- the functions of `apimachinery/pkg/runtime/schema`, which `Schema` takes as an interface.
pub mod Fold
use Prim.Native.String.{◌++◌ as ◌<>◌}
use kube_client.Prelude.{
  ℕ, String, Bool, true, false, ◌&&◌, not, Option, none, some, List, [], ◌∷◌, ◌≡◌, ◌≢◌, str_eq,
  codes, ◌==◌, if◌then◌else◌, all, ◌↔◌, arith, eq_iff,
}

pub record GroupVersion : Type 0 where
  pub group : String
  pub version : String

pub record GroupVersionResource : Type 0 where
  pub group : String
  pub version : String
  pub resource : String

pub record ApiResource : Type 0 where
  pub kind : String
  pub name : String
  pub short_names : List String
  pub verbs : List String
  pub group : String
  pub version : String
  pub namespaced : Bool

pub record ApiResourceList : Type 0 where
  pub group_version : String
  pub api_resources : List ApiResource

-- `==` on two `GroupVersionResource` structs, the keys of a Go map
unfoldable pub gvr_eq : GroupVersionResource → GroupVersionResource → Bool
gvr_eq a b = str_eq a.group b.group && (str_eq a.version b.version && str_eq a.resource b.resource)

pub gvr_eq_iff : (a b : GroupVersionResource) → (gvr_eq a b ≡ true) ↔ (a ≡ b)
unfolding gvr_eq
gvr_eq_iff a b =
    ground (arith, eq_iff a.group b.group, eq_iff a.version b.version, eq_iff a.resource b.resource)

abbrev pub has_no_slash : String → Bool
has_no_slash s = all (λ c. not (c == b'/')) (codes s)

-- `schema.ParseGroupVersion` and `GroupVersion.String`, by what their documentation says of texts
-- with at most one slash.
pub record Schema : Type 0 where
  pub parse : String → Option GroupVersion
  pub print : GroupVersion → String
  pub print-group :
      (g v : String) → g ≢ "" → print (record { group = g; version = v }) ≡ g <> ("/" <> v)
  pub print-core : (v : String) → print (record { group = ""; version = v }) ≡ v
  pub parse-slash :
      (g v : String)
      → has_no_slash g ≡ true
      → has_no_slash v ≡ true
      → v ≢ ""
      → parse (g <> ("/" <> v)) ≡ some (record { group = g; version = v })
  pub parse-core :
      (v : String)
      → has_no_slash v ≡ true
      → v ≢ ""
      → parse v ≡ some (record { group = ""; version = v })

abbrev or_zero : Option GroupVersion → GroupVersion
or_zero (some gv) = gv
or_zero none = record { group = ""; version = "" }

-- `gv, _ := schema.ParseGroupVersion(text)`: with an error `gv` is the zero value.
unfoldable pub parse_or_zero : Schema → String → GroupVersion
parse_or_zero schema text = or_zero (schema.parse text)
