-- ===== src/Manifest.antt =====
-- manifest/manifest.go: a manifest is the decoded JSON object of one Kubernetes resource.
-- A nil map and an empty one read alike and are one value here; no manifest holds a nil map that
-- the code writes to, since `SetNamespace` writes to a map that it has read from the manifest or
-- has just made.
pub mod Laws
pub mod Split
pub mod Docs
pub mod Order
mod Tests
use Prim.Native.String.{◌++◌ as ◌<>◌}
use kube_client.Prelude.{
  String, Bool, true, false, ◌||◌, not, Option, none, some, str_eq, if◌then◌else◌, Result, ok, fail,
  Text,
}

-- `interface{}` as the YAML decoder fills it; a number is kept as its literal.
mutual
  pub data Value : Type 0 where
    null : Value
    boolean : Bool → Value
    number : String → Value
    str : String → Value
    arr : Items → Value
    obj : Fields → Value

  pub data Items : Type 0 where
    nil : Items
    item : Value → Items → Items

  -- `map[string]interface{}`
  pub data Fields : Type 0 where
    end : Fields
    field : String → Value → Fields → Fields

abbrev pub Manifest : Type 0
Manifest = Fields

-- `obj, ok := m[key]`
unfoldable pub get : String → Fields → Option Value
get key end = none
get key (field k v m) = if str_eq k key then some v else get key m

-- `m[key] = v`
unfoldable pub put : String → Value → Fields → Fields
put key v end = field key v end
put key v (field k w m) = if str_eq k key then field key v m else field k w (put key v m)

abbrev is_some : Option Value → Bool
is_some none = false
is_some (some _) = true

-- the type assertions `obj.(string)` and `obj.(map[string]interface{})`
abbrev as_string : Option Value → String
as_string (some (str s)) = s
as_string _ = ""

abbrev as_map : Option Value → Option Fields
as_map (some (obj m)) = some m
as_map _ = none

abbrev or_empty : Option Fields → Fields
or_empty (some m) = m
or_empty none = end

unfoldable pub get_field_string : Fields → String → String
get_field_string m key = as_string (get key m)

unfoldable pub new : String → String → String → Manifest
new api_version kind name =
    field "apiVersion" (str api_version)
      (field "kind" (str kind) (field "metadata" (obj (field "name" (str name) end)) end))

-- `yaml.Unmarshal` into a `Manifest`, which is not under src/, comes as the argument `unmarshal`.
-- `NewFromYAML` also returns an empty manifest beside its error, which no caller reads.
unfoldable pub new_from_yaml : {E : Type 0} → (Text → Result E Manifest) → Text → Result E Manifest
new_from_yaml unmarshal yaml_or_json = elim (unmarshal yaml_or_json) [
  | ok m ↦ ok m
  | fail err ↦ fail err
]

-- A failure here is the panic with the decoder's error.
unfoldable pub must_from_yaml : {E : Type 0} → (Text → Result E Manifest) → Text → Result E Manifest
unfolding new_from_yaml
must_from_yaml unmarshal yaml_or_json = elim (new_from_yaml unmarshal yaml_or_json) [
  | ok m ↦ ok m
  | fail err ↦ fail err
]

unfoldable pub metadata : Manifest → Fields
metadata m = or_empty (as_map (get "metadata" m))

unfoldable pub has_basic_fields : Manifest → Bool
unfolding metadata
has_basic_fields m =
    let has_kind = is_some (get "kind" m) in
    let has_version = is_some (get "apiVersion" m) in
    if not has_kind || not has_version then false else is_some (get "name" (metadata m))

unfoldable pub kind : Manifest → String
unfolding get_field_string
kind m = get_field_string m "kind"

unfoldable pub api_version : Manifest → String
unfolding get_field_string
api_version m = get_field_string m "apiVersion"

unfoldable pub name : Manifest → String
unfolding get_field_string metadata
name m = get_field_string (metadata m) "name"

unfoldable pub namespace : Manifest → String → String
unfolding get_field_string metadata
namespace m default_ns =
    let ns = get_field_string (metadata m) "namespace" in
    if not (str_eq ns "") then ns else default_ns

unfoldable pub id : Manifest → String
unfolding namespace kind name
id m = namespace m "default" <> ("/" <> (kind m <> ("/" <> name m)))

-- `Metadata` returns the manifest's own map, or a map that nothing else holds where the manifest
-- has none; the write is seen in the manifest in the first case only.
abbrev write_namespace : String → Manifest → Option Fields → Manifest
write_namespace ns m (some meta) = put "metadata" (obj (put "namespace" (str ns) meta)) m
write_namespace ns m none = m

unfoldable pub set_namespace : String → Manifest → Manifest
set_namespace ns m = write_namespace ns m (as_map (get "metadata" m))
