-- ===== src/Manifest/Laws.antt =====
-- manifest/manifest.go: what the accessors read after a write.
use Prim.Native.String.{◌++◌ as ◌<>◌}
use kube_client.Prelude.{
  String, Bool, true, false, Option, none, some, ◌≡◌, refl, ◌≢◌, str_eq, if◌then◌else◌, arith,
  eq_iff,
}
use kube_client.Manifest.{
  Value, str, obj, Fields, end, field, Manifest, as_map, get, put, kind, api_version, name,
  namespace, write_namespace, set_namespace, new, id, has_basic_fields,
}

pub get-end : (k : String) → get k end ≡ none
unfolding get
get-end k = refl

pub get-put :
    (k j : String) (v : Value) (m : Fields)
    → get j (put k v m) ≡ (if str_eq k j then some v else get j m)
unfolding get put
get-put k j v end = refl
get-put k j v (field i w m) = ground (arith, eq_iff k j, eq_iff i k, eq_iff i j, get-put k j v m)

abbrev pub is_map : Option Value → Bool
is_map (some (obj _)) = true
is_map _ = false

-- The manifest has an object under "metadata", which `Metadata` then returns itself.
abbrev pub has_metadata_map : Manifest → Bool
has_metadata_map m = is_map (get "metadata" m)

-- `SetNamespace` is read back by `Namespace` where the manifest has a metadata object (an empty
-- namespace reads as the default), and is lost where it has none.  Kind, apiVersion and name stay.
pub namespace-set_namespace :
    (ns default_ns : String) (m : Manifest)
    → (namespace (set_namespace ns m) default_ns
        ≡ (if has_metadata_map m then (if str_eq ns "" then default_ns else ns) else default_ns))
      × (kind (set_namespace ns m) ≡ kind m)
      × (api_version (set_namespace ns m) ≡ api_version m)
      × (name (set_namespace ns m) ≡ name m)
unfolding namespace kind api_version name set_namespace
namespace-set_namespace ns default_ns m = by_map (get "metadata" m) refl
  where
    by_map :
        (v : Option Value)
        → get "metadata" m ≡ v
        → (namespace (write_namespace ns m (as_map v)) default_ns
            ≡ (if is_map v then (if str_eq ns "" then default_ns else ns) else default_ns))
          × (kind (write_namespace ns m (as_map v)) ≡ kind m)
          × (api_version (write_namespace ns m (as_map v)) ≡ api_version m)
          × (name (write_namespace ns m (as_map v)) ≡ name m)
    by_map (some (obj meta)) e = ground (
      arith,
      get-put "metadata" "metadata" (obj (put "namespace" (str ns) meta)) m,
      get-put "metadata" "kind" (obj (put "namespace" (str ns) meta)) m,
      get-put "metadata" "apiVersion" (obj (put "namespace" (str ns) meta)) m,
      get-put "namespace" "name" (str ns) meta,
      get-put "namespace" "namespace" (str ns) meta,
    )
    by_map none e = rw e (simp get-end (refl, refl, refl, refl))
    by_map v e = rw e (simp get-end (refl, refl, refl, refl))

-- A manifest made by `New` has its basic fields, and reads back the three arguments; with a
-- namespace set it is identified by that namespace, and by "default" before.
pub id-set_namespace-new :
    (version k n ns : String)
    → ns ≢ ""
    → (has_basic_fields (new version k n) ≡ true)
      × (api_version (new version k n) ≡ version)
      × (id (new version k n) ≡ "default" <> ("/" <> (k <> ("/" <> n))))
      × (id (set_namespace ns (new version k n)) ≡ ns <> ("/" <> (k <> ("/" <> n))))
unfolding new id has_basic_fields api_version set_namespace get put
id-set_namespace-new version k n ns h = ground (arith, eq_iff ns "")
