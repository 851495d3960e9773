-- ===== src/Manifest/Tests.antt =====
-- The theorems about manifests at concrete inputs.
use Prim.Native.String.{◌++◌ as ◌<>◌}
use mathlib.Core.List.{filter_map, Mem, Perm, reverse, reverse_perm}
use kube_client.Prelude.{
  String, true, some, List, [], ◌∷◌, ◌≡◌, ◌≢◌, refl, str_eq, if◌then◌else◌, arith, eq_iff, Text,
  codes, Result, ok, fail, ◌==◌,
}
use kube_client.Manifest.{
  str, end, field, Manifest, get, new, kind, api_version, name, namespace, id, set_namespace,
  has_basic_fields, new_from_yaml,
}
use kube_client.Manifest.Laws.{has_metadata_map, namespace-set_namespace, id-set_namespace-new}
use kube_client.Manifest.Order.{less, get_elem?, swap, set_at}
use kube_client.Manifest.Order.Keys.{less-manifest_key}
use kube_client.Manifest.Order.Swaps.{get_elem?-swap}
use kube_client.Manifest.Split.{is_space, split_manifests, manifest_key, digits, digits_on}
use kube_client.Manifest.Split.Join.{IsDoc, join, entries, split_manifests-join}
use kube_client.Manifest.Docs.{
  kept, list_from_yaml_docs, list_from_yaml_docs-Perm, list_from_yaml_docs-errors,
}

abbrev bare : Manifest
bare = field "kind" (str "Pod") end

-- Without a metadata object the namespace is lost.
lost :
    (set_namespace "ns" bare ≡ bare) × (namespace (set_namespace "ns" bare) "default" ≡ "default")
unfolding set_namespace namespace get
lost = (refl, refl)

namespace-set_namespace_example :
    (namespace (set_namespace "ns" (new "v1" "Pod" "a")) "default" ≡ (
      if has_metadata_map (new "v1" "Pod" "a")
      then (if str_eq "ns" "" then "default" else "ns")
      else "default"))
    × (kind (set_namespace "ns" (new "v1" "Pod" "a")) ≡ kind (new "v1" "Pod" "a"))
    × (api_version (set_namespace "ns" (new "v1" "Pod" "a")) ≡ api_version (new "v1" "Pod" "a"))
    × (name (set_namespace "ns" (new "v1" "Pod" "a")) ≡ name (new "v1" "Pod" "a"))
namespace-set_namespace_example = namespace-set_namespace "ns" "default" (new "v1" "Pod" "a")

id-set_namespace-new_example :
    (has_basic_fields (new "v1" "Pod" "a") ≡ true)
    × (api_version (new "v1" "Pod" "a") ≡ "v1")
    × (id (new "v1" "Pod" "a") ≡ "default" <> ("/" <> ("Pod" <> ("/" <> "a"))))
    × (id (set_namespace "ns" (new "v1" "Pod" "a")) ≡ "ns" <> ("/" <> ("Pod" <> ("/" <> "a"))))
id-set_namespace-new_example =
    id-set_namespace-new "v1" "Pod" "a" "ns" (ground (arith, eq_iff "ns" ""))

first-IsDoc : IsDoc (codes "a\n-")
unfolding is_space
first-IsDoc = record {
  starts = refl;
  ends = refl;
  no_rule = (λ e. refl, (λ e. refl, (λ e. refl, tt)));
  no_dashes = refl;
}

second-IsDoc : IsDoc (codes "b")
unfolding is_space
second-IsDoc = record { starts = refl; ends = refl; no_rule = (λ e. refl, tt); no_dashes = refl }

split_manifests-join_example :
    split_manifests (join (codes "a\n-") (codes "b" ∷ []))
    ≡ entries 0 (codes "a\n-" ∷ codes "b" ∷ [])
split_manifests-join_example =
    split_manifests-join (codes "a\n-") (codes "b" ∷ []) (first-IsDoc, (second-IsDoc, tt))

-- A decoder that refuses texts that begin with "!", and reads any other as one pod.
abbrev decode : Text → Result String Manifest
decode [] = ok end
decode (c ∷ s) = if c == b'!' then fail "bad document" else ok (new "v1" "Pod" "a")

good_stream :
    list_from_yaml_docs decode reverse (codes "a\n---\nb")
    ≡ ok (new "v1" "Pod" "a" ∷ new "v1" "Pod" "a" ∷ [])
unfolding list_from_yaml_docs new_from_yaml has_basic_fields new split_manifests get
good_stream = refl

list_from_yaml_docs-Perm_example :
    Perm
      (new "v1" "Pod" "a" ∷ new "v1" "Pod" "a" ∷ [])
      (filter_map (kept decode) (split_manifests (codes "a\n---\nb")))
list_from_yaml_docs-Perm_example =
    list_from_yaml_docs-Perm decode reverse reverse_perm (codes "a\n---\nb")
      (new "v1" "Pod" "a" ∷ new "v1" "Pod" "a" ∷ []) good_stream

list_from_yaml_docs-errors_example :
    (((ms : List Manifest) × (list_from_yaml_docs decode reverse (codes "a\n---\n!") ≡ ok ms))
      → (e : Text × Text) → Mem e (split_manifests (codes "a\n---\n!"))
      → (err : String) → decode e.1 ≢ fail err)
    × (((e : Text × Text)
          → Mem e (split_manifests (codes "a\n---\n!"))
          → (err : String) → decode e.1 ≢ fail err)
        → (ms : List Manifest) × (list_from_yaml_docs decode reverse (codes "a\n---\n!") ≡ ok ms))
    × ((err : String)
        → list_from_yaml_docs decode reverse (codes "a\n---\n!") ≡ fail err
        → ∥ (
            (e : Text × Text) × Mem e (split_manifests (codes "a\n---\n!"))
            × (decode e.1 ≡ fail err)) ∥₁)
list_from_yaml_docs-errors_example =
    list_from_yaml_docs-errors decode reverse reverse_perm (codes "a\n---\n!")

abbrev two_keys : List Text
two_keys = codes "manifest-10" ∷ codes "manifest-9" ∷ []

-- The order is that of the numbers, not that of the texts.
less-manifest_key_example : less two_keys 1 0 ≡ some true
unfolding get_elem? manifest_key digits digits_on
less-manifest_key_example =
    less-manifest_key two_keys 1 0 9 10 (omega arith) (omega arith) refl refl

get_elem?-swap_example :
    get_elem? (codes "manifest-9" ∷ codes "manifest-10" ∷ []) 0 ≡ some (codes "manifest-9")
unfolding get_elem? swap set_at
get_elem?-swap_example =
    get_elem?-swap two_keys (codes "manifest-9" ∷ codes "manifest-10" ∷ []) 0 1 0 refl
