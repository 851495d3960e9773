-- ===== src/Samples.antt =====
-- Concrete values for what the model takes as parameters, for the tests and the witnesses.
use Prim.Native.Char.{Char, code}
use Prim.Native.String.{◌++◌ as ◌<>◌}
use text.Mathlib.TextLemmas.{nil-append, cons-append}
use kube_client.Prelude.{
  String, Bool, true, false, ◌&&◌, Option, none, some, List, [], ◌∷◌, ◌≡◌, ◌≢◌, refl, ap,
  if◌then◌else◌, str_eq, eq_iff, arith, ◌==◌, Result, ok, fail, Bool-cases, inl, inr,
}
use kube_client.Api.{GroupVersion, GroupVersionResource, Schema, has_no_slash, gvr_eq}
use kube_client.Api.Fold.{Unicode}
use kube_client.Manifest
use kube_client.Manifest.{Manifest}
use kube_client.Fake.Machinery.{Machinery}

-- No rune but those of ASCII has a lower case or a fold.
abbrev pub ascii : Unicode
ascii = record { lower = λ c. c; same_fold = λ a b. false }

abbrev first_of_pair : Char → Option (String × String) → Option (String × String)
first_of_pair c none = none
first_of_pair c (some (g, v)) = some (String.◌∷◌ c g, v)

-- The text before the first slash and behind it.
abbrev at_slash : String → Option (String × String)
at_slash String.[] = none
at_slash (String.◌∷◌ c s) = if code c == b'/' then some ("", s) else first_of_pair c (at_slash s)

pub at_slash-append :
    (g v : String) → has_no_slash g ≡ true → at_slash (g <> ("/" <> v)) ≡ some (g, v)
at_slash-append String.[] v h = rw (nil-append ("/" <> v)) (slash v)
  where
    slash : (v : String) → at_slash ("/" <> v) ≡ some ("", v)
    slash v = rw (cons-append _ "" v, nil-append v)
at_slash-append (String.◌∷◌ c g) v h = elim (Bool-cases (code c == b'/')) [
  | inl slash ↦ ground arith
  | inr other ↦ rw (cons-append c g ("/" <> v), other, at_slash-append g v (rw other at h))
]

pub at_slash-none : (v : String) → has_no_slash v ≡ true → at_slash v ≡ none
at_slash-none String.[] h = refl
at_slash-none (String.◌∷◌ c v) h = elim (Bool-cases (code c == b'/')) [
  | inl slash ↦ ground arith
  | inr other ↦ rw (other, at_slash-none v (rw other at h))
]

abbrev group_and_version : String → Option (String × String) → Option GroupVersion
group_and_version s none = some (record { group = ""; version = s })
group_and_version s (some (g, v)) = some (record { group = g; version = v })

abbrev print_group_version : GroupVersion → String
print_group_version gv = if str_eq gv.group "" then gv.version else gv.group <> ("/" <> gv.version)

pub print_group_version-named :
    (g v : String)
    → g ≢ ""
    → print_group_version (record { group = g; version = v }) ≡ g <> ("/" <> v)
print_group_version-named g v h = ground (arith, eq_iff g "")

abbrev pub sample_schema : Schema
sample_schema = record {
  parse = λ s. group_and_version s (at_slash s);
  print = print_group_version;
  print-group = print_group_version-named;
  print-core = λ v. refl;
  parse-slash = λ g v h k n. ap (group_and_version _) (at_slash-append g v h);
  parse-core = λ v h n. ap (group_and_version v) (at_slash-none v h);
}

-- A dynamic client that holds the resource, the namespace and the name of each object.
abbrev pub Objects : Type 0
Objects = List (GroupVersionResource × String × String)

abbrev holds : GroupVersionResource → String → String → Objects → Bool
holds gvr ns name [] = false
holds gvr ns name ((g, n, o) ∷ os) =
    if gvr_eq g gvr && (str_eq n ns && str_eq o name) then true else holds gvr ns name os

abbrev without : GroupVersionResource → String → String → Objects → Objects
without gvr ns name [] = []
without gvr ns name ((g, n, o) ∷ os) =
    if gvr_eq g gvr && (str_eq n ns && str_eq o name)
    then without gvr ns name os
    else (g, n, o) ∷ without gvr ns name os

abbrev if_held :
    String → GroupVersionResource → String → String → Objects → Objects → Result String Objects
if_held why gvr ns name os r = if holds gvr ns name os then ok r else fail why

-- The plural of a kind as the tests need it: the kind with an "s".
abbrev pub sample_machinery : Machinery
sample_machinery = record {
  schema = sample_schema;
  unicode = ascii;
  plural = λ g v k. record { group = g; version = v; resource = k <> "s" };
  plural_place = λ g v k h. (refl, refl);
  Dynamic = Objects;
  fresh = λ kinds. [];
  create = λ gvr ns obj os.
      if holds gvr ns (Manifest.name obj) os
      then fail "already exists"
      else ok ((gvr, ns, Manifest.name obj) ∷ os);
  update = λ gvr ns obj os. if_held "not found" gvr ns (Manifest.name obj) os os;
  delete = λ gvr ns name os. if_held "not found" gvr ns name os (without gvr ns name os);
  Clientset = List String;
  new_clientset = [];
  create_namespace = λ ns names. ns ∷ names;
}
