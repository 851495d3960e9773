-- ===== src/Manifest/Docs.antt =====
-- manifest/manifest_list.go
use mathlib.Core.List.{filter_map, filter_map-cons-some, filter_map-cons-none, Mem, Memᴰ, Perm}
use mathlib.Core.List.Perm
use mathlib.Core.Logic.{∥∥₁_elim}
use mathlib.Core.HLevel.{⊥_prop}
use kube_client.Prelude.{
  Option, none, some, List, [], ◌∷◌, ◌++◌, ◌≡◌, ◌≢◌, refl, sym, ap, ◌∙◌, if◌then◌else◌, Text,
  Result, ok, fail, arith, append-nil, append_assoc, Bool-cases, Result-cases, inl, inr,
}
use kube_client.Manifest.{Manifest, new_from_yaml, has_basic_fields}
use kube_client.Manifest.Split.{split_manifests}

-- A decoded manifest is kept if it has its basic fields.
abbrev pub keep : {E : Type 0} → Result E Manifest → Option Manifest
keep (fail err) = none
keep (ok m) = if has_basic_fields m then some m else none

module _ {E : Type 0} (unmarshal : Text → Result E Manifest) where
  -- The body of the `range` loop, over the map's entries in the order that Go takes them.
  unfoldable pub list_loop : List Manifest → List (Text × Text) → Result E (List Manifest)
  list_loop manifests [] = ok manifests
  list_loop manifests ((key, doc) ∷ rest) = elim (new_from_yaml unmarshal doc) [
    | fail err ↦ fail err
    | ok m ↦ list_loop (if has_basic_fields m then manifests ++ (m ∷ []) else manifests) rest
  ]

  -- `ListFromYamlDocs`. Go's `range` over a map fixes no order of the entries: the order comes as
  -- the argument `range`.
  unfoldable pub list_from_yaml_docs :
      (List (Text × Text) → List (Text × Text)) → Text → Result E (List Manifest)
  unfolding list_loop
  list_from_yaml_docs range raw_manifests = list_loop [] (range (split_manifests raw_manifests))

  -- What one document adds to the list.
  abbrev pub kept : Text × Text → Option Manifest
  kept entry = keep (unmarshal entry.1)

  new_from_yaml_lem : (doc : Text) → new_from_yaml unmarshal doc ≡ unmarshal doc
  unfolding new_from_yaml
  new_from_yaml_lem doc = ground arith

  list_loop-fail_first :
      {err : E} (acc : List Manifest) (e : Text × Text) (es : List (Text × Text))
      → unmarshal e.1 ≡ fail err
      → list_loop acc (e ∷ es) ≡ fail err
  unfolding list_loop
  list_loop-fail_first acc e es h = rw (new_from_yaml_lem e.1 ∙ h, list_loop)

  list_loop-ok_first :
      {m : Manifest} (acc : List Manifest) (e : Text × Text) (es : List (Text × Text))
      → unmarshal e.1 ≡ ok m
      → list_loop acc (e ∷ es) ≡ list_loop (if has_basic_fields m then acc ++ (m ∷ []) else acc) es
  unfolding list_loop
  list_loop-ok_first acc e es h = rw (new_from_yaml_lem e.1 ∙ h, list_loop)

  list_loop-nil : (acc : List Manifest) → list_loop acc [] ≡ ok acc
  unfolding list_loop
  list_loop-nil acc = refl

  ok-injective : {A : Type 0} {a b : A} → ◌≡◌ {A = Result E A} (ok a) (ok b) → a ≡ b
  ok-injective h = cc

  filter_map-nil : filter_map kept [] ≡ []
  unfolding filter_map
  filter_map-nil = refl

  list_loop-ok :
      (acc : List Manifest) (es : List (Text × Text)) (ms : List Manifest)
      → list_loop acc es ≡ ok ms
      → ms ≡ acc ++ filter_map kept es
  list_loop-ok acc [] ms h =
      rw (filter_map-nil, append-nil) (sym (ok-injective (sym (list_loop-nil acc) ∙ h)))
  list_loop-ok acc (e ∷ es) ms h = elim (Result-cases (unmarshal e.1)) [
    | inr (err, failed) ↦ cc (list_loop-fail_first acc e es failed)
    | inl (m, decoded) ↦ elim (Bool-cases (has_basic_fields m)) [
      | inl basic ↦
          list_loop-ok (acc ++ (m ∷ [])) es ms
            (rw basic at (sym (list_loop-ok_first acc e es decoded) ∙ h))
          ∙ append_assoc acc (m ∷ []) (filter_map kept es)
          ∙ ap (λ l. acc ++ l) (sym (filter_map-cons-some kept e es (rw (decoded, basic))))
      | inr other ↦
          list_loop-ok acc es ms (rw other at (sym (list_loop-ok_first acc e es decoded) ∙ h))
          ∙ ap (λ l. acc ++ l) (sym (filter_map-cons-none kept e es (rw (decoded, other))))
    ]
  ]

  list_loop-fail :
      {err : E} (acc : List Manifest) (es : List (Text × Text))
      → list_loop acc es ≡ fail err
      → (e : Text × Text) × Memᴰ e es × (unmarshal e.1 ≡ fail err)
  list_loop-fail acc [] h = cc (list_loop-nil acc)
  list_loop-fail acc (e ∷ es) h = elim (Result-cases (unmarshal e.1)) [
    | inr (err', failed) ↦ (e, Memᴰ.head refl, failed ∙ (cc (list_loop-fail_first acc e es failed)))
    | inl (m, decoded) ↦
        let (e', here, failed) =
          list_loop-fail (if has_basic_fields m then acc ++ (m ∷ []) else acc) es
            (sym (list_loop-ok_first acc e es decoded) ∙ h) in
        (e', Memᴰ.tail here, failed)
  ]

  list_loop-decodes :
      {e : Text × Text} {err : E} (acc : List Manifest) (es : List (Text × Text))
      (ms : List Manifest)
      → list_loop acc es ≡ ok ms
      → Memᴰ e es
      → unmarshal e.1 ≢ fail err
  list_loop-decodes acc [] ms h here bad = elim here [ ]
  list_loop-decodes acc (e ∷ es) ms h (Memᴰ.head same) bad =
      cc (list_loop-fail_first acc e es (ap (λ (d : Text × Text). unmarshal d.1) (sym same) ∙ bad))
  list_loop-decodes acc (e ∷ es) ms h (Memᴰ.tail later) bad = elim (Result-cases (unmarshal e.1)) [
    | inr (err', failed) ↦ cc (list_loop-fail_first acc e es failed)
    | inl (m, decoded) ↦
        list_loop-decodes (if has_basic_fields m then acc ++ (m ∷ []) else acc) es ms
          (sym (list_loop-ok_first acc e es decoded) ∙ h) later bad
  ]

  list_loop_total :
      (acc : List Manifest) (es : List (Text × Text))
      → ((e : Text × Text) → Memᴰ e es → (err : E) → unmarshal e.1 ≢ fail err)
      → (ms : List Manifest) × (list_loop acc es ≡ ok ms)
  list_loop_total acc [] h = (acc, list_loop-nil acc)
  list_loop_total acc (e ∷ es) h = elim (Result-cases (unmarshal e.1)) [
    | inr (err, failed) ↦ absurd (h e (Memᴰ.head refl) err failed)
    | inl (m, decoded) ↦
        let (ms, k) =
          list_loop_total (if has_basic_fields m then acc ++ (m ∷ []) else acc) es
            (λ d here. h d (Memᴰ.tail here)) in
        (ms, list_loop-ok_first acc e es decoded ∙ k)
  ]

  module _ (range : List (Text × Text) → List (Text × Text))
      (any_order : (l : List (Text × Text)) → Perm (range l) l) where
    -- Whatever the order in which Go takes the map's entries, a list that `ListFromYamlDocs`
    -- returns holds, as often, the manifests of the stream's documents that have their basic
    -- fields; their order is not said.
    pub list_from_yaml_docs-Perm :
        (raw : Text) (ms : List Manifest)
        → list_from_yaml_docs range raw ≡ ok ms
        → Perm ms (filter_map kept (split_manifests raw))
    unfolding list_from_yaml_docs
    list_from_yaml_docs-Perm raw ms h =
        rw (list_loop-ok [] (range (split_manifests raw)) ms h)
          (Perm.filter_map kept (any_order (split_manifests raw)))

    -- `ListFromYamlDocs` returns a list exactly when every document of the stream decodes; an
    -- error that it returns is the decoder's on one of the documents.
    pub list_from_yaml_docs-errors :
        (raw : Text)
        → (((ms : List Manifest) × (list_from_yaml_docs range raw ≡ ok ms))
            → (e : Text × Text) → Mem e (split_manifests raw)
            → (err : E) → unmarshal e.1 ≢ fail err)
          × (((e : Text × Text)
                → Mem e (split_manifests raw)
                → (err : E) → unmarshal e.1 ≢ fail err)
              → (ms : List Manifest) × (list_from_yaml_docs range raw ≡ ok ms))
          × ((err : E)
              → list_from_yaml_docs range raw ≡ fail err
              → ∥ ((e : Text × Text) × Mem e (split_manifests raw) × (unmarshal e.1 ≡ fail err)) ∥₁)
    unfolding list_from_yaml_docs
    list_from_yaml_docs-errors raw = (
      λ (ms, h) e here err bad.
          ∥∥₁_elim ((Perm.mem_iff (any_order (split_manifests raw))).1 here) ⊥_prop
            (λ d. list_loop-decodes [] (range (split_manifests raw)) ms h d bad),
      λ decodes.
          list_loop_total [] (range (split_manifests raw))
            (λ e here. decodes e ((Perm.mem_iff (any_order (split_manifests raw))).0 ∣ here ∣₁)),
      λ err h.
          let (e, here, failed) = list_loop-fail [] (range (split_manifests raw)) h in
          ∣ (e, (Perm.mem_iff (any_order (split_manifests raw))).0 ∣ here ∣₁, failed) ∣₁,
    )
