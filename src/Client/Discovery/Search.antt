-- ===== src/Client/Discovery/Search.antt =====
-- The search of `getApiResourceFromResourceLists`, beside what it looks for.
use mathlib.Core.List.{Memᴰ}
use kube_client.Prelude.{
  String, Bool, true, false, Option, none, some, List, [], ◌∷◌, ◌++◌, ◌≡◌, ◌≢◌, refl, ap, subst,
  ◌∙◌, ◌↔◌, inl, inr, Bool-cases, Option-cases, some_inj,
}
use kube_client.Api.{ApiResource, ApiResourceList, GroupVersion, parse_or_zero}
use kube_client.Api.Fold.{to_lower, text_eq, text_eq_iff}
use kube_client.Client.Backend.{Services}
use kube_client.Client.Discovery.{
  equal_lower_cased_to_one_of, is_wanted, placed, or_later, get_api_resource_from_list,
  get_api_resource_from_resource_lists,
}

-- The names by which a resource can be asked for.
abbrev pub names_of : ApiResource → List String
names_of r = r.short_names ++ (r.kind ∷ r.name ∷ [])

module _ (s : Services) where
  -- A resource with verbs that has the name, whatever the case of its letters.
  abbrev pub IsMatch : String → ApiResource → Type 0
  IsMatch term r =
      (r.verbs ≢ [])
      × ((name : String) × Memᴰ name (names_of r)
          × (to_lower s.unicode term ≡ to_lower s.unicode name))

  is_name :
      (term : String) (choices : List String)
      → equal_lower_cased_to_one_of s term choices ≡ true
      → (name : String) × Memᴰ name choices × (to_lower s.unicode term ≡ to_lower s.unicode name)
  unfolding equal_lower_cased_to_one_of
  is_name term [] h = cc
  is_name term (choice ∷ choices) h =
      elim (Bool-cases (text_eq (to_lower s.unicode term) (to_lower s.unicode choice))) [
        | inl same ↦ (choice, Memᴰ.head refl, (text_eq_iff _ _).0 same)
        | inr other ↦
            let (name, here, same) = is_name term choices (rw other at h) in
            (name, Memᴰ.tail here, same)
      ]

  name_is :
      (term name : String) (choices : List String)
      → Memᴰ name choices
      → to_lower s.unicode term ≡ to_lower s.unicode name
      → equal_lower_cased_to_one_of s term choices ≡ true
  unfolding equal_lower_cased_to_one_of
  name_is term name [] here same = elim here [ ]
  name_is term name (choice ∷ choices) (Memᴰ.head e) same =
      rw ((text_eq_iff _ _).1 (same ∙ ap (to_lower s.unicode) e)) refl
  name_is term name (choice ∷ choices) (Memᴰ.tail later) same =
      elim (Bool-cases (text_eq (to_lower s.unicode term) (to_lower s.unicode choice))) [
        | inl e ↦ rw e refl
        | inr e ↦ rw e (name_is term name choices later same)
      ]

  verbs_of :
      (vs : List String) (b : Bool)
      → elim vs [ [] ↦ false | v ∷ vs' ↦ b ] ≡ true
      → (vs ≢ []) × (b ≡ true)
  verbs_of [] b h = cc
  verbs_of (v ∷ vs) b h = ((λ e. cc), h)

  of_verbs :
      (vs : List String) (b : Bool)
      → vs ≢ []
      → b ≡ true
      → elim vs [ [] ↦ false | v ∷ vs' ↦ b ] ≡ true
  of_verbs [] b h e = absurd (h refl)
  of_verbs (v ∷ vs) b h e = e

  pub is_wanted_iff :
      (term : String) (r : ApiResource) → (is_wanted s term r ≡ true) ↔ IsMatch term r
  is_wanted_iff term r = (
    λ h. let (some_verb, named) = verbs_of r.verbs _ h in (some_verb, is_name term _ named),
    λ (some_verb, named). of_verbs r.verbs _ some_verb (name_is term named.0 _ named.1 named.2),
  )

  in_list :
      (term : String) (gv : GroupVersion) (rs : List ApiResource) (r : ApiResource)
      → get_api_resource_from_list s term gv rs ≡ some r
      → (r0 : ApiResource) × Memᴰ r0 rs × IsMatch term r0 × (placed r0 gv ≡ r)
  unfolding get_api_resource_from_list
  in_list term gv [] r h = cc
  in_list term gv (r0 ∷ rs) r h = elim (Bool-cases (is_wanted s term r0)) [
    | inl wanted ↦ (r0, Memᴰ.head refl, (is_wanted_iff term r0).0 wanted, some_inj (rw wanted at h))
    | inr other ↦
        let (r1, here, match, same) = in_list term gv rs r (rw other at h) in
        (r1, Memᴰ.tail here, match, same)
  ]

  in_list-misses :
      (term : String) (gv : GroupVersion) (rs : List ApiResource) (r : ApiResource)
      → Memᴰ r rs
      → IsMatch term r
      → get_api_resource_from_list s term gv rs ≢ none
  unfolding get_api_resource_from_list
  in_list-misses term gv [] r here match h = elim here [ ]
  in_list-misses term gv (r0 ∷ rs) r (Memᴰ.head e) match h =
      cc (rw ((is_wanted_iff term r0).1 (subst (IsMatch term) e match)) at h)
  in_list-misses term gv (r0 ∷ rs) r (Memᴰ.tail later) match h =
      elim (Bool-cases (is_wanted s term r0)) [
        | inl wanted ↦ cc (rw wanted at h)
        | inr other ↦ in_list-misses term gv rs r later match (rw other at h)
      ]

  or_later-none : (a b : Option ApiResource) → or_later s a b ≡ none → (a ≡ none) × (b ≡ none)
  or_later-none none b h = (refl, h)
  or_later-none (some r) b h = cc

  -- A resource that the search returns is a copy of one that matches, placed in the group version
  -- of its list.
  pub get_api_resource-IsMatch :
      (term : String) (ls : List ApiResourceList) (r : ApiResource)
      → get_api_resource_from_resource_lists s term ls ≡ some r
      → (l : ApiResourceList) × Memᴰ l ls
        × ((r0 : ApiResource) × Memᴰ r0 l.api_resources
            × IsMatch term r0
            × (placed r0 (parse_or_zero s.schema l.group_version) ≡ r))
  unfolding get_api_resource_from_resource_lists
  get_api_resource-IsMatch term [] r h = cc
  get_api_resource-IsMatch term (l ∷ ls) r h =
      let first =
        get_api_resource_from_list s term (parse_or_zero s.schema l.group_version)
          l.api_resources in
      elim (Option-cases first) [
        | inl missing ↦
            let (l', here, found) = get_api_resource-IsMatch term ls r (rw missing at h) in
            (l', Memᴰ.tail here, found)
        | inr (r', found) ↦
            (l, Memᴰ.head refl, in_list term _ l.api_resources r (found ∙ (rw found at h)))
      ]

  -- The search returns a resource if a resource of one of the lists matches.
  pub get_api_resource-misses :
      (term : String) (ls : List ApiResourceList) (l : ApiResourceList) (r : ApiResource)
      → Memᴰ l ls
      → Memᴰ r l.api_resources
      → IsMatch term r
      → get_api_resource_from_resource_lists s term ls ≢ none
  unfolding get_api_resource_from_resource_lists
  get_api_resource-misses term [] l r here inside match h = elim here [ ]
  get_api_resource-misses term (l0 ∷ ls) l r (Memᴰ.head e) inside match h =
      in_list-misses term _ l0.api_resources r (subst (λ l. Memᴰ r l.api_resources) e inside) match
        (or_later-none _ _ h).0
  get_api_resource-misses term (l0 ∷ ls) l r (Memᴰ.tail later) inside match h =
      get_api_resource-misses term ls l r later inside match (or_later-none _ _ h).1
