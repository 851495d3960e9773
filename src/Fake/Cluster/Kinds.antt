-- ===== src/Fake/Cluster/Kinds.antt =====
-- fake/cluster.go: the map from resources to list kinds, and what `NewFakeCluster` puts in it.
use kube_client.Prelude.{String, true, some, List, [], ◌∷◌, ◌≡◌, refl, if◌then◌else◌, All, arith}
use kube_client.Api.{GroupVersionResource, ApiResource, ApiResourceList, gvr_eq, gvr_eq_iff}
use kube_client.Fake.Machinery.{ListKinds}
use kube_client.Fake.Cluster.{kind_of, set_kind, is_some, gvr_of, add_kinds, list_kinds}

pub kind_of-set_kind :
    (g h : GroupVersionResource) (kind : String) (kinds : ListKinds)
    → kind_of h (set_kind g kind kinds) ≡ (if gvr_eq g h then some kind else kind_of h kinds)
unfolding kind_of set_kind
kind_of-set_kind g h kind [] = refl
kind_of-set_kind g h kind ((i, k) ∷ kinds) =
    ground (arith, gvr_eq_iff g h, gvr_eq_iff i g, gvr_eq_iff i h, kind_of-set_kind g h kind kinds)

-- The dynamic client knows a list kind for the resource.
abbrev pub IsKnown : ListKinds → GroupVersionResource → Type 0
IsKnown kinds g = is_some (kind_of g kinds) ≡ true

pub set_kind-IsKnown :
    (g h : GroupVersionResource) (kind : String) (kinds : ListKinds)
    → IsKnown kinds h
    → IsKnown (set_kind g kind kinds) h
set_kind-IsKnown g h kind kinds k = ground (arith, kind_of-set_kind g h kind kinds)

pub set_kind-IsKnown_self :
    (g : GroupVersionResource) (kind : String) (kinds : ListKinds)
    → IsKnown (set_kind g kind kinds) g
set_kind-IsKnown_self g kind kinds = ground (arith, kind_of-set_kind g g kind kinds, gvr_eq_iff g g)

add_kinds-keeps :
    (rs : List ApiResource) (h : GroupVersionResource) (kinds : ListKinds)
    → IsKnown kinds h
    → IsKnown (add_kinds rs kinds) h
unfolding add_kinds
add_kinds-keeps [] h kinds k = k
add_kinds-keeps (r ∷ rs) h kinds k =
    add_kinds-keeps rs h _ (set_kind-IsKnown (gvr_of r) h _ kinds k)

add_kinds-IsKnown :
    (rs : List ApiResource) (kinds : ListKinds)
    → All (λ r. IsKnown (add_kinds rs kinds) (gvr_of r)) rs
unfolding add_kinds
add_kinds-IsKnown [] kinds = tt
add_kinds-IsKnown (r ∷ rs) kinds = (
  add_kinds-keeps rs (gvr_of r) _ (set_kind-IsKnown_self (gvr_of r) _ kinds),
  add_kinds-IsKnown rs _,
)

list_kinds-keeps :
    (ls : List ApiResourceList) (h : GroupVersionResource) (kinds : ListKinds)
    → IsKnown kinds h
    → IsKnown (list_kinds ls kinds) h
unfolding list_kinds
list_kinds-keeps [] h kinds k = k
list_kinds-keeps (l ∷ ls) h kinds k =
    list_kinds-keeps ls h _ (add_kinds-keeps l.api_resources h kinds k)

pub All-map {ℓ κ μ} :
    {A : Type ℓ} (P : A → Type κ) (Q : A → Type μ)
    → ((a : A) → P a → Q a)
    → (xs : List A) → All P xs
    → All Q xs
All-map P Q f [] h = tt
All-map P Q f (x ∷ xs) h = (f x h.0, All-map P Q f xs h.1)

-- Every resource of the lists is known.
pub list_kinds-IsKnown :
    (ls : List ApiResourceList) (kinds : ListKinds)
    → All (λ l. All (λ r. IsKnown (list_kinds ls kinds) (gvr_of r)) l.api_resources) ls
unfolding list_kinds
list_kinds-IsKnown [] kinds = tt
list_kinds-IsKnown (l ∷ ls) kinds = (
  All-map _ _ (λ r k. list_kinds-keeps ls (gvr_of r) _ k) l.api_resources
      (add_kinds-IsKnown l.api_resources kinds),
  list_kinds-IsKnown ls _,
)
