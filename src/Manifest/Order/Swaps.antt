-- ===== src/Manifest/Order/Swaps.antt =====
-- What `Swap` does to a list.
use kube_client.Prelude.{
  ℕ, zero, suc, some, List, [], ◌∷◌, Text, ◌≡◌, refl, sym, ap, ◌∙◌, ◌==◌, arith, Bool-cases,
  Option-cases, some_inj, inl, inr, if◌then◌else◌, false,
}
use kube_client.Manifest.Order.{get_elem?, set_at, swap}

not_zero : (k : ℕ) → (suc k == 0) ≡ false
not_zero k = ground arith

zero_not : (i : ℕ) → (0 == suc i) ≡ false
zero_not i = ground arith

both_suc : (k i : ℕ) → (suc k == suc i) ≡ (k == i)
both_suc k i = ground arith

get_elem?-set_at :
    (a : List Text) (i k : ℕ) (x y : Text)
    → get_elem? a i ≡ some x
    → get_elem? (set_at i y a) k ≡ (if k == i then some y else get_elem? a k)
unfolding get_elem? set_at
get_elem?-set_at [] i k x y h = cc
get_elem?-set_at (z ∷ a) zero zero x y h = refl
get_elem?-set_at (z ∷ a) zero (suc k) x y h = rw (not_zero k) refl
get_elem?-set_at (z ∷ a) (suc i) zero x y h = rw (zero_not i) refl
get_elem?-set_at (z ∷ a) (suc i) (suc k) x y h = rw (both_suc k i) (get_elem?-set_at a i k x y h)

-- The index from which `Swap` takes the element.
abbrev pub swapped_index : ℕ → ℕ → ℕ → ℕ
swapped_index i j k = if k == j then i else if k == i then j else k

two_writes :
    (a : List Text) (i j k : ℕ) (x y : Text)
    → get_elem? a i ≡ some x
    → get_elem? a j ≡ some y
    → get_elem? (set_at j x (set_at i y a)) k ≡ get_elem? a (swapped_index i j k)
two_writes a i j k x y at_i at_j =
    get_elem?-set_at (set_at i y a) j k y x (elim (Bool-cases (j == i)) [
      | inl same ↦ get_elem?-set_at a i j x y at_i ∙ (rw same refl)
      | inr other ↦ get_elem?-set_at a i j x y at_i ∙ (rw other at_j)
    ])
    ∙ elim (Bool-cases (k == j)) [
      | inl same ↦ rw same (sym at_i)
      | inr other ↦ rw other (
          get_elem?-set_at a i k x y at_i
          ∙ elim (Bool-cases (k == i)) [ inl same ↦ rw same (sym at_j) | inr away ↦ rw away refl ])
    ]

-- After a `Swap` that does not panic each of the two indices holds what the other held, and every
-- other index what it held.
pub get_elem?-swap :
    (a a' : List Text) (i j k : ℕ)
    → swap a i j ≡ some a'
    → get_elem? a' k ≡ get_elem? a (swapped_index i j k)
unfolding swap
get_elem?-swap a a' i j k h = elim (Option-cases (get_elem? a i)) [
  | inl out ↦ cc (rw out at h)
  | inr (x, at_i) ↦ elim (Option-cases (get_elem? a j)) [
    | inl out ↦ cc (rw (at_i, out) at h)
    | inr (y, at_j) ↦
        ap (λ l. get_elem? l k) (sym (some_inj (rw (at_i, at_j) at h)))
        ∙ two_writes a i j k x y at_i at_j
  ]
]
