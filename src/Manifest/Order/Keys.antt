-- ===== src/Manifest/Order/Keys.antt =====
-- The keys of `SplitManifests` in the order of their documents.
use kube_client.Prelude.{
  pos, ℕ, zero, suc, ◌+◌, ◌-◌, ◌*◌, ◌/◌, ◌%◌, ◌≤◌, ◌<◌, true, false, some, List, [], ◌∷◌, ◌++◌, ltb,
  leb, ◌==◌, Text, ◌≡◌, refl, sym, ap, ◌∙◌, arith, append_assoc, append-nil, Bool-cases, inl, inr,
}
use kube_client.Manifest.Split.{digits, digits_on, manifest_key}
use kube_client.Manifest.Order.{parse_uint_on, parse_int, signed, less, get_elem?, drop}

is_leb : (a b : ℕ) → a ≤ b → leb a b ≡ true
is_leb a b h = ground arith

is_not_leb : (a b : ℕ) → b < a → leb a b ≡ false
is_not_leb a b h = ground arith

is_not_ltb : (a b : ℕ) → b ≤ a → ltb a b ≡ false
is_not_ltb a b h = ground arith

parse_uint_on-digit :
    (n d : ℕ) (s : Text)
    → d < 10
    → n * 10 + d < 9223372036854775808
    → parse_uint_on n ((b'0' + d) ∷ s) ≡ parse_uint_on (n * 10 + d) s
unfolding parse_uint_on
parse_uint_on-digit n d s small bound =
    rw
      (
        is_leb 48 (48 + d) (omega arith),
        is_leb (48 + d) 57 (omega (arith, small)),
        is_not_leb 1844674407370955162 n (omega (arith, bound)),
        back,
        is_not_ltb 18446744073709551615 (n * 10 + d) (omega (arith, bound)),
      )
      refl
  where
    back : 48 + d - 48 ≡ d
    back = omega arith

parse_uint_on-digits :
    (fuel n : ℕ) (rest : Text)
    → n < fuel
    → n < 9223372036854775808
    → parse_uint_on 0 (digits_on fuel n ++ rest) ≡ parse_uint_on n rest
unfolding digits_on
parse_uint_on-digits zero n rest h bound = absurd (none_below n h)
  where
    none_below : (n : ℕ) → n < 0 → ⊥
    none_below n h = omega (arith, h)
parse_uint_on-digits (suc fuel) n rest h bound = elim (Bool-cases (ltb n 10)) [
  | inl small ↦ rw small (
      parse_uint_on-digit 0 n rest (ltb-small n small) (omega (arith, bound))
      ∙ ap (λ k. parse_uint_on k rest) (only_digit n))
  | inr big ↦
      rw (big, append_assoc (digits_on fuel (n / 10)) ((b'0' + n % 10) ∷ []) rest)
        (parse_uint_on-digits fuel (n / 10) ((b'0' + n % 10) ∷ rest) (shorter n fuel h big)
            (omega (arith, bound))
          ∙ parse_uint_on-digit (n / 10) (n % 10) rest (omega arith) (omega (arith, bound))
          ∙ ap (λ k. parse_uint_on k rest) (whole n))
]
  where
    ltb-small : (n : ℕ) → ltb n 10 ≡ true → n < 10
    ltb-small n h = ground arith

    only_digit : (n : ℕ) → 0 * 10 + n ≡ n
    only_digit n = omega arith

    shorter : (n fuel : ℕ) → n < suc fuel → ltb n 10 ≡ false → n / 10 < fuel
    shorter n fuel h big = ground arith

    whole : (n : ℕ) → n / 10 * 10 + n % 10 ≡ n
    whole n = omega arith

digits_on-first :
    (fuel n : ℕ)
    → n < fuel
    → (c : ℕ) × (s : Text) × (digits_on fuel n ≡ c ∷ s) × (leb b'0' c ≡ true)
unfolding digits_on
digits_on-first zero n h = absurd (none_below n h)
  where
    none_below : (n : ℕ) → n < 0 → ⊥
    none_below n h = omega (arith, h)
digits_on-first (suc fuel) n h = elim (Bool-cases (ltb n 10)) [
  | inl small ↦ (b'0' + n, [], rw small refl, is_leb 48 (48 + n) (omega arith))
  | inr big ↦
      let (c, s, is, digit) = digits_on-first fuel (n / 10) (shorter n fuel h big) in
      (c, s ++ ((b'0' + n % 10) ∷ []), rw big (ap (λ ds. ds ++ ((b'0' + n % 10) ∷ [])) is), digit)
]
  where
    shorter : (n fuel : ℕ) → n < suc fuel → ltb n 10 ≡ false → n / 10 < fuel
    shorter n fuel h big = ground arith

-- A number that fits 63 bits is read back from its digits.
pub parse_int-digits : (n : ℕ) → n < 9223372036854775808 → parse_int (digits n) ≡ pos n
unfolding digits parse_int parse_uint_on
parse_int-digits n bound =
    let (c, s, is, digit) = digits_on-first (suc n) n (omega arith) in
    ap parse_int is
    ∙ at_digit c s digit
    ∙ ap (λ ds. signed false (parse_uint_on 0 ds)) (sym is)
    ∙ ap (signed false) (
        ap (parse_uint_on 0) (sym (append-nil (digits_on (suc n) n)))
        ∙ parse_uint_on-digits (suc n) n [] (omega arith) bound)
    ∙ in_range n bound
  where
    no_sign : (c sign : ℕ) → leb 48 c ≡ true → sign < 48 → (c == sign) ≡ false
    no_sign c sign h below = ground arith

    at_digit :
        (c : ℕ) (s : Text)
        → leb b'0' c ≡ true
        → parse_int (c ∷ s) ≡ signed false (parse_uint_on 0 (c ∷ s))
    at_digit c s h = rw (no_sign c 43 h (omega arith), no_sign c 45 h (omega arith)) refl

    in_range : (n : ℕ) → n < 9223372036854775808 → signed false (parse_uint_on n []) ≡ pos n
    in_range n bound = rw (is_not_leb 9223372036854775808 n bound) refl

-- `Less` on two keys of `SplitManifests` compares the numbers of their documents, if those are less
-- than 2^63.
pub less-manifest_key :
    (a : List Text) (i j m n : ℕ)
    → m < 9223372036854775808
    → n < 9223372036854775808
    → get_elem? a i ≡ some (manifest_key m)
    → get_elem? a j ≡ some (manifest_key n)
    → less a i j ≡ some (ltb m n)
unfolding less manifest_key drop
less-manifest_key a i j m n hm hn at_i at_j =
    rw (at_i, at_j, parse_int-digits m hm, parse_int-digits n hn) refl
