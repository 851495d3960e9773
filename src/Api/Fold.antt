-- ===== src/Api/Fold.antt =====
-- The case-insensitive comparisons of Go's `strings` package. ASCII is written out; what Unicode
-- adds comes from tables of the standard library, taken as a value of `Unicode`.
use kube_client.Prelude.{
  ℕ, ◌+◌, String, Bool, true, false, ◌&&◌, ◌||◌, [], ◌∷◌, map, ◌≡◌, ◌↔◌, ltb, leb, ◌==◌,
  if◌then◌else◌, codes, Text, arith,
}

-- `unicode.ToLower`, and whether two runes are in one orbit of `unicode.SimpleFold`
pub record Unicode : Type 0 where
  pub lower : ℕ → ℕ
  pub same_fold : ℕ → ℕ → Bool

unfoldable pub ascii_lower : ℕ → ℕ
ascii_lower c = if leb b'A' c && leb c b'Z' then c + 32 else c

unfoldable pub lower_rune : Unicode → ℕ → ℕ
unfolding ascii_lower
lower_rune u c = if ltb c 128 then ascii_lower c else u.lower c

-- `strings.ToLower`
unfoldable pub to_lower : Unicode → String → Text
unfolding lower_rune
to_lower u s = map (lower_rune u) (codes s)

unfoldable pub same_rune : Unicode → ℕ → ℕ → Bool
unfolding ascii_lower
same_rune u a b =
    if ltb a 128 && ltb b 128 then ascii_lower a == ascii_lower b else a == b || u.same_fold a b

unfoldable pub same_runes : Unicode → Text → Text → Bool
unfolding same_rune
same_runes u [] [] = true
same_runes u (a ∷ s) (b ∷ t) = same_rune u a b && same_runes u s t
same_runes u _ _ = false

-- `strings.EqualFold`
unfoldable pub equal_fold : Unicode → String → String → Bool
unfolding same_runes
equal_fold u s t = same_runes u (codes s) (codes t)

unfoldable pub text_eq : Text → Text → Bool
text_eq [] [] = true
text_eq (a ∷ s) (b ∷ t) = a == b && text_eq s t
text_eq _ _ = false

pub text_eq_iff : (s t : Text) → (text_eq s t ≡ true) ↔ (s ≡ t)
unfolding text_eq
text_eq_iff [] [] = ground arith
text_eq_iff (a ∷ s) [] = ground arith
text_eq_iff [] (b ∷ t) = ground arith
text_eq_iff (a ∷ s) (b ∷ t) = ground (arith, text_eq_iff s t)
