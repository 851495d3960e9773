-- ===== src/Klog/Pinned.antt =====
-- klogtolog/adapter.go: the place of the bracket in a line that the expression matches.
use mathlib.Core.List.{head-eq_of_cons-eq, tail-eq_of_cons-eq}
use kube_client.Prelude.{
  ℕ, Bool, true, false, ◌&&◌, none, [], ◌∷◌, ◌++◌, ◌==◌, Text, all, not, ◌≡◌, ◌≢◌, refl, sym, ap,
  ◌∙◌, arith, Option-cases, inl, inr, ==_iff,
}
use kube_client.Klog.{file_and_text}
use kube_client.Klog.Lines.{is_digit, closes_number, file_and_text-some}

abbrev pub has_no_space : Text → Bool
has_no_space s = all (λ c. not (c == b' ')) s

abbrev closes : Text → Bool
closes [] = false
closes (c ∷ []) = false
closes (c ∷ d ∷ s) = c == b']' && d == b' '

-- A text in which a digit, a closing bracket and a space nowhere follow each other.
abbrev pub has_no_bracket : Text → Bool
has_no_bracket [] = true
has_no_bracket (c ∷ s) = not (is_digit c && closes s) && has_no_bracket s

pub both_true : (a b : Bool) → (a && b) ≡ true → (a ≡ true) × (b ≡ true)
both_true true b e = (refl, e)
both_true false b e = cc

pub is_false : (a : Bool) → not a ≡ true → a ≡ false
is_false true e = cc
is_false false e = refl

-- A number before a bracket is such a place.
pub ends_nowhere :
    (f r : Text) → closes_number f ≡ true → has_no_bracket (f ++ (b']' ∷ b' ' ∷ r)) ≢ true
ends_nowhere [] r h e = cc
ends_nowhere (c ∷ []) r h e = here (is_digit c) (has_no_bracket (b']' ∷ b' ' ∷ r)) h e
  where
    here : (a b : Bool) → a ≡ true → (not (a && true) && b) ≢ true
    here a b h e = ground arith
ends_nowhere (c ∷ d ∷ f) r h e =
    ends_nowhere (d ∷ f) r h (both_true _ (has_no_bracket ((d ∷ f) ++ (b']' ∷ b' ' ∷ r))) e).1

-- The place of the last bracket p and space q, where no number stands before the two in r'.
module _ (p q : ℕ) (apart : p ≢ q) (no_digit : is_digit q ≡ false) (r r' : Text)
    (nowhere : (f : Text) → closes_number f ≡ true → f ++ (p ∷ q ∷ r) ≢ r') where
  abbrev free : Text → Bool
  free s = all (λ c. not (c == q)) s

  not_free : (x : ℕ) (s : Text) → free (x ∷ s) ≡ true → q ≢ x
  not_free x s h e =
      clash (x == q) (is_false (x == q) (both_true _ (free s) h).0) ((==_iff x q).1 (sym e))
    where
      clash : (b : Bool) → b ≡ false → b ≢ true
      clash true h e = cc
      clash false h e = cc

  behind : (x : ℕ) (s : Text) → free (x ∷ s) ≡ true → free s ≡ true
  behind x s h = (both_true _ (free s) h).1

  digit_q : is_digit q ≢ true
  digit_q h = clash (is_digit q) no_digit h
    where
      clash : (b : Bool) → b ≡ false → b ≢ true
      clash true h e = cc
      clash false h e = cc

  pub unique :
      (f f' : Text)
      → f ++ (p ∷ q ∷ r) ≡ f' ++ (p ∷ q ∷ r')
      → closes_number f ≡ true
      → free f' ≡ true
      → (f ≡ f') × (r ≡ r')
  unique [] f' e h hs = cc
  unique (c ∷ []) [] e h hs = absurd (apart (head-eq_of_cons-eq (tail-eq_of_cons-eq e)))
  unique (c ∷ []) (c' ∷ []) e h hs = (
    ap (λ c. c ∷ []) (head-eq_of_cons-eq e),
    tail-eq_of_cons-eq (tail-eq_of_cons-eq (tail-eq_of_cons-eq e)),
  )
  unique (c ∷ []) (c' ∷ d ∷ []) e h hs =
      absurd (apart (sym (head-eq_of_cons-eq (tail-eq_of_cons-eq (tail-eq_of_cons-eq e)))))
  unique (c ∷ []) (c' ∷ d ∷ x ∷ f') e h hs = absurd (
      not_free x f' (behind d (x ∷ f') (behind c' (d ∷ x ∷ f') hs))
        (head-eq_of_cons-eq (tail-eq_of_cons-eq (tail-eq_of_cons-eq e))))
  unique (c ∷ d ∷ []) [] e h hs =
      absurd (digit_q (ap is_digit (sym (head-eq_of_cons-eq (tail-eq_of_cons-eq e))) ∙ h))
  unique (c ∷ d ∷ x ∷ f) [] e h hs =
      absurd (nowhere (x ∷ f) h (tail-eq_of_cons-eq (tail-eq_of_cons-eq e)))
  unique (c ∷ d ∷ f) (c' ∷ f') e h hs =
      let (same, rest) = unique (d ∷ f) f' (tail-eq_of_cons-eq e) h (behind c' f' hs) in
      ((λ i. head-eq_of_cons-eq e i ∷ same i), rest)

-- No match ends in a text without such a place, and the newline makes none.
pub file_and_text-none : (s : Text) → has_no_bracket s ≡ true → file_and_text s ≡ none
file_and_text-none s h = elim (Option-cases (file_and_text s)) [
  | inl missing ↦ missing
  | inr (g, found) ↦
      let (ends, number) = file_and_text-some s g found in
      absurd (ends_nowhere g.file _ number (ap has_no_bracket (sym ends) ∙ h))
]

closes-newline : (s : Text) → closes s ≡ false → closes (s ++ (10 ∷ [])) ≡ false
closes-newline [] h = refl
closes-newline (c ∷ []) h = last (c == b']')
  where
    last : (b : Bool) → (b && false) ≡ false
    last true = refl
    last false = refl
closes-newline (c ∷ d ∷ s) h = h

pub has_no_bracket-newline :
    (s : Text) → has_no_bracket s ≡ true → has_no_bracket (s ++ (10 ∷ [])) ≡ true
has_no_bracket-newline [] h = refl
has_no_bracket-newline (c ∷ s) h =
    let (here, behind) = both_true _ (has_no_bracket s) h in
    both (is_digit c) (closes s) (closes (s ++ (10 ∷ []))) _ here (closes-newline s)
      (has_no_bracket-newline s behind)
  where
    both :
        (a b b' r : Bool)
        → not (a && b) ≡ true
        → (b ≡ false → b' ≡ false)
        → r ≡ true
        → (not (a && b') && r) ≡ true
    both true true b' r h k e = cc
    both true false b' r h k e = rw (k refl) e
    both false b b' r h k e = e
