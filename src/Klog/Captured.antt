-- ===== src/Klog/Captured.antt =====
-- klogtolog/adapter.go: what the expression captures of a line in klog's format.
use mathlib.Core.List.{head-eq_of_cons-eq, tail-eq_of_cons-eq}
use kube_client.Prelude.{
  ℕ, true, false, ◌&&◌, Option, none, some, [], ◌∷◌, ◌++◌, ◌==◌, leb, Text, ◌≡◌, ◌⊎◌, refl, sym, ap,
  ◌∙◌, arith, Bool-cases, Option-cases, inl, inr, append_assoc,
}
use kube_client.Klog.{Groups, Behind, or_shorter, dots, char, file_and_text, find_groups}
use kube_client.Klog.Lines.{is_line, is_number, file_and_text-some}
use kube_client.Klog.Matches.{klog_line, find_groups-finds, file_and_text-finds, is_line-cons}
use kube_client.Klog.Pinned.{
  has_no_space, has_no_bracket, ends_nowhere, unique, file_and_text-none, has_no_bracket-newline,
  both_true, is_false,
}

-- A property of a text and of all that stands behind a part of it.
abbrev Every : (Text → Type 0) → Text → Type 0
Every P [] = P []
Every P (c ∷ s) = P (c ∷ s) × Every P s

head_of : (P : Text → Type 0) (s : Text) → Every P s → P s
head_of P [] h = h
head_of P (c ∷ s) h = h.0

module _ (g : Groups) where
  -- No match, or the one that captures g.
  abbrev AtMost : Option Groups → Type 0
  AtMost o = (o ≡ none) ⊎ (o ≡ some g)

  or_shorter-AtMost : (a b : Option Groups) → AtMost a → AtMost b → AtMost (or_shorter a b)
  or_shorter-AtMost none b (inl h) k = k
  or_shorter-AtMost none b (inr h) k = k
  or_shorter-AtMost (some g') b (inl h) k = inl h
  or_shorter-AtMost (some g') b (inr h) k = inr h

  dots-AtMost :
      (next : Behind) (s : Text)
      → Every (λ s. AtMost (next s)) s
      → Every (λ s. AtMost (dots (λ taken. next) s)) s
  unfolding dots
  dots-AtMost next [] h = h
  dots-AtMost next (c ∷ s) h =
      let later = dots-AtMost next s h.1 in
      (
        elim (Bool-cases (c == 10)) [
          | inl newline ↦ rw newline h.0
          | inr other ↦ rw other (
              or_shorter-AtMost (dots (λ taken. next) s) (next (c ∷ s))
                (head_of (λ s. AtMost (dots (λ taken. next) s)) s later) h.0)
        ],
        later,
      )

  char-AtMost :
      (d : ℕ) (next : Behind) (s : Text)
      → Every (λ s. AtMost (next s)) s
      → Every (λ s. AtMost (char d next s)) s
  unfolding char
  char-AtMost d next [] h = inl refl
  char-AtMost d next (c ∷ s) h = (
    elim (Bool-cases (c == d)) [
      | inl same ↦ rw same (head_of (λ s. AtMost (next s)) s h.1)
      | inr other ↦ rw other (inl refl)
    ],
    char-AtMost d next s h.1,
  )

dots-none :
    (next : Behind) (s : Text)
    → Every (λ s. next s ≡ none) s
    → Every (λ s. dots (λ taken. next) s ≡ none) s
unfolding dots
dots-none next [] h = h
dots-none next (c ∷ s) h =
    let later = dots-none next s h.1 in
    (
      elim (Bool-cases (c == 10)) [
        | inl newline ↦ rw newline h.0
        | inr other ↦ rw (other, head_of (λ s. dots (λ taken. next) s ≡ none) s later) h.0
      ],
      later,
    )

-- The longest part is taken.
dots-longest :
    (next : Behind) (u rest : Text) (g : Groups)
    → is_line u ≡ true
    → dots (λ taken. next) rest ≡ some g
    → dots (λ taken. next) (u ++ rest) ≡ some g
unfolding dots
dots-longest next [] rest g h found = found
dots-longest next (c ∷ u) rest g h found =
    let (other, line) = is_line-cons c u h in rw (other, dots-longest next u rest g line found) refl

abbrev file_behind : Behind
file_behind = char b' ' file_and_text

-- What begins at a space.
at_space : (c : ℕ) (s : Text) → file_and_text s ≡ none → file_behind (c ∷ s) ≡ none
unfolding char
at_space c s h = elim (Bool-cases (c == b' ')) [ inl same ↦ rw same h | inr other ↦ rw other refl ]

in_text : (s : Text) → has_no_bracket s ≡ true → Every (λ s. file_behind s ≡ none) s
unfolding char
in_text [] h = refl
in_text (c ∷ s) h =
    let later = (both_true _ (has_no_bracket s) h).1 in
    (at_space c s (file_and_text-none s later), in_text s later)

no_space_first : (c : ℕ) (s : Text) → (c == b' ') ≡ false → file_behind (c ∷ s) ≡ none
unfolding char
no_space_first c s h = rw h refl

in_file :
    (f s : Text)
    → has_no_space f ≡ true
    → Every (λ s. file_behind s ≡ none) s
    → Every (λ s. file_behind s ≡ none) (f ++ s)
in_file [] s h k = k
in_file (c ∷ f) s h k =
    let (here, later) = both_true _ (has_no_space f) h in
    (no_space_first c (f ++ s) (is_false (c == b' ') here), in_file f s later k)

is_number-has_no_space : (s : Text) → is_number s ≡ true → has_no_space s ≡ true
is_number-has_no_space [] h = refl
is_number-has_no_space (c ∷ s) h =
    let (here, later) = both_true _ (is_number s) h in
    rw (digit c here, is_number-has_no_space s later) refl
  where
    digit : (c : ℕ) → (leb b'0' c && leb c b'9') ≡ true → (c == b' ') ≡ false
    digit c h = ground arith

Every-inl :
    (g : Groups) (f : Text → Option Groups) (s : Text)
    → Every (λ s. f s ≡ none) s
    → Every (λ s. AtMost g (f s)) s
Every-inl g f [] h = inl h
Every-inl g f (c ∷ s) h = (inl h.0, Every-inl g f s h.1)

snoc_inj : (x : ℕ) (a b : Text) → a ++ (x ∷ []) ≡ b ++ (x ∷ []) → a ≡ b
snoc_inj x [] [] e = refl
snoc_inj x [] (d ∷ []) e = cc
snoc_inj x [] (d ∷ d' ∷ b) e = cc
snoc_inj x (c ∷ []) [] e = cc
snoc_inj x (c ∷ c' ∷ a) [] e = cc
snoc_inj x (c ∷ a) (d ∷ b) e =
    let same = snoc_inj x a b (tail-eq_of_cons-eq e) in λ i. head-eq_of_cons-eq e i ∷ same i

module _ (file : Text) (d : ℕ) (ds text : Text) (file_line : is_line file ≡ true)
    (file_space : has_no_space file ≡ true) (number : is_number (d ∷ ds) ≡ true)
    (text_line : is_line text ≡ true) (text_bracket : has_no_bracket text ≡ true) where
  abbrev captured : Groups
  captured = record { file = file ++ (d ∷ ds); text = text }

  abbrev behind_bracket : Text
  behind_bracket = b']' ∷ b' ' ∷ (text ++ (10 ∷ []))

  abbrev line : Text
  line = file ++ (d ∷ (ds ++ behind_bracket))

  has_no_space-append :
      (s t : Text) → has_no_space s ≡ true → has_no_space t ≡ true → has_no_space (s ++ t) ≡ true
  has_no_space-append [] t h k = k
  has_no_space-append (c ∷ s) t h k =
      let (here, later) = both_true _ (has_no_space s) h in
      rw (here, has_no_space-append s t later k) refl

  file_and_text-line : file_and_text line ≡ some captured
  file_and_text-line = elim (Option-cases (file_and_text line)) [
    | inl missing ↦ absurd (file_and_text-finds file d ds text file_line number text_line missing)
    | inr (g, found) ↦
        let (ends, closed) = file_and_text-some line g found in
        let (same_file, same_text) =
          unique b']' b' ' (λ e. omega (arith, e)) refl (g.text ++ (10 ∷ [])) (text ++ (10 ∷ []))
            (λ f h e.
              ends_nowhere f _ h (ap has_no_bracket e ∙ has_no_bracket-newline text text_bracket))
            g.file (file ++ (d ∷ ds)) (sym ends ∙ sym (append_assoc file (d ∷ ds) behind_bracket))
            closed
            (has_no_space-append file (d ∷ ds) file_space
              (is_number-has_no_space (d ∷ ds) number)) in
        found
        ∙ ap some (λ i. record { file = same_file i; text = snoc_inj 10 g.text text same_text i })
  ]

  line-none : Every (λ s. file_behind s ≡ none) line
  line-none = in_file file (d ∷ (ds ++ behind_bracket)) file_space (
      in_file (d ∷ ds) behind_bracket (is_number-has_no_space (d ∷ ds) number) (
        no_space_first b']' _ refl,
        (
          at_space b' ' (text ++ (10 ∷ []))
              (file_and_text-none (text ++ (10 ∷ [])) (has_no_bracket-newline text text_bracket)),
          in_text (text ++ (10 ∷ [])) (has_no_bracket-newline text text_bracket),
        ),
      ))

  -- The third part of the expression leaves the file to the group, here and further on.
  abbrev Found : Text → Type 0
  Found s =
      (dots (λ taken. file_behind) s ≡ some captured)
      × Every (λ s. AtMost captured (dots (λ taken. file_behind) s)) s

  line-Found : Found (b' ' ∷ line)
  unfolding dots char
  line-Found =
      let none_behind = dots-none file_behind line line-none in
      let found : dots (λ taken. file_behind) (b' ' ∷ line) ≡ some captured =
        rw (head_of (λ s. dots (λ taken. file_behind) s ≡ none) line none_behind)
          file_and_text-line in
      (found, (inr found, Every-inl captured (dots (λ taken. file_behind)) line none_behind))

  before-Found : (u s : Text) → is_line u ≡ true → Found s → Found (u ++ s)
  before-Found [] s h k = k
  before-Found (c ∷ u) s h (found, every) =
      let longer = dots-longest file_behind (c ∷ u) s captured h found in
      (longer, (inr longer, (before-Found u s (is_line-cons c u h).1 (found, every)).1))

  -- The groups of a line in klog's format.
  pub find_groups-klog_line :
      (a b c : Text)
      → is_line a ≡ true
      → is_line b ≡ true
      → is_line c ≡ true
      → find_groups (klog_line a b c file d ds text) ≡ some captured
  unfolding find_groups
  find_groups-klog_line a b c ha hb hc =
      let msg = klog_line a b c file d ds text in
      let found : Found msg = before-Found a _ ha (
        before-Found (b' ' ∷ []) _ refl (
          before-Found b _ hb
            (before-Found (b' ' ∷ b' ' ∷ []) _ refl (before-Found c _ hc line-Found)))) in
      let third = dots (λ taken. file_behind) in
      let second = dots (λ taken. char b' ' (char b' ' third)) in
      let every = dots-AtMost captured (char b' ' second) msg (
        char-AtMost captured b' ' second msg (
          dots-AtMost captured (char b' ' (char b' ' third)) msg (
            char-AtMost captured b' ' (char b' ' third) msg
              (char-AtMost captured b' ' third msg found.1)))) in
      elim (head_of (λ s. AtMost captured (dots (λ taken. char b' ' second) s)) msg every) [
        | inl missing ↦
            absurd
              (find_groups-finds a b c file d ds text ha hb hc file_line number text_line missing)
        | inr matched ↦ matched
      ]
