-- ===== src/Klog/Lines.antt =====
-- klogtolog/adapter.go: what a match of the expression captures, and where it stands.
use kube_client.Prelude.{
  ℕ, Bool, true, false, ◌&&◌, some, [], ◌∷◌, ◌++◌, ◌==◌, leb, Text, all, not, ◌≡◌, refl, sym, ap,
  ◌∙◌, Bool-cases, Option-cases, inl, inr, some_inj, append_assoc, ==_iff,
}
use kube_client.Klog.{
  Groups, Behind, dots, digits_of, char, at_end, rest_of_line, file_and_text, find_groups,
}

-- A text on one line.
abbrev pub is_line : Text → Bool
is_line s = all (λ c. not (c == 10)) s

abbrev pub is_number : Text → Bool
is_number s = all (λ c. leb b'0' c && leb c b'9') s

abbrev pub is_digit : ℕ → Bool
is_digit c = leb b'0' c && leb c b'9'

-- A text that ends in a digit.
abbrev pub closes_number : Text → Bool
closes_number [] = false
closes_number (c ∷ []) = is_digit c
closes_number (c ∷ d ∷ s) = closes_number (d ∷ s)

closes_number-cons : (c : ℕ) (s : Text) → closes_number s ≡ true → closes_number (c ∷ s) ≡ true
closes_number-cons c [] h = cc
closes_number-cons c (d ∷ s) h = h

closes_number-append : (s t : Text) → closes_number t ≡ true → closes_number (s ++ t) ≡ true
closes_number-append [] t h = h
closes_number-append (c ∷ s) t h = closes_number-cons c (s ++ t) (closes_number-append s t h)

-- What follows some part of the text.
dots-some :
    (next : Text → Behind) (s : Text) (g : Groups)
    → dots next s ≡ some g
    → (taken : Text) × (rest : Text) × (s ≡ taken ++ rest) × (next taken rest ≡ some g)
unfolding dots
dots-some next [] g h = ([], [], refl, h)
dots-some next (c ∷ s) g h = elim (Bool-cases (c == 10)) [
  | inl newline ↦ ([], c ∷ s, refl, rw newline at h)
  | inr other ↦ elim (Option-cases (dots (λ taken. next (c ∷ taken)) s)) [
    | inl shorter ↦ ([], c ∷ s, refl, rw (other, shorter) at h)
    | inr (g', longer) ↦
        let (taken, rest, is, found) = dots-some (λ taken. next (c ∷ taken)) s g' longer in
        (c ∷ taken, rest, ap (λ t. c ∷ t) is, found ∙ (rw (other, longer) at h))
  ]
]

digits_of-some :
    (next : Text → Behind) (s : Text) (g : Groups)
    → digits_of next s ≡ some g
    → (taken : Text) × (rest : Text) × (s ≡ taken ++ rest)
      × (next taken rest ≡ some g)
      × (closes_number taken ≡ true)
unfolding digits_of
digits_of-some next [] g h = cc
digits_of-some next (c ∷ s) g h = elim (Bool-cases (leb b'0' c && leb c b'9')) [
  | inr other ↦ cc (rw other at h)
  | inl digit ↦ elim (Option-cases (digits_of (λ taken. next (c ∷ taken)) s)) [
    | inl shorter ↦ (c ∷ [], s, refl, rw (digit, shorter) at h, digit)
    | inr (g', longer) ↦
        let (taken, rest, is, found, number) =
          digits_of-some (λ taken. next (c ∷ taken)) s g' longer in
        (
          c ∷ taken,
          rest,
          ap (λ t. c ∷ t) is,
          found ∙ (rw (digit, longer) at h),
          closes_number-cons c taken number,
        )
  ]
]

char-some :
    (c : ℕ) (next : Behind) (s : Text) (g : Groups)
    → char c next s ≡ some g
    → (rest : Text) × (s ≡ c ∷ rest) × (next rest ≡ some g)
unfolding char
char-some c next [] g h = cc
char-some c next (d ∷ s) g h = elim (Bool-cases (d == c)) [
  | inl same ↦ (s, ap (λ e. e ∷ s) ((==_iff d c).0 same), rw same at h)
  | inr other ↦ cc (rw other at h)
]

-- What a match captures stands at the end of the line.
abbrev pub tail : Groups → Text
tail g = g.file ++ (b']' ∷ b' ' ∷ (g.text ++ (10 ∷ [])))

abbrev pub Ends : Groups → Text → Type 0
Ends g s = (before : Text) × (s ≡ before ++ tail g)

dots-Ends :
    (next : Text → Behind) (s : Text) (g : Groups)
    → ((taken rest : Text) → next taken rest ≡ some g → Ends g rest)
    → dots next s ≡ some g
    → Ends g s
dots-Ends next s g later h =
    let (taken, rest, is, found) = dots-some next s g h in
    let (before, ends) = later taken rest found in
    (taken ++ before, is ∙ ap (λ t. taken ++ t) ends ∙ sym (append_assoc taken before (tail g)))

char-Ends :
    (c : ℕ) (next : Behind) (s : Text) (g : Groups)
    → ((rest : Text) → next rest ≡ some g → Ends g rest)
    → char c next s ≡ some g
    → Ends g s
char-Ends c next s g later h =
    let (rest, is, found) = char-some c next s g h in
    let (before, ends) = later rest found in (c ∷ before, is ∙ ap (λ t. c ∷ t) ends)

at_end-some : (g' g : Groups) (s : Text) → at_end g' s ≡ some g → (s ≡ []) × (g' ≡ g)
unfolding at_end
at_end-some g' g [] h = (refl, some_inj h)
at_end-some g' g (c ∷ s) h = cc

rest_of_line-some :
    (file s : Text) (g : Groups)
    → rest_of_line file s ≡ some g
    → (file ≡ g.file) × (s ≡ g.text ++ (10 ∷ []))
unfolding rest_of_line
rest_of_line-some file s g h =
    let (text, s1, is, h1) = dots-some _ s g h in
    let (s2, is1, h2) = char-some 10 _ s1 g h1 in
    let (ends, same) = at_end-some (record { file = file; text = text }) g s2 h2 in
    (
      ap (λ g. g.file) same,
      is ∙ ap (λ t. text ++ t) (is1 ∙ ap (λ t. 10 ∷ t) ends) ∙ ap (λ g. g.text ++ (10 ∷ [])) same,
    )

-- What is captured around the last bracket, and that the file ends in a digit.
behind_start :
    (start s : Text) (g : Groups)
    → digits_of (λ line. char b']' (char b' ' (rest_of_line (start ++ line)))) s ≡ some g
    → (start ++ s ≡ tail g) × (closes_number g.file ≡ true)
behind_start start s g h =
    let (line, s1, is, h1, number) = digits_of-some _ s g h in
    let (s2, is1, h2) = char-some b']' _ s1 g h1 in
    let (s3, is2, h3) = char-some b' ' _ s2 g h2 in
    let (file, text) = rest_of_line-some (start ++ line) s3 g h3 in
    (
      ap (λ t. start ++ t) (is ∙ ap (λ t. line ++ t) (is1 ∙ ap (λ t. b']' ∷ t) is2))
          ∙ sym (append_assoc start line (b']' ∷ b' ' ∷ s3))
          ∙ ap (λ f. f ++ (b']' ∷ b' ' ∷ s3)) file
          ∙ ap (λ t. g.file ++ (b']' ∷ b' ' ∷ t)) text,
      ap closes_number (sym file) ∙ closes_number-append start line number,
    )

pub file_and_text-some :
    (s : Text) (g : Groups)
    → file_and_text s ≡ some g
    → (s ≡ tail g) × (closes_number g.file ≡ true)
unfolding file_and_text
file_and_text-some s g h =
    let (start, rest, is, found) = dots-some _ s g h in
    let (ends, number) = behind_start start rest g found in (is ∙ ends, number)

file_and_text-Ends : (s : Text) (g : Groups) → file_and_text s ≡ some g → Ends g s
file_and_text-Ends s g h = ([], (file_and_text-some s g h).0)

pub find_groups-Ends : (s : Text) (g : Groups) → find_groups s ≡ some g → Ends g s
unfolding find_groups
find_groups-Ends s g h = dots-Ends _ s g first h
  where
    third : (c rest : Text) → char b' ' file_and_text rest ≡ some g → Ends g rest
    third c rest h = char-Ends b' ' file_and_text rest g (λ s h. file_and_text-Ends s g h) h

    second :
        (b rest : Text)
        → char b' ' (char b' ' (dots (λ c. char b' ' file_and_text))) rest ≡ some g
        → Ends g rest
    second b rest h =
        char-Ends b' ' _ rest g (λ s h. char-Ends b' ' _ s g (λ s h. dots-Ends _ s g third h) h) h

    first :
        (a rest : Text)
        → char b' ' (dots (λ b. char b' ' (char b' ' (dots (λ c. char b' ' file_and_text))))) rest
          ≡ some g
        → Ends g rest
    first a rest h = char-Ends b' ' _ rest g (λ s h. dots-Ends _ s g second h) h
