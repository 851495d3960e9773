-- ===== src/Klog/Matches.antt =====
-- klogtolog/adapter.go: lines in klog's format against the expression.
use kube_client.Prelude.{
  ℕ, Bool, true, false, ◌&&◌, Option, none, some, [], ◌∷◌, ◌++◌, ◌==◌, leb, Text, not, ◌≡◌, ◌≢◌,
  refl, arith, Bool-cases, inl, inr,
}
use kube_client.Klog.{
  Groups, Behind, or_shorter, dots, digits_of, char, at_end, rest_of_line, file_and_text,
  find_groups,
}
use kube_client.Klog.Lines.{is_line, is_number}

or_shorter-none : (a b : Option Groups) → or_shorter a b ≡ none → (a ≡ none) × (b ≡ none)
or_shorter-none none b h = (refl, h)
or_shorter-none (some g) b h = cc

pub is_line-cons :
    (c : ℕ) (s : Text) → is_line (c ∷ s) ≡ true → ((c == 10) ≡ false) × (is_line s ≡ true)
is_line-cons c s h = both (c == 10) (is_line s) h
  where
    both : (a b : Bool) → (not a && b) ≡ true → (a ≡ false) × (b ≡ true)
    both true b e = cc
    both false b e = (refl, e)

dots-finds :
    (next : Text → Behind) (taken rest : Text)
    → is_line taken ≡ true
    → next taken rest ≢ none
    → dots next (taken ++ rest) ≢ none
unfolding dots
dots-finds next [] [] h found e = found e
dots-finds next [] (c ∷ s) h found e = elim (Bool-cases (c == 10)) [
  | inl newline ↦ found (rw newline at e)
  | inr other ↦ found (or_shorter-none _ _ (rw other at e)).1
]
dots-finds next (c ∷ taken) rest h found e =
    let (other, line) = is_line-cons c taken h in
    dots-finds (λ t. next (c ∷ t)) taken rest line found (or_shorter-none _ _ (rw other at e)).0

is_number-cons :
    (d : ℕ) (ds : Text)
    → is_number (d ∷ ds) ≡ true
    → ((leb b'0' d && leb d b'9') ≡ true) × (is_number ds ≡ true)
is_number-cons d ds h = both (leb b'0' d && leb d b'9') (is_number ds) h
  where
    both : (a b : Bool) → (a && b) ≡ true → (a ≡ true) × (b ≡ true)
    both true b e = (refl, e)
    both false b e = cc

digits_of-finds :
    (next : Text → Behind) (d : ℕ) (ds rest : Text)
    → is_number (d ∷ ds) ≡ true
    → next (d ∷ ds) rest ≢ none
    → digits_of next (d ∷ (ds ++ rest)) ≢ none
unfolding digits_of
digits_of-finds next d [] rest h found e =
    found (or_shorter-none _ _ (rw (is_number-cons d [] h).0 at e)).1
digits_of-finds next d (e1 ∷ es) rest h found e =
    let (digit, more) = is_number-cons d (e1 ∷ es) h in
    digits_of-finds (λ taken. next (d ∷ taken)) e1 es rest more found
      (or_shorter-none _ _ (rw digit at e)).0

char-finds : (c : ℕ) (next : Behind) (s : Text) → next s ≢ none → char c next (c ∷ s) ≢ none
unfolding char
char-finds c next s found e = found (rw (same c) at e)
  where
    same : (c : ℕ) → (c == c) ≡ true
    same c = ground arith

-- A line in klog's format: date, time, thread, the file with the line's number, and the text.
abbrev pub klog_line : Text → Text → Text → Text → ℕ → Text → Text → Text
klog_line a b c file d ds text =
    a
    ++ (b' '
        ∷ (b
            ++ (b' '
                ∷ b' '
                ∷ (c ++ (b' ' ∷ (file ++ (d ∷ (ds ++ (b']' ∷ b' ' ∷ (text ++ (10 ∷ [])))))))))))

pub file_and_text-finds :
    (file : Text) (d : ℕ) (ds text : Text)
    → is_line file ≡ true
    → is_number (d ∷ ds) ≡ true
    → is_line text ≡ true
    → file_and_text (file ++ (d ∷ (ds ++ (b']' ∷ b' ' ∷ (text ++ (10 ∷ [])))))) ≢ none
unfolding file_and_text rest_of_line at_end
file_and_text-finds file d ds text hf hd ht =
    dots-finds (λ start. digits_of (λ line. char b']' (char b' ' (rest_of_line (start ++ line)))))
      file (d ∷ (ds ++ (b']' ∷ b' ' ∷ (text ++ (10 ∷ []))))) hf
      (digits_of-finds (λ line. char b']' (char b' ' (rest_of_line (file ++ line)))) d ds
        (b']' ∷ b' ' ∷ (text ++ (10 ∷ []))) hd
        (char-finds b']' (char b' ' (rest_of_line (file ++ (d ∷ ds)))) (b' ' ∷ (text ++ (10 ∷ [])))
          (char-finds b' ' (rest_of_line (file ++ (d ∷ ds))) (text ++ (10 ∷ [])) (
            dots-finds (λ t. char 10 (at_end (record { file = file ++ (d ∷ ds); text = t }))) text
              (10 ∷ []) ht
              (char-finds 10 (at_end (record { file = file ++ (d ∷ ds); text = text })) []
                (λ e. ends (record { file = file ++ (d ∷ ds); text = text }) e))))))
  where
    ends : (g : Groups) → some g ≢ none
    ends g e = cc

pub find_groups-finds :
    (a b c file : Text) (d : ℕ) (ds text : Text)
    → is_line a ≡ true
    → is_line b ≡ true
    → is_line c ≡ true
    → is_line file ≡ true
    → is_number (d ∷ ds) ≡ true
    → is_line text ≡ true
    → find_groups (klog_line a b c file d ds text) ≢ none
unfolding find_groups
find_groups-finds a b c file d ds text ha hb hc hf hd ht =
    let line = file ++ (d ∷ (ds ++ (b']' ∷ b' ' ∷ (text ++ (10 ∷ []))))) in
    let third : Text → Behind = λ c. char b' ' file_and_text in
    let second : Text → Behind = λ b. char b' ' (char b' ' (dots third)) in
    let after_c = b' ' ∷ line in
    let from_c = c ++ after_c in
    let after_b = b' ' ∷ b' ' ∷ from_c in
    let from_b = b ++ after_b in
    dots-finds (λ a. char b' ' (dots second)) a (b' ' ∷ from_b) ha
      (char-finds b' ' (dots second) from_b (
        dots-finds second b after_b hb (
          char-finds b' ' (char b' ' (dots third)) (b' ' ∷ from_c) (
            char-finds b' ' (dots third) from_c (
              dots-finds third c after_c hc (
                char-finds b' ' file_and_text line
                  (file_and_text-finds file d ds text hf hd ht)))))))
