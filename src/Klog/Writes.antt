-- ===== src/Klog/Writes.antt =====
-- klogtolog/adapter.go: what `Write` logs.
use kube_client.Prelude.{
  ℕ, Bool, true, ◌&&◌, Option, none, some, List, [], ◌∷◌, ◌++◌, ◌==◌, Text, codes, not, ◌≡◌, ◌≢◌,
  refl, sym, ap, ◌∙◌, arith, Option-cases, Bool-cases, inl, inr, if◌then◌else◌, ==_iff,
}
use kube_client.Klog.{
  Groups, info, warn, error, fatal, Entry, Outcome, exited, returned, ending, find_groups, level_of,
  write, entry,
}
use kube_client.Klog.Lines.{is_line, is_number, tail, find_groups-Ends}
use kube_client.Klog.Matches.{klog_line}
use kube_client.Klog.Pinned.{has_no_space, has_no_bracket}
use kube_client.Klog.Captured.{find_groups-klog_line}

-- What a message that begins with the letter c leads to, by the letters of klog: with F the process
-- ends once it is logged, with W and E it is a warning and an error, else it is for information.
abbrev pub logged : ℕ → Option Text → Text → List Entry → Outcome
logged c file message log =
    if c == b'F'
    then exited (log ++ (record { level = fatal; file = file; message = message } ∷ []))
    else if c == b'W'
    then returned 0 (log ++ (record { level = warn; file = file; message = message } ∷ []))
    else if c == b'E'
    then returned 0 (log ++ (record { level = error; file = file; message = message } ∷ []))
    else returned 0 (log ++ (record { level = info; file = file; message = message } ∷ []))

ending-logged :
    (c : ℕ) (file : Option Text) (message : Text) (log : List Entry)
    → ending
        (level_of c)
        (log ++ (record { level = level_of c; file = file; message = message } ∷ []))
      ≡ logged c file message log
unfolding level_of
ending-logged c file message log = elim (Bool-cases (c == b'W')) [
  | inl is_w ↦ rw (is_w, ap (λ n. n == b'F') ((==_iff c b'W').0 is_w)) refl
  | inr not_w ↦ elim (Bool-cases (c == b'E')) [
    | inl is_e ↦ rw (not_w, is_e, ap (λ n. n == b'F') ((==_iff c b'E').0 is_e)) refl
    | inr not_e ↦ elim (Bool-cases (c == b'F')) [
      | inl is_f ↦ rw (not_w, not_e, is_f) refl
      | inr not_f ↦ rw (not_w, not_e, not_f) refl
    ]
  ]
]

-- A line in klog's format: a part that begins with a letter, one behind a space, one behind two
-- spaces, and behind one more the file with its line number, a closing bracket, a space and the
-- text, each part on one line, the file without space, and in the text nowhere a digit, a closing
-- bracket and a space behind each other. `Write` logs the text and, in parentheses, the file with
-- its number, and the latter as the attribute too, in one entry: with the letter F as fatal, and the
-- process ends; else it returns the count 0, and the entry is a warning with W, an error with E and
-- for information with any other letter.
pub write-klog_line :
    (letter : ℕ) (a b c file : Text) (d : ℕ) (ds text : Text) (log : List Entry)
    → is_line (letter ∷ a) ≡ true
    → is_line b ≡ true
    → is_line c ≡ true
    → is_line file ≡ true
    → has_no_space file ≡ true
    → is_number (d ∷ ds) ≡ true
    → is_line text ≡ true
    → has_no_bracket text ≡ true
    → write (klog_line (letter ∷ a) b c file d ds text) log
      ≡ logged letter
          (some (file ++ (d ∷ ds)))
          (text ++ (codes " (" ++ ((file ++ (d ∷ ds)) ++ codes ")")))
          log
unfolding write
write-klog_line letter a b c file d ds text log ha hb hc hf hs hd ht hn =
    let msg = klog_line (letter ∷ a) b c file d ds text in
    ap (λ o. ending (level_of letter) (log ++ (entry (level_of letter) msg o ∷ [])))
      (find_groups-klog_line file d ds text hf hs hd ht hn (letter ∷ a) b c ha hb hc)
    ∙ ending-logged letter _ _ log

is_line-behind : (x y : Text) → is_line (x ++ y) ≡ true → is_line y ≡ true
is_line-behind [] y h = h
is_line-behind (c ∷ x) y h = is_line-behind x y (later (not (c == 10)) (is_line (x ++ y)) h)
  where
    later : (a b : Bool) → (a && b) ≡ true → b ≡ true
    later a b h = ground arith

tail-line : (g : Groups) → is_line (tail g) ≢ true
tail-line g h = newline (
    is_line-behind g.text (10 ∷ [])
      (is_line-behind (b']' ∷ b' ' ∷ []) (g.text ++ (10 ∷ [])) (is_line-behind g.file _ h)))
  where
    newline : is_line (10 ∷ []) ≢ true
    newline e = cc

-- A message that is not empty and has no newline is logged in one entry as it is, without a file:
-- with the first letter F as fatal, and the process ends; else `Write` returns the count 0, and the
-- entry is a warning with W, an error with E and for information with any other letter.
pub write-is_line :
    (c : ℕ) (rest : Text) (log : List Entry)
    → is_line (c ∷ rest) ≡ true
    → write (c ∷ rest) log ≡ logged c none (c ∷ rest) log
unfolding write
write-is_line c rest log h = elim (Option-cases (find_groups (c ∷ rest))) [
  | inl missing ↦
      ap (λ o. ending (level_of c) (log ++ (entry (level_of c) (c ∷ rest) o ∷ []))) missing
      ∙ ending-logged c none (c ∷ rest) log
  | inr (g, found) ↦
      let (before, is) = find_groups-Ends (c ∷ rest) g found in
      absurd (tail-line g (is_line-behind before (tail g) (ap is_line (sym is) ∙ h)))
]
