-- ===== src/Klog.antt =====
-- klogtolog/adapter.go: the writer that turns lines of klog into entries of the log.
pub mod Lines
pub mod Matches
pub mod Pinned
pub mod Captured
pub mod Writes
mod Tests
use kube_client.Prelude.{
  ℕ, Bool, true, false, ◌&&◌, Option, none, some, List, [], ◌∷◌, ◌++◌, ◌==◌, leb, if◌then◌else◌,
  Text, codes,
}

-- What a match of the expression captures: the file with its line, and the text.
pub record Groups : Type 0 where
  pub file : Text
  pub text : Text

-- A match of a part of the expression at a text: what follows it gets what the part took and the
-- text behind it, and the first way that works out counts.
abbrev pub Behind : Type 0
Behind = Text → Option Groups

abbrev pub or_shorter : Option Groups → Option Groups → Option Groups
or_shorter (some g) _ = some g
or_shorter none shorter = shorter

-- `.*`, greedy; a dot matches no newline
unfoldable pub dots : (Text → Behind) → Behind
dots next [] = next [] []
dots next (c ∷ s) =
    let longer = dots (λ taken. next (c ∷ taken)) s in
    if c == 10 then next [] (c ∷ s) else or_shorter longer (next [] (c ∷ s))

-- `\d+`, greedy
unfoldable pub digits_of : (Text → Behind) → Behind
digits_of next [] = none
digits_of next (c ∷ s) =
    let longer = digits_of (λ taken. next (c ∷ taken)) s in
    if leb b'0' c && leb c b'9' then or_shorter longer (next (c ∷ []) s) else none

-- A character that stands for itself.
unfoldable pub char : ℕ → Behind → Behind
char c next [] = none
char c next (d ∷ s) = if d == c then next s else none

-- `$`
unfoldable pub at_end : Groups → Behind
at_end g [] = some g
at_end g (c ∷ s) = none

-- `(.*)\n$` behind the file
unfoldable pub rest_of_line : Text → Behind
unfolding dots char at_end
rest_of_line file s = dots (λ text. char 10 (at_end (record { file = file; text = text }))) s

-- `(.*\d+)\] (.*)\n$`
unfoldable pub file_and_text : Behind
unfolding dots digits_of char
file_and_text s =
    dots (λ start. digits_of (λ line. char b']' (char b' ' (rest_of_line (start ++ line))))) s

-- `klogRe`, `^.* .*  .* (.*\d+)\] (.*)\n$`, by `FindStringSubmatch`
unfoldable pub find_groups : Behind
unfolding dots char
find_groups s =
    dots (λ a. char b' ' (dots (λ b. char b' ' (char b' ' (dots (λ c. char b' ' file_and_text))))))
      s

pub data Level : Type 0 where
  info : Level
  warn : Level
  error : Level
  fatal : Level

pub record Entry : Type 0 where
  pub level : Level
  pub file : Option Text
  pub message : Text

unfoldable pub level_of : ℕ → Level
level_of c =
    if c == b'W' then warn else if c == b'E' then error else if c == b'F' then fatal else info

abbrev pub entry : Level → Text → Option Groups → Entry
entry level msg none = record { level = level; file = none; message = msg }
entry level msg (some g) = record {
  level = level;
  file = some g.file;
  message = g.text ++ (codes " (" ++ (g.file ++ codes ")"));
}

-- How a call of `Write` ends: with the panic of `msg[0]` on an empty message, with the end of the
-- process, which `Fatal` brings about once it has logged, or with the count that it returns.
pub data Outcome : Type 0 where
  panicked : Outcome
  exited : (log : List Entry) → Outcome
  returned : (count : ℕ) (log : List Entry) → Outcome

abbrev pub ending : Level → List Entry → Outcome
ending fatal log = exited log
ending info log = returned 0 log
ending warn log = returned 0 log
ending error log = returned 0 log

-- `Write` on a message and the log so far
unfoldable pub write : Text → List Entry → Outcome
unfolding find_groups level_of
write [] log = panicked
write (c ∷ msg) log =
    ending (level_of c) (log ++ (entry (level_of c) (c ∷ msg) (find_groups (c ∷ msg)) ∷ []))
