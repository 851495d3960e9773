-- ===== src/Manifest/Split.antt =====
-- manifest/releaseutil/manifest.go: `SplitManifests` cuts a stream of YAML documents at its
-- separators.
pub mod Join
pub mod Rejoin
mod Tests
use kube_client.Prelude.{
  ℕ, suc, ◌+◌, Bool, true, false, ◌||◌, ◌&&◌, Option, none, some, List, [], ◌∷◌, ◌++◌, map, leb,
  ◌==◌, if◌then◌else◌, Text, codes, length, zero, ltb, ◌/◌, ◌%◌,
}

-- The decimal digits of `%d`. A number has no more digits than its value plus one.
unfoldable pub digits_on : ℕ → ℕ → Text
digits_on zero n = []
digits_on (suc fuel) n =
    let higher = digits_on fuel (n / 10) in
    if ltb n 10 then (b'0' + n) ∷ [] else higher ++ ((b'0' + n % 10) ∷ [])

unfoldable pub digits : ℕ → Text
unfolding digits_on
digits n = digits_on (suc n) n

abbrev pub prefix : Text
prefix = codes "manifest-"

-- `fmt.Sprintf("manifest-%d", count)`
unfoldable pub manifest_key : ℕ → Text
unfolding digits
manifest_key count = prefix ++ digits count

-- `\s` of a Go regular expression
unfoldable pub is_re_space : ℕ → Bool
is_re_space c = c == 9 || (c == 10 || (c == 12 || (c == 13 || c == 32)))

-- `unicode.IsSpace`, by which `strings.TrimSpace` trims
unfoldable pub is_space : ℕ → Bool
is_space c =
    (leb 9 c && leb c 13)
    || (c == 32
        || (c == 0x85
            || (c == 0xa0
                || (c == 0x1680
                    || ((leb 0x2000 c && leb c 0x200a)
                        || (c == 0x2028
                            || (c == 0x2029 || (c == 0x202f || (c == 0x205f || c == 0x3000)))))))))

unfoldable pub trim_left : Text → Text
unfolding is_space
trim_left [] = []
trim_left (c ∷ s) = if is_space c then trim_left s else c ∷ s

unfoldable pub trim_right : Text → Text
unfolding is_space
trim_right [] = []
trim_right (c ∷ s) = elim (trim_right s) [
  | [] ↦ if is_space c then [] else c ∷ []
  | d ∷ r ↦ c ∷ d ∷ r
]

-- `strings.TrimSpace`
unfoldable pub trim_space : Text → Text
unfolding trim_left trim_right
trim_space s = trim_right (trim_left s)

-- `\s*` behind the dashes: greedy, and nothing follows it in the expression
unfoldable pub skip_spaces : Text → Text
unfolding is_re_space
skip_spaces [] = []
skip_spaces (c ∷ s) = if is_re_space c then skip_spaces s else c ∷ s

-- `---\s*`
abbrev pub dashes : Text → Option Text
dashes [] = none
dashes (a ∷ []) = none
dashes (a ∷ b ∷ []) = none
dashes (a ∷ b ∷ c ∷ s) =
    if a == b'-' && (b == b'-' && c == b'-') then some (skip_spaces s) else none

abbrev or_else : Option Text → Option Text → Option Text
or_else (some r) _ = some r
or_else none r = r

-- `\s*\n---\s*`, the longest run of spaces first; the text behind the match
unfoldable pub spaced_dashes : Text → Option Text
unfolding is_re_space skip_spaces
spaced_dashes [] = none
spaced_dashes (c ∷ s) =
    or_else (if is_re_space c then spaced_dashes s else none) (if c == 10 then dashes s else none)

-- `sep`, `(?:^|\s*\n)---\s*`, at one position; `^` matches at the start of the text only
unfoldable pub sep_at : Bool → Text → Option Text
unfolding spaced_dashes
sep_at at_start s = or_else (if at_start then dashes s else none) (spaced_dashes s)

-- the text before the leftmost match of `sep`, and the text behind the match if there is one
unfoldable pub cut : Bool → Text → Text × Option Text
unfolding sep_at
cut at_start [] = ([], none)
cut at_start (c ∷ s) = elim (sep_at at_start (c ∷ s)) [
  | some rest ↦ ([], some rest)
  | none ↦ let (piece, rest) = cut false s in (c ∷ piece, rest)
]

-- The pieces between the matches, on fuel that bounds their number.
unfoldable pub split_on : ℕ → Bool → Text → List Text
unfolding cut
split_on zero at_start s = []
split_on (suc fuel) at_start s =
    let (piece, behind) = cut at_start s in
    elim behind [ none ↦ piece ∷ [] | some rest ↦ piece ∷ split_on fuel false rest ]

-- `sep.Split(s, -1)`: a match is not empty, so there is at most one piece more than characters.
unfoldable pub split : Text → List Text
unfolding split_on
split s = split_on (suc (length s)) true s

-- The loop of `SplitManifests`. `key` is `fmt.Sprintf("manifest-%d", count)`; no key is made twice,
-- so each write to `res` adds an entry.
unfoldable pub number_docs : ℕ → List Text → List (Text × Text)
unfolding trim_space manifest_key
number_docs count [] = []
number_docs count ([] ∷ docs) = number_docs count docs
number_docs count ((c ∷ d) ∷ docs) =
    (manifest_key count, trim_space (c ∷ d)) ∷ number_docs (count + 1) docs

unfoldable pub split_manifests : Text → List (Text × Text)
unfolding number_docs split trim_space
split_manifests big_file = number_docs 0 (split (trim_space big_file))
