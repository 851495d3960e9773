-- ===== src/Manifest/Order.antt =====
-- manifest/releaseutil/manifest.go: the order of the keys that `SplitManifests` makes. A string is
-- the list of its bytes here, which for those keys are its code points.
pub mod Keys
pub mod Swaps
use kube_client.Prelude.{
  ℤ, pos, negsuc, ℕ, zero, suc, ◌+◌, ◌-◌, ◌*◌, Bool, true, false, ◌&&◌, Option, none, some, List,
  [], ◌∷◌, ltb, leb, ◌==◌, if◌then◌else◌, Text, length,
}
use kube_client.Manifest.Split.{prefix}

-- The results of `strconv.ParseUint`.
pub data Parsed : Type 0 where
  value : ℕ → Parsed
  syntax_error : Parsed
  range_error : Parsed

-- The loop of `strconv.ParseUint(s, 10, 0)` on a 64-bit machine, n being its value so far. The sum
-- of `n * 10`, which fits, and a digit is compared before it could wrap.
unfoldable pub parse_uint_on : ℕ → Text → Parsed
parse_uint_on n [] = value n
parse_uint_on n (c ∷ s) =
    let rest = parse_uint_on (n * 10 + (c - b'0')) s in
    if leb b'0' c && leb c b'9'
    then (if leb 1844674407370955162 n
        then range_error
        else if ltb 18446744073709551615 (n * 10 + (c - b'0'))
        then range_error
        else rest)
    else syntax_error

abbrev pub signed : Bool → Parsed → ℤ
signed negative syntax_error = pos 0
signed false range_error = pos 9223372036854775807
signed true range_error = negsuc 9223372036854775807
signed false (value n) = if leb 9223372036854775808 n then pos 9223372036854775807 else pos n
signed true (value zero) = pos 0
signed true (value (suc n)) =
    if leb 9223372036854775808 n then negsuc 9223372036854775807 else negsuc n

abbrev parse_digits : Bool → Text → ℤ
parse_digits negative [] = pos 0
parse_digits negative (c ∷ s) = signed negative (parse_uint_on 0 (c ∷ s))

-- `n, _ := strconv.ParseInt(s, 10, 0)`: a syntax error gives 0, a range error the nearest bound.
unfoldable pub parse_int : Text → ℤ
parse_int [] = pos 0
parse_int (c ∷ s) =
    if c == b'+'
    then parse_digits false s
    else if c == b'-'
    then parse_digits true s
    else parse_digits false (c ∷ s)

abbrev pub less_int : ℤ → ℤ → Bool
less_int (pos a) (pos b) = ltb a b
less_int (pos a) (negsuc b) = false
less_int (negsuc a) (pos b) = true
less_int (negsuc a) (negsuc b) = ltb b a

-- `s[n:]`, which panics on a shorter string
unfoldable pub drop : ℕ → Text → Option Text
drop zero s = some s
drop (suc n) [] = none
drop (suc n) (c ∷ s) = drop n s

-- `a[i]`, which panics out of range
unfoldable pub get_elem? : List Text → ℕ → Option Text
get_elem? [] i = none
get_elem? (x ∷ xs) zero = some x
get_elem? (x ∷ xs) (suc i) = get_elem? xs i

abbrev number_of : Option Text → Option ℤ
number_of none = none
number_of (some key) = elim (drop (length prefix) key) [
  | none ↦ none
  | some number ↦ some (parse_int number)
]

abbrev less_number : Option ℤ → Option ℤ → Option Bool
less_number (some anum) (some bnum) = some (less_int anum bnum)
less_number _ _ = none

-- `Less`; `none` is a panic
unfoldable pub less : List Text → ℕ → ℕ → Option Bool
unfolding get_elem? drop parse_int
less a i j = less_number (number_of (get_elem? a i)) (number_of (get_elem? a j))

-- `a[i] = x`
unfoldable pub set_at : ℕ → Text → List Text → List Text
set_at i x [] = []
set_at zero x (y ∷ ys) = x ∷ ys
set_at (suc i) x (y ∷ ys) = y ∷ set_at i x ys

abbrev swapped : List Text → ℕ → ℕ → Option Text → Option Text → Option (List Text)
swapped a i j (some x) (some y) = some (set_at j x (set_at i y a))
swapped a i j _ _ = none

-- `Swap`; `none` is a panic
unfoldable pub swap : List Text → ℕ → ℕ → Option (List Text)
unfolding get_elem? set_at
swap a i j = swapped a i j (get_elem? a i) (get_elem? a j)
