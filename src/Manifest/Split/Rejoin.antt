-- ===== src/Manifest/Split/Rejoin.antt =====
-- manifest/releaseutil/manifest.go: the pieces of any text, with separators between them, are the
-- text. The proofs follow the expression `(?:^|\s*\n)---\s*` from its parts up.
use kube_client.Prelude.{true, List, [], ◌∷◌, ◌++◌, ◌≡◌, Text, All}
use kube_client.Manifest.Split.{is_re_space}

abbrev pub AllSpace : Text → Type 0
AllSpace = All (λ c. is_re_space c ≡ true)

-- Three dashes and any spaces.
pub record IsRule (m : Text) : Type 0 where
  pub spaces : Text
  pub only_spaces : AllSpace spaces
  pub shape : m ≡ b'-' ∷ b'-' ∷ b'-' ∷ spaces

-- A separator: at the start of the text a rule, elsewhere any spaces, a newline and a rule.
pub data IsSeparator (m : Text) : Type 0 where
  at_start : IsRule m → IsSeparator m
  on_new_line :
      (before rule : Text)
      → AllSpace before
      → IsRule rule
      → m ≡ before ++ (10 ∷ rule)
      → IsSeparator m

-- The pieces in order, with a separator between any two, make up the text.
pub data Rejoins : Text → List Text → Type 0 where
  last : {s : Text} (p : Text) → s ≡ p → Rejoins s (p ∷ [])
  next :
      {s : Text} {ps : List Text} (p m r : Text)
      → s ≡ p ++ (m ++ r)
      → IsSeparator m
      → Rejoins r ps
      → Rejoins s (p ∷ ps)
