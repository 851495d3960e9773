-- ===== src/Prelude/Maps.antt =====
-- Go's `map[string]T` as a list of entries, each key at most once.
use Prim.Native.String.{String}
use mathlib.Core.Path.{◌≡◌, refl}
use mathlib.Core.Bool.{Bool}
use mathlib.Core.Option.{Option, none, some}
use mathlib.Core.List.{List, [], ◌∷◌}
use native.Mathlib.Omega.{arith}
use text.Mathlib.Text.{◌==◌}
use text.Mathlib.TextEquality.{eq_iff}
use kube_client.Prelude.Tests.{if◌then◌else◌}

abbrev pub str_eq : String → String → Bool
str_eq s t = s == t

abbrev pub Entries {ℓ} : Type ℓ → Type ℓ
Entries T = List (String × T)

module _ {ℓ} {T : Type ℓ} where
  -- `value, ok := entries[key]`
  unfoldable pub at_key : Entries T → String → Option T
  at_key [] key = none
  at_key (e ∷ entries) key = if str_eq e.0 key then some e.1 else at_key entries key

  -- `entries[key] = value`
  unfoldable pub put_key : Entries T → String → T → Entries T
  put_key [] key value = (key, value) ∷ []
  put_key (e ∷ entries) key value =
      if str_eq e.0 key then (e.0, value) ∷ entries else e ∷ put_key entries key value

  pub at_key-put_key :
      (entries : Entries T) (key other : String) (value : T)
      → at_key (put_key entries key value) other
        ≡ (if str_eq key other then some value else at_key entries other)
  unfolding at_key put_key
  at_key-put_key [] key other value = refl
  at_key-put_key (e ∷ entries) key other value = ground (
    arith,
    at_key-put_key entries key other value,
    eq_iff key other,
    eq_iff e.0 key,
    eq_iff e.0 other,
  )
