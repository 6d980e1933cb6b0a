-- ===== src/Base/Maps.antt =====
-- A Go map with text keys, as an association list.
use Prim.Native.String.{String}
use mathlib.Core.Path.{◌≡◌, refl}
use mathlib.Core.Option.{Option, none, some}
use mathlib.Core.List.{List, [], ◌∷◌}
use native.Mathlib.Omega.{arith}
use text.Mathlib.TextEquality.{eq_iff}
use openfilter_pipelines_con.Base.Tests.{str_eq, if◌then◌else◌}

abbrev pub Dict {ℓ} : Type ℓ → Type ℓ
Dict V = List (String × V)

module _ {ℓ} {V : Type ℓ} where
  -- `v, ok := m[key]`
  unfoldable pub lookup : String → Dict V → Option V
  lookup key [] = none
  lookup key ((first, value) ∷ rest) = if str_eq first key then some value else lookup key rest

  -- `m[key] = value`, at the place of the former entry if there is one.
  unfoldable pub insert : String → V → Dict V → Dict V
  insert key value [] = (key, value) ∷ []
  insert key value ((first, former) ∷ rest) =
      if str_eq first key then (key, value) ∷ rest else (first, former) ∷ insert key value rest

  pub lookup-insert :
      (set get : String) (value : V) (dict : Dict V)
      → lookup get (insert set value dict)
        ≡ (if str_eq set get then some value else lookup get dict)
  unfolding lookup insert
  lookup-insert set get value [] = refl
  lookup-insert set get value ((first, former) ∷ rest) =
      let later = lookup-insert set get value rest in
      ground (arith, later, eq_iff first set, eq_iff set get, eq_iff first get)
