-- ===== src/Base/Maps.antt =====
-- A Go map with string keys as the list of its entries, one for a key.
use mathlib.Core.List.{List, [], ◌∷◌}
use mathlib.Core.Option.{Option, none, some}
use mathlib.Core.Path.{◌≡◌, refl}
use native.Mathlib.Omega.{arith}
use dyson_fs.Base.Strings.{Text, text_equality}
use dyson_fs.Base.Tests.{if◌then◌else◌, ◌==◌}

module _ {ℓ} {V : Type ℓ} where
  unfoldable pub row_at : Text → List (Text × V) → Option V
  row_at key [] = none
  row_at key (row ∷ rows) = let rest = row_at key rows in if row.0 == key then some row.1 else rest

  unfoldable pub put_row : Text → V → List (Text × V) → List (Text × V)
  put_row key v [] = (key, v) ∷ []
  put_row key v (row ∷ rows) =
      let rest = put_row key v rows in if row.0 == key then (key, v) ∷ rows else row ∷ rest

  pub row_at-put_row :
      (key other : Text) (v : V) (rows : List (Text × V))
      → row_at other (put_row key v rows) ≡ (if key == other then some v else row_at other rows)
  unfolding row_at put_row
  row_at-put_row key other v [] = refl
  row_at-put_row key other v (row ∷ rows) = ground (arith, row_at-put_row key other v rows)
