-- ===== src/Base/Texts.antt =====
-- The order of Go's strings and sort.Strings.
use mathlib.Core.Bool.{Bool, true, false}
use mathlib.Core.List.{List, [], ◌∷◌}
use mathlib.Core.Path.{◌≡◌, refl}
use native.Mathlib.Omega.{arith}
use dyson_fs.Base.Strings.{Text, text_equality}
use dyson_fs.Base.Tests.{ltb, nat_eq, ◌==◌, if◌then◌else◌}

-- The order of Go's strings, on code points: a prefix comes first.
unfoldable pub text_leb : Text → Text → Bool
text_leb [] t = true
text_leb (c ∷ s) [] = false
text_leb (c ∷ s) (d ∷ t) = let rest = text_leb s t in if c == d then rest else ltb c d

unfoldable pub insert_text : Text → List Text → List Text
insert_text x [] = x ∷ []
insert_text x (y ∷ l) = let rest = insert_text x l in if text_leb x y then x ∷ y ∷ l else y ∷ rest

unfoldable pub sort_texts : List Text → List Text
sort_texts [] = []
sort_texts (x ∷ l) = insert_text x (sort_texts l)

-- A total order.
pub text_leb_total : (s t : Text) → text_leb s t ≡ false → text_leb t s ≡ true
unfolding text_leb
text_leb_total [] t h = absurd (ground (arith, h))
text_leb_total (c ∷ s) [] h = refl
text_leb_total (c ∷ s) (d ∷ t) h = ground (arith, h, text_leb_total s t)

pub text_leb_antisymm : (s t : Text) → text_leb s t ≡ true → text_leb t s ≡ true → s ≡ t
unfolding text_leb
text_leb_antisymm [] [] h k = refl
text_leb_antisymm [] (d ∷ t) h k = absurd (ground (arith, k))
text_leb_antisymm (c ∷ s) [] h k = absurd (ground (arith, h))
text_leb_antisymm (c ∷ s) (d ∷ t) h k =
    let rest = text_leb_antisymm s t (ground (arith, h, k)) (ground (arith, h, k)) in
    ground (arith, h, k, rest)

pub text_leb_trans :
    (s t u : Text) → text_leb s t ≡ true → text_leb t u ≡ true → text_leb s u ≡ true
unfolding text_leb
text_leb_trans [] t u h k = refl
text_leb_trans (c ∷ s) [] u h k = absurd (ground (arith, h))
text_leb_trans (c ∷ s) (d ∷ t) [] h k = absurd (ground (arith, k))
text_leb_trans (c ∷ s) (d ∷ t) (e ∷ u) h k = ground (arith, h, k, text_leb_trans s t u)
