-- ===== src/Base/Strings/Trim.antt =====
-- Trimming spaces twice is trimming once.
use Prim.Native.Nat.{ℕ}
use mathlib.Core.Bool.{Bool, true, false, not}
use mathlib.Core.List.{[], ◌∷◌, ◌++◌, reverse, reverse-append, reverse-reverse}
use mathlib.Core.Path.{◌≡◌, refl, ap, sym, ◌∙◌, subst}
use native.Mathlib.Omega.{arith}
use dyson_fs.Base.Tests.{if◌then◌else◌}
use dyson_fs.Base.Strings.{Text, is_space, drop_spaces, trim_space}

starts_bare : Text → Bool
starts_bare [] = true
starts_bare (c ∷ s) = not (is_space c)

drop_spaces-bare : (s : Text) → starts_bare (drop_spaces s) ≡ true
unfolding drop_spaces starts_bare
drop_spaces-bare [] = refl
drop_spaces-bare (c ∷ s) = ground (arith, drop_spaces-bare s)

drop_spaces_bare : (s : Text) → starts_bare s ≡ true → drop_spaces s ≡ s
unfolding drop_spaces starts_bare
drop_spaces_bare [] h = refl
drop_spaces_bare (c ∷ s) h = ground (arith, h)

bare_prefix : (u w : Text) → starts_bare (u ++ w) ≡ true → starts_bare u ≡ true
unfolding starts_bare
bare_prefix [] w h = refl
bare_prefix (c ∷ u) w h = h

split_cons :
    (c : ℕ) (s w : Text) (space : Bool)
    → s ≡ w ++ drop_spaces s
    → (v : Text) × (c ∷ s ≡ v ++ (if space then drop_spaces s else c ∷ s))
split_cons c s w true h = (c ∷ w, ap (λ x. c ∷ x) h)
split_cons c s w false h = ([], refl)

drop_spaces_split : (s : Text) → (w : Text) × (s ≡ w ++ drop_spaces s)
unfolding drop_spaces
drop_spaces_split [] = ([], refl)
drop_spaces_split (c ∷ s) = let (w, h) = drop_spaces_split s in split_cons c s w (is_space c) h

pub trim_space-trim_space : (s : Text) → trim_space (trim_space s) ≡ trim_space s
unfolding trim_space
trim_space-trim_space s =
    let t = drop_spaces s in
    let (w, h) = drop_spaces_split (reverse t) in
    let whole : t ≡ reverse (drop_spaces (reverse t)) ++ reverse w =
      sym (reverse-reverse t) ∙ ap reverse h ∙ reverse-append w (drop_spaces (reverse t)) in
    let bare : starts_bare (reverse (drop_spaces (reverse t))) ≡ true =
      bare_prefix (reverse (drop_spaces (reverse t))) (reverse w)
        (subst (λ x. starts_bare x ≡ true) whole (drop_spaces-bare s)) in
    ap (λ x. reverse (drop_spaces (reverse x)))
      (drop_spaces_bare (reverse (drop_spaces (reverse t))) bare)
    ∙ ap (λ x. reverse (drop_spaces x)) (reverse-reverse (drop_spaces (reverse t)))
    ∙ ap reverse (drop_spaces_bare (drop_spaces (reverse t)) (drop_spaces-bare (reverse t)))
