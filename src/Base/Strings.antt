-- ===== src/Base/Strings.antt =====
-- Go strings as lists of code points, with the functions of package strings that the source uses.
pub mod Trim
use Prim.Native.Char.{code}
use Prim.Native.Nat.{ℕ, ◌+◌, ◌-◌}
use Prim.Native.String.{String}
use mathlib.Core.Bool.{Bool, true, false, ◌&&◌, ◌||◌}
use mathlib.Core.List.{List, [], ◌∷◌, ◌++◌, map, reverse, reverse-cons, reverse-reverse}
use mathlib.Core.Logic.{◌↔◌, ◌≢◌}
use mathlib.Core.Option.{Option, none, some}
use mathlib.Core.Path.{◌≡◌, refl, ap, sym, ◌∙◌}
use native.Mathlib.Decide.{ℕ_discrete}
use native.Mathlib.Omega.{arith}
use dyson_fs.Base.Tests.{nat_eq, leb, if◌then◌else◌, Eq, ◌==◌}

abbrev pub Text : Type 0
Text = List ℕ

-- A string literal of the source.
abbrev pub codes : String → Text
codes String.[] = []
codes (String.◌∷◌ c s) = code c ∷ codes s

head_of : Text → ℕ
head_of [] = 0
head_of (c ∷ s) = c

tail_of : Text → Text
tail_of [] = []
tail_of (c ∷ s) = s

unfoldable pub text_discrete : Discrete Text
unfolding ℕ_discrete head_of tail_of
text_discrete [] [] = yes refl
text_discrete [] (d ∷ t) = no (λ h. cc h)
text_discrete (c ∷ s) [] = no (λ h. cc h)
text_discrete (c ∷ s) (d ∷ t) = elim (ℕ_discrete c d) [
  | no p ↦ no (λ h. p (ap head_of h))
  | yes p ↦ elim (text_discrete s t) [ yes q ↦ yes (cc) | no q ↦ no (λ h. q (ap tail_of h)) ]
]

instance abbrev pub text_equality : Eq Text
text_equality = record { dec = text_discrete }

-- unicode.IsSpace
unfoldable pub is_space : ℕ → Bool
is_space c =
    (leb 9 c && leb c 13)
    || (c == 32
        || (c == 0x85
            || (c == 0xa0
                || (c == 0x1680
                    || ((leb 0x2000 c && leb c 0x200a)
                        || (c == 0x2028
                            || (c == 0x2029 || (c == 0x202f || (c == 0x205f || c == 0x3000)))))))))

drop_spaces : Text → Text
drop_spaces [] = []
drop_spaces (c ∷ s) = let rest = drop_spaces s in if is_space c then rest else c ∷ s

-- strings.TrimSpace
unfoldable pub trim_space : Text → Text
unfolding is_space drop_spaces
trim_space s = reverse (drop_spaces (reverse (drop_spaces s)))

-- strings.HasPrefix(s, p)
unfoldable pub has_prefix : Text → Text → Bool
has_prefix [] [] = true
has_prefix (c ∷ s) [] = true
has_prefix [] (d ∷ p) = false
has_prefix (c ∷ s) (d ∷ p) = c == d && has_prefix s p

-- strings.TrimPrefix(s, p)
unfoldable pub drop_prefix : Text → Text → Text
drop_prefix [] [] = []
drop_prefix (c ∷ s) [] = c ∷ s
drop_prefix [] (d ∷ p) = []
drop_prefix (c ∷ s) (d ∷ p) = drop_prefix s p

unfoldable pub trim_prefix : Text → Text → Text
unfolding has_prefix drop_prefix
trim_prefix s p = if has_prefix s p then drop_prefix s p else s

-- strings.HasSuffix(s, p)
unfoldable pub has_suffix : Text → Text → Bool
unfolding has_prefix
has_suffix s p = has_prefix (reverse s) (reverse p)

-- strings.TrimSuffix(s, p)
unfoldable pub trim_suffix : Text → Text → Text
unfolding trim_prefix
trim_suffix s p = reverse (trim_prefix (reverse s) (reverse p))

-- strings.SplitN(s, sep, 2) for a separator of one character: the part before it, and the part
-- behind it if there is one.
unfoldable pub split_two : ℕ → Text → Text × Option Text
split_two sep [] = ([], none)
split_two sep (c ∷ s) =
    let (before, rest) = split_two sep s in if c == sep then ([], some s) else (c ∷ before, rest)

-- strings.ToLower on the ASCII letters; the keys that the source compares with are ASCII.
lower : ℕ → ℕ
lower c = if leb b'A' c && leb c b'Z' then c + 32 else c

unfoldable pub to_lower : Text → Text
unfolding lower
to_lower = map lower

upper : ℕ → ℕ
upper c = if leb b'a' c && leb c b'z' then c - 32 else c

unfoldable pub to_upper : Text → Text
unfolding upper
to_upper = map upper

-- A `*string` that is nil or blank counts as absent; the source trims before it compares.
unfoldable pub is_blank : Text → Bool
unfolding trim_space
is_blank s = trim_space s == []

all_space : Text → Bool
all_space [] = true
all_space (c ∷ s) = is_space c && all_space s

all_space-append : (s t : Text) → all_space (s ++ t) ≡ (all_space s && all_space t)
unfolding all_space
all_space-append [] t = refl
all_space-append (c ∷ s) t = ground (arith, all_space-append s t)

all_space-nil : all_space [] ≡ true
unfolding all_space
all_space-nil = refl

all_space-reverse : (s : Text) → all_space (reverse s) ≡ all_space s
unfolding all_space
all_space-reverse [] = refl
all_space-reverse (c ∷ s) =
    rw (reverse-cons, all_space-append) (ground (arith, all_space-reverse s))

drop_spaces-nil : (s : Text) → (drop_spaces s ≡ []) ↔ (all_space s ≡ true)
unfolding drop_spaces all_space
drop_spaces-nil [] = (λ _. refl, λ _. refl)
drop_spaces-nil (c ∷ s) = ground (arith, drop_spaces-nil s)

all_space-drop_spaces : (s : Text) → all_space (drop_spaces s) ≡ all_space s
unfolding drop_spaces all_space
all_space-drop_spaces [] = refl
all_space-drop_spaces (c ∷ s) = ground (arith, all_space-drop_spaces s)

reverse-nil : (s : Text) → reverse s ≡ [] → s ≡ []
reverse-nil s h = sym (reverse-reverse s) ∙ ap reverse h

all_space-trim_space : (s : Text) → all_space (trim_space s) ≡ all_space s
unfolding trim_space
all_space-trim_space s = simp (all_space-reverse, all_space-drop_spaces)

trim_space-nil : (s : Text) → (trim_space s ≡ []) ↔ (all_space s ≡ true)
trim_space-nil s = (
  (λ h. cc (all_space-trim_space s, ap all_space h, all_space-nil)),
  (λ h.
      unfold trim_space in
      ap reverse ((drop_spaces-nil _).1 (all_space-reverse _ ∙ all_space-drop_spaces s ∙ h))),
)

-- What is left after trimming is not blank, unless nothing is left.
pub is_blank-trim_space : (s : Text) → trim_space s ≢ [] → is_blank (trim_space s) ≡ false
unfolding is_blank
is_blank-trim_space s h =
    ground (arith, trim_space-nil s, trim_space-nil (trim_space s), all_space-trim_space s)

pub has_prefix-append : (p s : Text) → has_prefix (p ++ s) p ≡ true
unfolding has_prefix
has_prefix-append [] [] = refl
has_prefix-append [] (c ∷ s) = refl
has_prefix-append (c ∷ p) s = ground (arith, has_prefix-append p s)

pub drop_prefix-append : (p s : Text) → drop_prefix (p ++ s) p ≡ s
unfolding drop_prefix
drop_prefix-append [] [] = refl
drop_prefix-append [] (c ∷ s) = refl
drop_prefix-append (c ∷ p) s = drop_prefix-append p s

trim_table : trim_space (codes "  a b ") ≡ codes "a b"
unfolding trim_space text_discrete ℕ_discrete
trim_table = refl

split_table : split_two b';' (codes "text/html; x;y") ≡ (codes "text/html", some (codes " x;y"))
unfolding split_two ℕ_discrete
split_table = refl
