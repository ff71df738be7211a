-- ===== src/Base/Numbers.antt =====
-- strconv: integers read from text.
use Prim.Native.Nat.{ℕ, zero, suc, ◌+◌, ◌-◌, ◌*◌, ◌^◌}
use mathlib.Core.Bool.{Bool, ◌&&◌}
use mathlib.Core.List.{[], ◌∷◌}
use mathlib.Core.Option.{Option, none, some}
use mathlib.Core.Path.{◌≡◌, refl}
use dyson_fs.Base.Tests.{leb, if◌then◌else◌}
use dyson_fs.Base.Strings.{Text}
use dyson_fs.Base.Integers.{ℤ, pos, negsuc}

abbrev pub max_int64 : ℕ
max_int64 = 2 ^ 63 - 1

unfoldable pub is_digit : ℕ → Bool
is_digit c = leb b'0' c && leb c b'9'

-- The number that digits spell behind `n`; `none` at a character that is no digit.
unfoldable pub scan_digits : ℕ → Text → Option ℕ
unfolding is_digit
scan_digits n [] = some n
scan_digits n (c ∷ s) =
    let rest = scan_digits (n * 10 + (c - b'0')) s in if is_digit c then rest else none

unfoldable pub read_digits : Text → Option ℕ
unfolding scan_digits
read_digits [] = none
read_digits (c ∷ s) = scan_digits 0 (c ∷ s)

within : ℕ → (ℕ → ℤ) → Option ℕ → Option ℤ
within bound sign none = none
within bound sign (some n) = if leb n bound then some (sign n) else none

abbrev pub negate : ℕ → ℤ
negate n = elim n [ zero ↦ pos 0 | suc m ↦ negsuc m ]

-- strconv.ParseInt(s, 10, 64) and, on a 64-bit platform, strconv.Atoi
unfoldable pub parse_int : Text → Option ℤ
unfolding read_digits within
parse_int [] = none
parse_int (c ∷ s) =
    if leb c b'+' && leb b'+' c
    then within max_int64 pos (read_digits s)
    else if leb c b'-' && leb b'-' c
    then within (2 ^ 63) negate (read_digits s)
    else within max_int64 pos (read_digits (c ∷ s))

pub parse_int-nil : parse_int [] ≡ none
unfolding parse_int
parse_int-nil = refl
