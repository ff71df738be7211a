-- ===== src/Base/Lists.antt =====
-- Lists measured by native numbers, tables filtered by Boolean tests, and membership as a Boolean.
use Prim.Native.Nat.{ℕ, zero, suc, ◌+◌, ◌-◌, ◌≤◌}
use mathlib.Core.Bool.{Bool, true, false, ◌||◌}
use mathlib.Core.List.{List, [], ◌∷◌, ◌++◌}
use mathlib.Core.Logic.{◌↔◌, ◌⊎◌, inl, inr}
use mathlib.Core.Option.{Option, none, some}
use mathlib.Core.Path.{◌≡◌, refl, ap}
use native.Mathlib.Omega.{arith}
use dyson_fs.Base.Tests.{if◌then◌else◌, Eq, ◌==◌}

module _ {ℓ} {A : Type ℓ} where
  abbrev pub length : List A → ℕ
  length [] = 0
  length (x ∷ xs) = suc (length xs)

  pub length-append : (xs ys : List A) → length (xs ++ ys) ≡ length xs + length ys
  length-append [] ys = omega arith
  length-append (x ∷ xs) ys = omega (arith, length-append xs ys)

  abbrev pub take : ℕ → List A → List A
  take zero xs = []
  take (suc n) [] = []
  take (suc n) (x ∷ xs) = x ∷ take n xs

  abbrev pub drop : ℕ → List A → List A
  drop zero xs = xs
  drop (suc n) [] = []
  drop (suc n) (x ∷ xs) = drop n xs

  pub length-take_of_le : (n : ℕ) (xs : List A) → n ≤ length xs → length (take n xs) ≡ n
  length-take_of_le zero xs h = refl
  length-take_of_le (suc n) [] h = absurd (omega arith)
  length-take_of_le (suc n) (x ∷ xs) h = ap suc (length-take_of_le n xs (omega arith))

  pub length-drop : (n : ℕ) (xs : List A) → length (drop n xs) ≡ length xs - n
  length-drop zero xs = omega arith
  length-drop (suc n) [] = omega arith
  length-drop (suc n) (x ∷ xs) = omega (arith, length-drop n xs)

  -- The rows that a test keeps.
  unfoldable pub keep : (A → Bool) → List A → List A
  keep p [] = []
  keep p (x ∷ xs) = let rest = keep p xs in if p x then x ∷ rest else rest

  -- The first row that passes a test.
  unfoldable pub find_first : (A → Bool) → List A → Option A
  find_first p [] = none
  find_first p (x ∷ xs) = if p x then some x else find_first p xs

  -- How many rows pass a test.
  unfoldable pub count_rows : (A → Bool) → List A → ℕ
  count_rows p [] = 0
  count_rows p (x ∷ xs) = let rest = count_rows p xs in if p x then suc rest else rest

  unfoldable pub any_row : (A → Bool) → List A → Bool
  any_row p [] = false
  any_row p (x ∷ xs) = p x || any_row p xs

  -- An `UPDATE … WHERE`: every row that passes the test is rewritten.
  unfoldable pub update_rows : (A → Bool) → (A → A) → List A → List A
  update_rows p f [] = []
  update_rows p f (x ∷ xs) = (if p x then f x else x) ∷ update_rows p f xs

  abbrev pub All {κ} : (A → Type κ) → List A → Type κ
  All P [] = Unit
  All P (x ∷ xs) = P x × All P xs

  pub All-append {κ} : (P : A → Type κ) (xs ys : List A) → All P xs → All P ys → All P (xs ++ ys)
  All-append P [] ys h k = k
  All-append P (x ∷ xs) ys h k = (h.0, All-append P xs ys h.1 k)

  pub count_rows-keep-le :
      (p q : A → Bool) (xs : List A) → count_rows p (keep q xs) ≤ count_rows p xs
  unfolding count_rows keep
  count_rows-keep-le p q [] = omega arith
  count_rows-keep-le p q (x ∷ xs) = ground (arith, count_rows-keep-le p q xs)

  pub find_first_sound :
      (p : A → Bool) (xs : List A) {a : A} → find_first p xs ≡ some a → p a ≡ true
  unfolding find_first
  find_first_sound p [] h = cc
  find_first_sound p (x ∷ xs) {a} h = ground (arith, find_first_sound p xs {a = a})

  pub find_first-none :
      (p : A → Bool) (xs : List A) → (find_first p xs ≡ none) ↔ (count_rows p xs ≡ 0)
  unfolding find_first count_rows
  find_first-none p [] = (λ _. refl, λ _. refl)
  find_first-none p (x ∷ xs) = ground (arith, find_first-none p xs)

  pub count_rows-update_rows :
      (p q : A → Bool) (f : A → A)
      → ((x : A) → p (f x) ≡ p x)
      → (xs : List A) → count_rows p (update_rows q f xs) ≡ count_rows p xs
  unfolding count_rows update_rows
  count_rows-update_rows p q f same [] = refl
  count_rows-update_rows p q f same (x ∷ xs) =
      ground (arith, same x, count_rows-update_rows p q f same xs)

  -- Rows that no update touches stay as they are.
  pub update_rows_none :
      (q : A → Bool) (f : A → A) (xs : List A) → count_rows q xs ≡ 0 → update_rows q f xs ≡ xs
  unfolding count_rows update_rows
  update_rows_none q f [] h = refl
  update_rows_none q f (x ∷ xs) h = ground (arith, update_rows_none q f xs)

  pub count_rows-le-length : (p : A → Bool) (xs : List A) → count_rows p xs ≤ length xs
  unfolding count_rows
  count_rows-le-length p [] = omega arith
  count_rows-le-length p (x ∷ xs) = ground (arith, count_rows-le-length p xs)

module _ {ℓ} {A : Type ℓ} ⦃e : Eq A⦄ where
  -- Whether a list holds an element.
  unfoldable pub contains : List A → A → Bool
  contains [] a = false
  contains (x ∷ xs) a = x == a || contains xs a

  pub contains-append :
      (xs ys : List A) (a : A) → contains (xs ++ ys) a ≡ (contains xs a || contains ys a)
  unfolding contains
  contains-append [] ys a = refl
  contains-append (x ∷ xs) ys a = ground (arith, contains-append xs ys a)

pub Nil-cases {ℓ} : {A : Type ℓ} (xs : List A) → (xs ≡ []) ⊎ ((x : A) × (l : List A) × (xs ≡ x ∷ l))
Nil-cases [] = inl refl
Nil-cases (x ∷ l) = inr (x, l, refl)
