-- ===== src/Base/Queues.antt =====
-- Rows in the order of a column, and what is said of the rows of a queue by counting them.
use Prim.Native.Nat.{ℕ, zero, suc, ◌≤◌}
use mathlib.Core.Bool.{Bool, true, not, ◌&&◌}
use mathlib.Core.List.{List, [], ◌∷◌}
use mathlib.Core.Path.{◌≡◌, refl}
use native.Mathlib.Omega.{arith}
use dyson_fs.Base.Tests.{leb, nat_eq, ◌==◌, if◌then◌else◌}
use dyson_fs.Base.Lists.{take, keep, count_rows, count_rows-keep-le}

module _ {ℓ} {A : Type ℓ} where
  -- `ORDER BY` a column; rows of one value keep their order.
  unfoldable pub insert_by : (A → ℕ) → A → List A → List A
  insert_by column x [] = x ∷ []
  insert_by column x (y ∷ l) =
      let rest = insert_by column x l in if leb (column x) (column y) then x ∷ y ∷ l else y ∷ rest

  unfoldable pub sort_by : (A → ℕ) → List A → List A
  sort_by column [] = []
  sort_by column (x ∷ l) = insert_by column x (sort_by column l)

  count-insert_by :
      (column : A → ℕ) (p : A → Bool) (x : A) (l : List A)
      → count_rows p (insert_by column x l) ≡ count_rows p (x ∷ l)
  unfolding insert_by count_rows
  count-insert_by column p x [] = refl
  count-insert_by column p x (y ∷ l) = ground (arith, count-insert_by column p x l)

  pub count-sort_by :
      (column : A → ℕ) (p : A → Bool) (l : List A)
      → count_rows p (sort_by column l) ≡ count_rows p l
  unfolding sort_by count_rows
  count-sort_by column p [] = refl
  count-sort_by column p (x ∷ l) =
      ground (arith, count-insert_by column p x (sort_by column l), count-sort_by column p l)

  count-take : (p : A → Bool) (n : ℕ) (l : List A) → count_rows p (take n l) ≤ count_rows p l
  unfolding count_rows
  count-take p zero l = omega arith
  count-take p (suc n) [] = omega arith
  count-take p (suc n) (x ∷ l) = ground (arith, count-take p n l)

  -- `WHERE … ORDER BY … LIMIT …`
  unfoldable pub queue_of : ℕ → (A → ℕ) → (A → Bool) → List A → List A
  queue_of limit column q l = take limit (sort_by column (keep q l))

  pub count-queue_of :
      (limit : ℕ) (column : A → ℕ) (p q : A → Bool) (l : List A)
      → count_rows p (queue_of limit column q l) ≤ count_rows p l
  unfolding queue_of
  count-queue_of limit column p q l = omega (
    arith,
    count-take p limit (sort_by column (keep q l)),
    count-sort_by column p (keep q l),
    count_rows-keep-le p q l,
  )

  pub keep-passes : (q : A → Bool) (l : List A) → count_rows (λ x. not (q x)) (keep q l) ≡ 0
  unfolding keep count_rows
  keep-passes q [] = refl
  keep-passes q (x ∷ l) = ground (arith, keep-passes q l)

  -- Every row of the queue passes its test.
  pub queue_of-passes :
      (limit : ℕ) (column : A → ℕ) (q : A → Bool) (l : List A)
      → count_rows (λ x. not (q x)) (queue_of limit column q l) ≡ 0
  unfolding queue_of
  queue_of-passes limit column q l =
      let p = λ (x : A). not (q x) in
      omega (
        arith,
        keep-passes q l,
        count-sort_by column p (keep q l),
        count-take p limit (sort_by column (keep q l)),
      )

  count-take_some : (p : A → Bool) (n : ℕ) (l : List A) → take (suc n) l ≡ [] → count_rows p l ≡ 0
  unfolding count_rows
  count-take_some p n [] h = refl
  count-take_some p n (x ∷ l) h = absurd (ground (arith, h))

  count-keep : (q : A → Bool) (l : List A) → count_rows q (keep q l) ≡ count_rows q l
  unfolding keep count_rows
  count-keep q [] = refl
  count-keep q (x ∷ l) = ground (arith, count-keep q l)

  -- An empty queue leaves no row that passes.
  pub queue_of-nil :
      (limit : ℕ) (column : A → ℕ) (q : A → Bool) (l : List A)
      → queue_of (suc limit) column q l ≡ []
      → count_rows q l ≡ 0
  unfolding queue_of
  queue_of-nil limit column q l h = omega (
    arith,
    count-keep q l,
    count-sort_by column q (keep q l),
    count-take_some q limit (sort_by column (keep q l)) h,
  )

  -- Rows that pass a test and that no row of the list is the same as.
  unfoldable pub unmatched : (A → Bool) → (A → A → Bool) → List A → A → Bool
  unmatched p same l x = p x && (count_rows (λ y. same x y && p y) l == 0)

  unmatched-tail :
      (p : A → Bool) (same : A → A → Bool) (x : A) (l m : List A)
      → count_rows (unmatched p same (x ∷ l)) m ≤ count_rows (unmatched p same l) m
  unfolding unmatched count_rows
  unmatched-tail p same x l [] = omega arith
  unmatched-tail p same x l (y ∷ m) = ground (arith, unmatched-tail p same x l m)

  -- Every row that passes is the same as a row of its list that passes, namely itself.
  pub unmatched-none :
      (p : A → Bool) (same : A → A → Bool)
      → ((x : A) → same x x ≡ true)
      → (l : List A) → count_rows (unmatched p same l) l ≡ 0
  unfolding unmatched count_rows
  unmatched-none p same self [] = refl
  unmatched-none p same self (x ∷ l) =
      ground (arith, self x, unmatched-tail p same x l l, unmatched-none p same self l)
