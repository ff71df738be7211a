-- ===== src/Modules/Order/Start.antt =====
-- The loop starts with the modules that wait for nothing, and has rounds enough to finish.
use dyson_fs.Base.{
  List, Text, [], ap, arith, count_rows, dec_lt, if◌then◌else◌, length, refl, row_at, sort_texts,
  subst, suc, text_discrete, ℕ, ◌+◌, ◌<◌, ◌==◌, ◌↔◌, ◌∷◌, ◌≡◌, ◌≤◌, nat_eq, text_equality,
}
use dyson_fs.Modules.{Factory}
use dyson_fs.Modules.Order.{Edge, count_of, zero_counts, ready_ids, start_kahn}
use dyson_fs.Modules.Order.Counts.{occurs, occurs-sort_texts, contains-occurs}
use dyson_fs.Modules.Order.Graph.{keys, Built}
use dyson_fs.Modules.Order.Before.{Inv, respects}

ready_few :
    (x : Text) (counts : List (Text × ℕ)) → occurs x (ready_ids counts) ≤ occurs x (keys counts)
unfolding ready_ids keys occurs count_rows
ready_few x [] = omega arith
ready_few x (row ∷ counts) = ground (arith, ready_few x counts)

count_of-cons :
    (x : Text) (row : Text × ℕ) (counts : List (Text × ℕ))
    → count_of (row ∷ counts) x ≡ (if row.0 == x then row.1 else count_of counts x)
unfolding count_of row_at
count_of-cons x row counts = ground arith

-- A key is ready exactly if its counter is zero.
ready_zero :
    (x : Text) (counts : List (Text × ℕ))
    → occurs x (keys counts) ≤ 1
    → (0 < occurs x (ready_ids counts)) ↔ ((0 < occurs x (keys counts)) × (count_of counts x ≡ 0))
unfolding ready_ids keys occurs count_rows
ready_zero x [] h = ground arith
ready_zero x (row ∷ counts) h =
    ground (arith, h, ready_few x counts, ready_zero x counts, count_of-cons x row counts)

pub keys-zero_counts : (ids : List Text) → keys (zero_counts ids) ≡ ids
unfolding keys zero_counts
keys-zero_counts [] = refl
keys-zero_counts (id ∷ ids) = ap (λ l. id ∷ l) (keys-zero_counts ids)

pub count_of-zero_counts : (x : Text) (ids : List Text) → count_of (zero_counts ids) x ≡ 0
unfolding zero_counts count_of row_at
count_of-zero_counts x [] = refl
count_of-zero_counts x (id ∷ ids) = ground (arith, count_of-zero_counts x ids)

-- A list that holds nothing more often than another one is not longer.
erase : Text → List Text → List Text
erase x [] = []
erase x (y ∷ l) = let rest = erase x l in if y == x then l else y ∷ rest

occurs-erase :
    (x y : Text) (l : List Text)
    → 0 < occurs x l
    → (occurs y (erase x l) + (if x == y then 1 else 0) ≡ occurs y l)
      × (suc (length (erase x l)) ≡ length l)
unfolding erase occurs count_rows
occurs-erase x y [] h = absurd (omega (arith, h))
occurs-erase x y (z ∷ l) h = ground (arith, h, occurs-erase x y l)

pub fewer : (s t : List Text) → ((x : Text) → occurs x s ≤ occurs x t) → length s ≤ length t
unfolding occurs count_rows
fewer [] t h = omega arith
fewer (x ∷ s) t h =
    let there : 0 < occurs x t = ground (arith, h x) in
    let rest = fewer s (erase x t) (λ y. ground (arith, occurs-erase x y t there, h y)) in
    ground (arith, rest, occurs-erase x x t there)

pub fewer_same :
    (s t : List Text) (x : Text)
    → ((y : Text) → occurs y s ≤ occurs y t)
    → length s ≡ length t
    → occurs x s ≡ occurs x t
unfolding occurs count_rows
fewer_same s t x h same = elim (dec_lt (occurs x s) (occurs x t)) [
  | no enough ↦ ground (arith, h x, enough)
  | yes more ↦
      let longer = fewer (x ∷ s) t (λ y. elim (text_discrete x y) [
        | yes e ↦ ground (arith, subst (λ z. occurs z s < occurs z t) e more)
        | no other ↦ ground (arith, h y, other)
      ]) in
      absurd (omega (arith, longer, same))
]

module _ (fs : List Factory) (selected : List Text) (edges : List Edge) where
  pub start-Inv :
      (counts : List (Text × ℕ))
      → ((x : Text) → occurs x selected ≤ 1)
      → Built fs selected counts edges
      → Inv fs selected edges [] (start_kahn counts)
  unfolding start_kahn respects occurs count_rows
  start-Inv counts distinct built =
      let key : (x : Text) → occurs x (keys counts) ≡ occurs x selected =
        λ x. ap (occurs x) built.keyed in
      let ready : (x : Text)
          → occurs x (sort_texts (ready_ids counts)) ≡ occurs x (ready_ids counts) =
        λ x. occurs-sort_texts x (ready_ids counts) in
      let zero_at = λ (x : Text). ready_zero x counts (ground (arith, key x, distinct x)) in
      record {
        counted = λ x. ground (arith, built.agree x);
        once = λ x. ground (arith, ready x, ready_few x counts, key x, distinct x);
        settled = λ x h. ground (arith, ready x, zero_at x, h);
        known = λ x h. ground (arith, ready x, zero_at x, h, key x, contains-occurs x selected);
        full = λ x here none_left.
            ground (arith, ready x, zero_at x, here, none_left, key x, contains-occurs x selected);
        before = refl;
      }
