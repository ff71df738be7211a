-- ===== src/Modules/Order/Counts.antt =====
-- The counters of the ordering: what they are built to, and what a settled child does to them.
use dyson_fs.Base.{
  List, Text, [], ap, arith, contains, count_rows, if◌then◌else◌, insert_text, put_row, refl,
  row_at-put_row, sort_texts, text_discrete, true, ℕ, ◌&&◌, ◌++◌, ◌+◌, ◌<◌, ◌==◌, ◌↔◌, ◌∷◌, ◌≡◌,
  nat_eq, text_equality,
}
use dyson_fs.Modules.Order.{Edge, count_of, children}

unfoldable pub occurs : Text → List Text → ℕ
occurs x = count_rows (λ y. y == x)

-- The entries into a module whose dependency is not done.
unfoldable pub open_in : List Edge → List Text → Text → ℕ
open_in edges done x = count_rows (λ e. (e.1 == x) && (occurs e.0 done == 0)) edges

pub occurs-append : (x : Text) (s t : List Text) → occurs x (s ++ t) ≡ occurs x s + occurs x t
unfolding occurs count_rows
occurs-append x [] t = omega arith
occurs-append x (y ∷ s) t = ground (arith, occurs-append x s t)

pub contains-occurs : (x : Text) (l : List Text) → (contains l x ≡ true) ↔ (0 < occurs x l)
unfolding occurs count_rows contains
contains-occurs x [] = ground arith
contains-occurs x (y ∷ l) = ground (arith, contains-occurs x l)

occurs-insert_text : (x y : Text) (l : List Text) → occurs x (insert_text y l) ≡ occurs x (y ∷ l)
unfolding occurs count_rows insert_text
occurs-insert_text x y [] = refl
occurs-insert_text x y (z ∷ l) = ground (arith, occurs-insert_text x y l)

pub occurs-sort_texts : (x : Text) (l : List Text) → occurs x (sort_texts l) ≡ occurs x l
unfolding sort_texts occurs count_rows
occurs-sort_texts x [] = refl
occurs-sort_texts x (y ∷ l) =
    ground (arith, occurs-insert_text x y (sort_texts l), occurs-sort_texts x l)

pub count_of-put_row :
    (x key : Text) (n : ℕ) (counts : List (Text × ℕ))
    → count_of (put_row key n counts) x ≡ (if key == x then n else count_of counts x)
unfolding count_of
count_of-put_row x key n counts = ground (arith, row_at-put_row key x n counts)

-- A done dependency closes the entries of its children.
pub open_in-done :
    (edges : List Edge) (done : List Text) (id x : Text)
    → occurs id done ≡ 0
    → open_in edges done x ≡ open_in edges (done ++ id ∷ []) x + occurs x (children edges id)
unfolding open_in count_rows children occurs
open_in-done [] done id x h = refl
open_in-done (e ∷ edges) done id x h = elim (text_discrete e.0 id) [
  | yes same ↦
      let here = ap (λ y. occurs y done) same in
      ground (arith, same, here, occurs-append e.0 done (id ∷ []), open_in-done edges done id x h)
  | no other ↦ ground (arith, occurs-append e.0 done (id ∷ []), open_in-done edges done id x h)
]
