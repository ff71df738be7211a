-- ===== src/Tree/Least.antt =====
-- What the descendants query finds lies in every closed set.
use dyson_fs.Base.{
  All, All-append, Bool, Bool-cases, List, Option-cases, Text, [], any_row, ap, arith, contains,
  if_both, inl, inr, keep, length, subst, suc, text_discrete, true, zero, ℕ, ◌++◌, ◌==◌, ◌∙◌, ◌∷◌,
  ◌≡◌, nat_eq, text_equality,
}
use dyson_fs.Tree.{
  FileRow, parent_in, descend, joins, row_ids, normalize_ids, named_in, descendant_ids,
}
use dyson_fs.Tree.Descendants.{descend_mono, descendant_ids-query}

-- The set is closed: with a parent it holds the row.
abbrev pub IsClosed : List Text → List FileRow → Type 0
IsClosed outer = All (λ row. parent_in outer row ≡ true → contains outer row.row_id ≡ true)

unfoldable pub IsSubset : List Text → List Text → Type 0
IsSubset outer = All (λ x. contains outer x ≡ true)

IsSubset-contains :
    (outer inner : List Text) (x : Text)
    → IsSubset outer inner
    → contains inner x ≡ true
    → contains outer x ≡ true
unfolding IsSubset contains
IsSubset-contains outer [] x sub h = absurd (ground arith)
IsSubset-contains outer (y ∷ inner) x sub h = elim (text_discrete y x) [
  | yes same ↦ subst (λ z. contains outer z ≡ true) same sub.0
  | no other ↦ IsSubset-contains outer inner x sub.1 (ground (arith, h, other))
]

joins-parent_in :
    (with_deleted : Bool) (outer found : List Text) (row : FileRow)
    → IsSubset outer found
    → joins with_deleted found row ≡ true
    → parent_in outer row ≡ true
unfolding joins parent_in
joins-parent_in with_deleted outer found row sub h = elim (Option-cases row.parent) [
  | inl top ↦ absurd (ground (arith, h, top))
  | inr (p, below) ↦ rw below (IsSubset-contains outer found p sub (ground (arith, h, below)))
]

joined-IsSubset :
    (with_deleted : Bool) (outer found : List Text) (rows : List FileRow)
    → IsSubset outer found
    → IsClosed outer rows
    → IsSubset outer (row_ids (keep (joins with_deleted found) rows))
unfolding IsSubset keep row_ids
joined-IsSubset with_deleted outer found [] sub closed = tt
joined-IsSubset with_deleted outer found (row ∷ rows) sub closed =
    let rest = joined-IsSubset with_deleted outer found rows sub closed.1 in
    elim (Bool-cases (joins with_deleted found row)) [
      | inl new ↦ rw new (closed.0 (joins-parent_in with_deleted outer found row sub new), rest)
      | inr old ↦ rw old rest
    ]

-- Every closed set that holds what is found at the start holds what is found at the end.
descend-IsSubset :
    (fuel : ℕ) (with_deleted : Bool) (outer : List Text) (rows : List FileRow) (found : List Text)
    → IsClosed outer rows
    → IsSubset outer found
    → IsSubset outer (descend fuel with_deleted rows found)
unfolding descend IsSubset
descend-IsSubset zero with_deleted outer rows found closed sub = sub
descend-IsSubset (suc fuel) with_deleted outer rows found closed sub =
    let new = row_ids (keep (joins with_deleted found) rows) in
    let more = joined-IsSubset with_deleted outer found rows sub closed in
    if_both (IsSubset outer) (length (keep (joins with_deleted found) rows) == 0) _ _ sub (
      descend-IsSubset fuel with_deleted outer rows (found ++ new) closed
        (All-append (λ x. contains outer x ≡ true) found new sub more))

row_ids-named :
    (id : Text) (rows : List FileRow)
    → IsSubset (id ∷ []) (row_ids (keep (named_in (id ∷ [])) rows))
unfolding IsSubset row_ids keep named_in contains
row_ids-named id [] = tt
row_ids-named id (row ∷ rows) = elim (text_discrete id row.row_id) [
  | yes same ↦ ground (arith, same, row_ids-named id rows)
  | no other ↦ ground (arith, other, row_ids-named id rows)
]

-- The row of an id is found.
pub contains-row_ids :
    (id : Text) (rows : List FileRow)
    → any_row (λ row. row.row_id == id) rows ≡ true
    → contains (row_ids (keep (named_in (id ∷ [])) rows)) id ≡ true
unfolding any_row row_ids keep named_in contains
contains-row_ids id [] h = absurd (ground arith)
contains-row_ids id (row ∷ rows) h = elim (text_discrete id row.row_id) [
  | yes same ↦ ground (arith, same)
  | no other ↦ ground (arith, h, other, contains-row_ids id rows)
]

IsSubset-trans :
    (outer middle inner : List Text)
    → IsSubset outer middle
    → IsSubset middle inner
    → IsSubset outer inner
unfolding IsSubset
IsSubset-trans outer middle [] h k = tt
IsSubset-trans outer middle (x ∷ inner) h k =
    (IsSubset-contains outer middle x h k.0, IsSubset-trans outer middle inner h k.1)

IsSubset-one : (outer : List Text) (id : Text) → contains outer id ≡ true → IsSubset outer (id ∷ [])
unfolding IsSubset
IsSubset-one outer id h = (h, tt)

-- The query of one id that has a row finds it, and nothing outside of a closed set that holds it.
pub descendant_ids-least :
    (outer : List Text) (id : Text) (rows : List FileRow)
    → normalize_ids [] (id ∷ []) ≡ id ∷ []
    → any_row (λ row. row.row_id == id) rows ≡ true
    → contains outer id ≡ true
    → IsClosed outer rows
    → (contains (descendant_ids true rows (id ∷ [])) id ≡ true)
      × IsSubset outer (descendant_ids true rows (id ∷ []))
descendant_ids-least outer id rows one there held closed =
    let start = row_ids (keep (named_in (id ∷ [])) rows) in
    let query : descendant_ids true rows (id ∷ []) ≡ descend (suc (length rows)) true rows start =
      descendant_ids-query true rows (id ∷ []) 0 (ap length one)
      ∙ ap (λ ids. descend (suc (length rows)) true rows (row_ids (keep (named_in ids) rows)))
          one in
    let inside =
      IsSubset-trans outer (id ∷ []) start (IsSubset-one outer id held) (row_ids-named id rows) in
    (
      rw query
          (descend_mono (suc (length rows)) true rows start id (contains-row_ids id rows there)),
      rw query (descend-IsSubset (suc (length rows)) true outer rows start closed inside),
    )
