-- ===== src/Tree/Descendants.antt =====
-- The descendants that the recursive query finds.
use dyson_fs.Base.{
  All, Bool, List, Text, [], arith, contains, contains-append, count_rows, count_rows-le-length,
  false, keep, length, not, suc, true, zero, ℕ, ℕ_discrete, ◌++◌, ◌+◌, ◌<◌, ◌∷◌, ◌≡◌, ◌≢◌, ◌≤◌,
  nat_eq, text_equality,
}
use dyson_fs.Tree.{FileRow, descend, joins, row_ids, normalize_ids, named_in, descendant_ids}

-- No row joins any more.
unfoldable pub Closed : Bool → List Text → List FileRow → Type 0
Closed with_deleted found rows = All (λ row. joins with_deleted found row ≡ false) rows

unfoldable pub unfound : List Text → FileRow → Bool
unfound found row = not (contains found row.row_id)

keep-none :
    (p : FileRow → Bool) (rows : List FileRow)
    → length (keep p rows) ≡ 0
    → All (λ row. p row ≡ false) rows
unfolding keep
keep-none p [] h = tt
keep-none p (row ∷ rows) h = (ground arith, keep-none p rows (ground arith))

-- The ids of the kept rows are new ones, and stay so when more are added.
pub kept_ids :
    (p : FileRow → Bool) (rows : List FileRow) (new : List Text)
    → ((x : Text) → contains (row_ids (keep p rows)) x ≡ true → contains new x ≡ true)
    → All (λ row. p row ≡ true → contains new row.row_id ≡ true) rows
unfolding keep row_ids contains
kept_ids p [] new sub = tt
kept_ids p (row ∷ rows) new sub =
    (λ h. ground (arith, sub row.row_id), kept_ids p rows new (λ x k. ground (arith, sub x)))

count_shrinks :
    (with_deleted : Bool) (found new : List Text) (rows : List FileRow)
    → All (λ row. joins with_deleted found row ≡ true → contains new row.row_id ≡ true) rows
    → count_rows (unfound (found ++ new)) rows + length (keep (joins with_deleted found) rows)
      ≤ count_rows (unfound found) rows
unfolding count_rows unfound joins keep
count_shrinks with_deleted found new [] sub = omega arith
count_shrinks with_deleted found new (row ∷ rows) sub = ground (
  arith,
  contains-append found new row.row_id,
  sub.0,
  count_shrinks with_deleted found new rows sub.1,
)

descend_quiet :
    (fuel : ℕ) (with_deleted : Bool) (rows : List FileRow) (found : List Text)
    → length (keep (joins with_deleted found) rows) ≡ 0
    → descend (suc fuel) with_deleted rows found ≡ found
unfolding descend
descend_quiet fuel with_deleted rows found h = ground arith

descend_busy :
    (fuel : ℕ) (with_deleted : Bool) (rows : List FileRow) (found : List Text)
    → length (keep (joins with_deleted found) rows) ≢ 0
    → descend (suc fuel) with_deleted rows found
      ≡ descend fuel with_deleted rows (found ++ row_ids (keep (joins with_deleted found) rows))
unfolding descend
descend_busy fuel with_deleted rows found h = ground arith

-- With more rounds than rows that are not found yet, the query ends with a set below which there is
-- no row outside of it.
pub descend-Closed :
    (fuel : ℕ) (with_deleted : Bool) (rows : List FileRow) (found : List Text)
    → count_rows (unfound found) rows < fuel
    → Closed with_deleted (descend fuel with_deleted rows found) rows
unfolding descend Closed
descend-Closed zero with_deleted rows found h = absurd (omega (arith, h))
descend-Closed (suc fuel) with_deleted rows found h =
    let new = row_ids (keep (joins with_deleted found) rows) in
    let shrinks =
      count_shrinks with_deleted found new rows
        (kept_ids (joins with_deleted found) rows new (λ x k. k)) in
    elim (ℕ_discrete (length (keep (joins with_deleted found) rows)) 0) [
      | yes quiet ↦
          rw (descend_quiet fuel with_deleted rows found quiet)
            (keep-none (joins with_deleted found) rows quiet)
      | no busy ↦
          rw (descend_busy fuel with_deleted rows found busy)
            (descend-Closed fuel with_deleted rows (found ++ new) (omega (arith, h, shrinks, busy)))
    ]

-- What is found at the start is found at the end.
pub descend_mono :
    (fuel : ℕ) (with_deleted : Bool) (rows : List FileRow) (found : List Text) (x : Text)
    → contains found x ≡ true
    → contains (descend fuel with_deleted rows found) x ≡ true
unfolding descend
descend_mono zero with_deleted rows found x h = h
descend_mono (suc fuel) with_deleted rows found x h = ground (
  arith,
  contains-append found (row_ids (keep (joins with_deleted found) rows)) x,
  descend_mono fuel with_deleted rows (found ++ row_ids (keep (joins with_deleted found) rows)) x,
)

unfound-length :
    (found : List Text) (rows : List FileRow) → count_rows (unfound found) rows ≤ length rows
unfound-length found rows = count_rows-le-length (unfound found) rows

pub descendant_ids-query :
    (with_deleted : Bool) (rows : List FileRow) (ids : List Text) (b : ℕ)
    → length (normalize_ids [] ids) ≡ suc b
    → descendant_ids with_deleted rows ids
      ≡ descend
          (suc (length rows))
          with_deleted
          rows
          (row_ids (keep (named_in (normalize_ids [] ids)) rows))
unfolding descendant_ids
descendant_ids-query with_deleted rows ids b h = ground (arith, h)

-- The rounds that the query of some ids is given are enough.
pub descendant_ids-Closed :
    (with_deleted : Bool) (rows : List FileRow) (ids : List Text) (b : ℕ)
    → length (normalize_ids [] ids) ≡ suc b
    → Closed with_deleted (descendant_ids with_deleted rows ids) rows
descendant_ids-Closed with_deleted rows ids b h =
    let start = row_ids (keep (named_in (normalize_ids [] ids)) rows) in
    rw (descendant_ids-query with_deleted rows ids b h) (
      descend-Closed (suc (length rows)) with_deleted rows start
        (omega (arith, unfound-length start rows)))
