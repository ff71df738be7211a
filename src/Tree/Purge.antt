-- ===== src/Tree/Purge.antt =====
-- What a purge leaves behind.
use dyson_fs.Base.{
  All, Bool, Bool-cases, List, Text, [], any_row, ap, arith, contains, false, inl, inr, keep,
  length, not, refl, some, subst, sym, text_discrete, trim_space, trim_space-trim_space, true, ◌==◌,
  ◌∙◌, ◌∷◌, ◌≡◌, ◌≢◌, nat_eq, text_equality,
}
use dyson_fs.Tree.{
  FileRow, TreeTables, parent_in, joins, named_in, refers_to, purge_objects, normalize_ids,
  descendant_ids, purge_file,
}
use dyson_fs.Tree.Descendants.{Closed, descendant_ids-Closed}
use dyson_fs.Tree.Least.{IsClosed, IsSubset, descendant_ids-least}

-- Every object that a file refers to is stored.
unfoldable pub Backed : TreeTables → Type 0
Backed t =
    (o : Text)
    → (o == []) ≡ false
    → any_row (refers_to o) t.rows ≡ true
    → contains t.objects o ≡ true

-- No file is directly below one of the given ids.
unfoldable pub NoneBelow : List Text → List FileRow → Type 0
NoneBelow ids = All (λ row. parent_in ids row ≡ false)

any_row-keep :
    (p q : FileRow → Bool) (rows : List FileRow)
    → any_row p (keep q rows) ≡ true
    → any_row p rows ≡ true
unfolding any_row keep
any_row-keep p q [] h = h
any_row-keep p q (row ∷ rows) h = ground (arith, any_row-keep p q rows)

contains-purge_objects :
    (purged kept : List FileRow) (objects : List Text) (o : Text)
    → any_row (refers_to o) kept ≡ true
    → contains objects o ≡ true
    → contains (purge_objects purged kept objects) o ≡ true
unfolding purge_objects contains
contains-purge_objects purged kept [] o used h = absurd (ground arith)
contains-purge_objects purged kept (x ∷ objects) o used h = elim (text_discrete x o) [
  | yes same ↦ let here = ap (λ y. any_row (refers_to y) kept) same in ground (arith, used, here)
  | no other ↦ ground (arith, h, contains-purge_objects purged kept objects o used)
]

kept_below :
    (with_deleted : Bool) (ids : List Text) (rows : List FileRow)
    → with_deleted ≡ true
    → Closed with_deleted ids rows
    → NoneBelow ids (keep (λ row. not (named_in ids row)) rows)
unfolding NoneBelow Closed keep named_in joins
kept_below with_deleted ids [] h closed = tt
kept_below with_deleted ids (row ∷ rows) h closed = elim (Bool-cases (contains ids row.row_id)) [
  | inl gone ↦ rw gone (kept_below with_deleted ids rows h closed.1)
  | inr stays ↦ rw stays (ground (arith, closed.0), kept_below with_deleted ids rows h closed.1)
]

purge_file-steps :
    (raw : Text) (t left : TreeTables)
    → purge_file raw t ≡ some left
    → (left.rows
        ≡ keep
            (λ row. not (named_in (descendant_ids true t.rows (trim_space raw ∷ [])) row))
            t.rows)
      × (left.objects
          ≡ purge_objects
              (keep (named_in (descendant_ids true t.rows (trim_space raw ∷ []))) t.rows)
              (keep
                (λ row. not (named_in (descendant_ids true t.rows (trim_space raw ∷ [])) row))
                t.rows)
              t.objects)
unfolding purge_file
purge_file-steps raw t left h = ground (arith, h)

-- A purge takes an object away only when no file refers to it any more: if every object that a file
-- refers to was stored, the same holds for the files that are left, deleted ones included.
pub purge_file-Backed :
    (raw : Text) (t left : TreeTables) → Backed t → purge_file raw t ≡ some left → Backed left
unfolding Backed
purge_file-Backed raw t left backed h o full used =
    let (rows, objects) = purge_file-steps raw t left h in
    let used_before = subst (λ l. any_row (refers_to o) l ≡ true) rows used in
    rw objects (
      contains-purge_objects _ _ t.objects o used_before
        (backed o full (any_row-keep (refers_to o) _ t.rows used_before)))

one_id : (raw : Text) → trim_space raw ≢ [] → length (normalize_ids [] (trim_space raw ∷ [])) ≡ 1
unfolding normalize_ids contains
one_id raw named =
    let trimmed : trim_space (trim_space raw) ≢ [] =
      λ e. named (sym (trim_space-trim_space raw) ∙ e) in
    ground (arith, trimmed)

only_id :
    (raw : Text)
    → trim_space raw ≢ []
    → normalize_ids [] (trim_space raw ∷ []) ≡ trim_space raw ∷ []
unfolding normalize_ids contains
only_id raw named =
    let same = trim_space-trim_space raw in
    let trimmed : trim_space (trim_space raw) ≢ [] = λ e. named (sym same ∙ e) in
    ground (arith, trimmed, same)

purge_file-found :
    (raw : Text) (t left : TreeTables)
    → purge_file raw t ≡ some left
    → (trim_space raw ≢ []) × (any_row (λ row. row.row_id == trim_space raw) t.rows ≡ true)
unfolding purge_file
purge_file-found raw t left h = ((λ e. ground (arith, h, e)), ground (arith, h))

-- A purge that succeeds removes exactly the rows whose ids are in a set that holds the purged id,
-- deleted rows included. No row that is left is directly below the set, and the set is the least
-- one: it lies in every set of ids that holds the purged id and, with a parent, the rows below it.
pub purge_file-NoneBelow :
    (raw : Text) (t left : TreeTables) (outer : List Text)
    → purge_file raw t ≡ some left
    → contains outer (trim_space raw) ≡ true
    → IsClosed outer t.rows
    → (gone : List Text) × (contains gone (trim_space raw) ≡ true)
      × (left.rows ≡ keep (λ row. not (contains gone row.row_id)) t.rows)
      × NoneBelow gone left.rows
      × IsSubset outer gone
unfolding named_in
purge_file-NoneBelow raw t left outer h held closed =
    let (named, there) = purge_file-found raw t left h in
    let (rows, objects) = purge_file-steps raw t left h in
    let (found, inside) =
      descendant_ids-least outer (trim_space raw) t.rows (only_id raw named) there held closed in
    (
      descendant_ids true t.rows (trim_space raw ∷ []),
      found,
      rows,
      rw rows (
          kept_below true _ t.rows refl
            (descendant_ids-Closed true t.rows (trim_space raw ∷ []) 0 (one_id raw named))),
      inside,
    )
