-- ===== src/Tree.antt =====
-- internal/service/service.go, FileService: the tree of files that the rows of cloud_files form. A
-- deleted row is soft-deleted; permission caches and the flags of derived files are left out.
pub mod Descendants
pub mod Least
pub mod Names
pub mod Moves
pub mod Purge
pub mod Recycle
mod Tests
use dyson_fs.Base.{
  Bool, List, Option, Text, [], any_row, contains, count_rows, false, if◌then◌else◌, is_blank, keep,
  length, none, not, some, suc, trim_space, true, update_rows, zero, ℕ, ◌&&◌, ◌++◌, ◌==◌, ◌||◌, ◌∷◌,
  nat_eq, text_equality,
}

pub record FileRow : Type 0 where
  pub row_id : Text
  pub parent : Option Text
  pub object : Option Text
  pub indexed : Bool
  pub is_deleted : Bool
  pub marked_recycle : Bool

-- The files, the file ids of the permission rows, and the ids of the stored objects.
pub record TreeTables : Type 0 where
  pub rows : List FileRow
  pub permission_files : List Text
  pub objects : List Text

unfoldable pub normalize_ids : List Text → List Text → List Text
normalize_ids seen [] = []
normalize_ids seen (raw ∷ ids) =
    let id = trim_space raw in
    let rest = normalize_ids seen ids in
    let more = normalize_ids (id ∷ seen) ids in
    if (id == []) || contains seen id then rest else id ∷ more

unfoldable pub parent_in : List Text → FileRow → Bool
parent_in found row = elim row.parent [ none ↦ false | some p ↦ contains found p ]

-- The recursive part of the query joins a row whose parent is found; UNION keeps the new ones.
unfoldable pub joins : Bool → List Text → FileRow → Bool
joins with_deleted found row =
    parent_in found row && (with_deleted || not row.is_deleted) && not (contains found row.row_id)

unfoldable pub row_ids : List FileRow → List Text
row_ids [] = []
row_ids (row ∷ rows) = row.row_id ∷ row_ids rows

-- The rounds of the recursion, until one finds no new row.
unfoldable pub descend : ℕ → Bool → List FileRow → List Text → List Text
descend zero with_deleted rows found = found
descend (suc fuel) with_deleted rows found =
    let new = keep (joins with_deleted found) rows in
    let rest = descend fuel with_deleted rows (found ++ row_ids new) in
    if length new == 0 then found else rest

unfoldable pub named_in : List Text → FileRow → Bool
named_in ids row = contains ids row.row_id

-- loadDescendantIDsWithDeleted: the first part of the query does not look at deletion.
unfoldable pub descendant_ids : Bool → List FileRow → List Text → List Text
descendant_ids with_deleted rows raw =
    let ids = normalize_ids [] raw in
    if length ids == 0
    then []
    else descend (suc (length rows)) with_deleted rows (row_ids (keep (named_in ids) rows))

unfoldable pub resolve_parent : Option Text → Option Text
resolve_parent none = none
resolve_parent (some p) = if is_blank p then none else some (trim_space p)

unfoldable pub move_row : Option Text → Option Bool → FileRow → FileRow
move_row parent none row = record row { parent = parent }
move_row parent (some indexed) row = record row { parent = parent; indexed = indexed }

unfoldable pub is_target : List Text → FileRow → Bool
is_target ids row = named_in ids row && not row.is_deleted

unfoldable pub reaches : List FileRow → List Text → Option Text → Bool
reaches rows ids none = false
reaches rows ids (some p) = contains (descendant_ids false rows ids) p

-- MoveBatch; `none` is the error of a parent among the moved files and what is below them.
unfoldable pub move_batch :
    List Text → Option Text → Option Bool → List FileRow → Option (List FileRow)
move_batch raw parent indexed rows =
    let ids = normalize_ids [] raw in
    let target = resolve_parent parent in
    if length ids == 0
    then some rows
    else if reaches rows ids target
    then none
    else some (update_rows (is_target ids) (move_row target indexed) rows)

-- DeleteFile: `none` if there is no such row; the file and what is below it are marked as deleted.
unfoldable pub delete_file : Text → List FileRow → Option (List FileRow)
delete_file id rows =
    let affected = descendant_ids false rows (id ∷ []) in
    if any_row (λ row. (row.row_id == id) && not row.is_deleted) rows
    then some (update_rows (is_target affected) (λ row. record row { is_deleted = true }) rows)
    else none

unfoldable pub refers_to : Text → FileRow → Bool
refers_to o row = elim row.object [ none ↦ false | some x ↦ x == o ]

unfoldable pub mentions : Text → FileRow → Bool
mentions o row = elim row.object [ none ↦ false | some x ↦ trim_space x == o ]

-- The loop over the purged rows: an object that no remaining row refers to is deleted.
unfoldable pub purge_objects : List FileRow → List FileRow → List Text → List Text
purge_objects purged kept [] = []
purge_objects purged kept (o ∷ objects) =
    let rest = purge_objects purged kept objects in
    if any_row (mentions o) purged && not (any_row (refers_to o) kept) && not (o == [])
    then rest
    else o ∷ rest

-- PurgeFile: `none` if there is no such row.
unfoldable pub purge_file : Text → TreeTables → Option TreeTables
purge_file raw t =
    let id = trim_space raw in
    let affected = descendant_ids true t.rows (id ∷ []) in
    let kept = keep (λ row. not (named_in affected row)) t.rows in
    if (id == []) || not (any_row (λ row. row.row_id == id) t.rows)
    then none
    else some (record {
      rows = kept;
      permission_files = keep (λ f. not (contains affected f)) t.permission_files;
      objects = purge_objects (keep (named_in affected) t.rows) kept t.objects;
    })

unfoldable pub set_recycled : Bool → List Text → List FileRow → List FileRow
set_recycled mark ids = update_rows (is_target ids) (λ row. record row { marked_recycle = mark })

unfoldable pub recycle_file : Text → List FileRow → List FileRow
recycle_file id = set_recycled true (id ∷ [])

unfoldable pub restore_file : Text → List FileRow → List FileRow
restore_file id = set_recycled false (id ∷ [])

-- RecycleBatch and RestoreBatch, with the number of rows that they change.
unfoldable pub set_recycled_batch : Bool → List Text → List FileRow → ℕ × List FileRow
set_recycled_batch mark raw rows =
    let ids = normalize_ids [] raw in
    if length ids == 0
    then (0, rows)
    else (count_rows (is_target ids) rows, set_recycled mark ids rows)

-- The loop of PurgeBatch; it stops at the first file that is not there.
unfoldable pub purge_each : List Text → TreeTables → ℕ × TreeTables
purge_each [] t = (0, t)
purge_each (id ∷ ids) t = elim (purge_file id t) [
  | none ↦ (0, t)
  | some after ↦ let (n, last) = purge_each ids after in (suc n, last)
]

unfoldable pub purge_batch : List Text → TreeTables → ℕ × TreeTables
purge_batch raw t = purge_each (normalize_ids [] raw) t
