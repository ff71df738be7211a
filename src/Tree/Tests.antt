-- ===== src/Tree/Tests.antt =====
-- The tree at concrete inputs: a folder, a file in it, and a second folder.
use dyson_fs.Base.{
  List, Option, Text, [], any_row, arith, codes, contains, false, if◌then◌else◌, is_blank, keep,
  none, not, refl, some, subst, text_discrete, trim_space, true, update_rows, ℕ, ℕ_discrete, ◌<◌,
  ◌==◌, ◌∷◌, ◌≡◌, nat_eq, text_equality,
}
use dyson_fs.Tree.{
  FileRow, move_batch, TreeTables, normalize_ids, parent_in, joins, row_ids, descend, named_in,
  descendant_ids, resolve_parent, move_row, is_target, reaches, delete_file, refers_to,
  purge_objects, purge_file, mentions,
}
use dyson_fs.Tree.Moves.{HasNoCycle, move_batch-HasNoCycle, Ranked}
use dyson_fs.Tree.Least.{IsSubset}
use dyson_fs.Tree.Purge.{Backed, purge_file-Backed, NoneBelow, purge_file-NoneBelow}

program : Unit {0}
unfolding normalize_ids parent_in joins row_ids descend named_in descendant_ids resolve_parent
    move_row is_target reaches move_batch delete_file refers_to mentions purge_objects purge_file
    keep any_row update_rows contains text_discrete ℕ_discrete trim_space is_blank HasNoCycle Ranked
    Backed NoneBelow
program = tt

abbrev row_of : Text → Option Text → Option Text → FileRow
row_of id parent object = record {
  row_id = id;
  parent = parent;
  object = object;
  indexed = true;
  is_deleted = false;
  marked_recycle = false;
}

abbrev tree : List FileRow
tree =
    row_of (codes "a") none none
    ∷ row_of (codes "f") (some (codes "a")) (some (codes "o"))
    ∷ row_of (codes "b") none none
    ∷ []

-- A folder is not moved into a file that it holds.
refused : move_batch (codes "a" ∷ []) (some (codes "f")) none tree ≡ none
unfolding program
refused = refl

abbrev moved_tree : List FileRow
moved_tree =
    row_of (codes "a") (some (codes "b")) none
    ∷ row_of (codes "f") (some (codes "a")) (some (codes "o"))
    ∷ row_of (codes "b") none none
    ∷ []

abbrev depth : Text → ℕ
depth x = if x == codes "f" then 1 else 0

leaf : (p : Text) → some (codes "a") ≡ some p → depth p < 1
unfolding program
leaf p h = let same : codes "a" ≡ p = ground arith in subst (λ x. depth x < 1) same (omega arith)

no_cycle : HasNoCycle tree
unfolding program
no_cycle = (
  depth,
  (
    λ live p h. absurd (ground arith),
    (λ live p h. leaf p h, (λ live p h. absurd (ground arith), tt)),
  ),
)

move_batch-HasNoCycle_example : HasNoCycle moved_tree
unfolding program
move_batch-HasNoCycle_example =
    move_batch-HasNoCycle (codes " a" ∷ []) (some (codes "b")) none tree moved_tree no_cycle refl

abbrev tables : TreeTables
tables = record {
  rows = tree;
  permission_files = codes "f" ∷ [];
  objects = codes "o" ∷ codes "p" ∷ [];
}

abbrev purged : TreeTables
purged = record {
  rows = row_of (codes "b") none none ∷ [];
  permission_files = [];
  objects = codes "p" ∷ [];
}

purge_file-Backed_example : Backed purged
unfolding program
purge_file-Backed_example =
    purge_file-Backed (codes "a") tables purged (λ o full used. ground arith) refl

purge_file-NoneBelow_example :
    (gone : List Text) × (contains gone (codes "a") ≡ true)
    × (purged.rows ≡ keep (λ row. not (contains gone row.row_id)) tree)
    × NoneBelow gone purged.rows
    × IsSubset (codes "a" ∷ codes "f" ∷ []) gone
unfolding program
purge_file-NoneBelow_example =
    purge_file-NoneBelow (codes "a") tables purged (codes "a" ∷ codes "f" ∷ []) refl refl
      ((λ h. absurd (ground arith)), ((λ h. refl), ((λ h. absurd (ground arith)), tt)))
