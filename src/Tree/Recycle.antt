-- ===== src/Tree/Recycle.antt =====
-- The recycle bin, and the purge of several files.
use dyson_fs.Base.{Bool, List, Option-cases, Text, [], arith, inl, inr, refl, update_rows, ◌∷◌, ◌≡◌}
use dyson_fs.Tree.{FileRow, TreeTables, named_in, is_target, purge_file, set_recycled, purge_each}
use dyson_fs.Tree.Purge.{Backed, purge_file-Backed}

-- The last mark of the bin counts.
pub set_recycled-set_recycled :
    (first last : Bool) (ids : List Text) (rows : List FileRow)
    → set_recycled last ids (set_recycled first ids rows) ≡ set_recycled last ids rows
unfolding set_recycled update_rows is_target named_in
set_recycled-set_recycled first last ids [] = refl
set_recycled-set_recycled first last ids (row ∷ rows) =
    ground (arith, set_recycled-set_recycled first last ids rows)

-- PurgeBatch keeps the objects of the files that stay: after it, as before it, every row that names
-- an object finds it stored, also where the batch stops at a file that is not there.
pub purge_each-Backed : (ids : List Text) (t : TreeTables) → Backed t → Backed (purge_each ids t).1
unfolding purge_each
purge_each-Backed [] t backed = backed
purge_each-Backed (id ∷ ids) t backed = elim (Option-cases (purge_file id t)) [
  | inl gone ↦ rw (gone, purge_each) backed
  | inr (after, done) ↦
      rw (done, purge_each) (purge_each-Backed ids after (purge_file-Backed id t after backed done))
]
