-- ===== src/Worker/Actions.antt =====
-- internal/worker/worker.go, handleFileAction: the events by which other services ask for a change of
-- a file. The errors of the operations are dropped.
use dyson_fs.Base.{Text, [], codes, if◌then◌else◌, none, some, ◌==◌, ◌||◌, nat_eq, text_equality}
use dyson_fs.Tree.{TreeTables, purge_file, recycle_file, restore_file}

unfoldable pub handle_file_action : Text → Text → TreeTables → TreeTables
handle_file_action action file_id t =
    let purged : TreeTables = elim (purge_file file_id t) [ none ↦ t | some after ↦ after ] in
    if file_id == []
    then t
    else if (action == codes "delete") || (action == codes "purge")
    then purged
    else if action == codes "recycle"
    then record t { rows = recycle_file file_id t.rows }
    else if action == codes "restore"
    then record t { rows = restore_file file_id t.rows }
    else t
