-- ===== src/Worker/Reanalysis.antt =====
-- internal/worker/worker.go: the queue of objects whose source is analyzed again.
pub mod Rows
pub mod Queue
pub mod Round
pub mod Drain
pub mod Passes
mod Tests
use dyson_fs.Base.{
  Bool, List, Result, Text, [], any_row, contains, err, false, if◌then◌else◌, leb, ltb, not, ok,
  queue_of, suc, trim_space, true, update_rows, ℕ, ◌&&◌, ◌+◌, ◌==◌, ◌∷◌, nat_eq, text_equality,
}
use dyson_fs.Core.{AnalysisRegistry, any_kind}

-- The columns of a stored object that the queue reads and writes; times are seconds.
pub record QueueObject : Type 0 where
  pub object_id : Text
  pub is_deleted : Bool
  pub needs_reanalysis : Bool
  pub attempts : ℕ
  pub updated_at : ℕ

-- The objects, and the object ids of the live files.
pub record QueueTables : Type 0 where
  pub objects : List QueueObject
  pub file_objects : List Text

-- What the storage and the analysis tools do at an instant: whether the pool of the object's file is
-- there, whether the source of an object is analyzed again, and whether the metadata of its file is published.
pub record Tools : Type 0 where
  pub has_pool : ℕ → Text → Bool
  pub refresh : ℕ → Text → Bool
  pub publish : ℕ → Text → Bool

abbrev pub max_attempts : ℕ
max_attempts = 3

abbrev pub queue_delay : ℕ
queue_delay = 30

unfoldable pub is_object : Text → QueueObject → Bool
is_object id o = o.object_id == id

unfoldable pub is_flagged : QueueObject → Bool
is_flagged o = o.needs_reanalysis && not o.is_deleted

unfoldable pub is_due : ℕ → QueueObject → Bool
is_due now o = is_flagged o && ltb (o.updated_at + queue_delay) now

unfoldable pub is_live : Text → QueueObject → Bool
is_live id o = is_object id o && not o.is_deleted

-- `UPDATE … WHERE id = ?` on the rows that are not deleted.
unfoldable pub update_objects : Text → (QueueObject → QueueObject) → QueueTables → QueueTables
update_objects id f db = record db { objects = update_rows (is_live id) f db.objects }

-- `err true` stands for a record that is not found, and `err false` for every other error.
unfoldable pub reanalyze_stored_object : Tools → ℕ → Text → QueueTables → Result Bool QueueTables
reanalyze_stored_object tools now raw db =
    let id = trim_space raw in
    if id == []
    then err false
    else if not (any_row (is_live id) db.objects)
    then err true
    else if not (contains db.file_objects id)
    then err true
    else if not (tools.has_pool now id)
    then err true
    else if not (tools.refresh now id)
    then err false
    else ok (update_objects id (λ o. record o { updated_at = now }) db)

unfoldable pub clear_reanalysis : ℕ → Text → QueueTables → QueueTables
clear_reanalysis now id =
    update_objects id (λ o. record o { needs_reanalysis = false; attempts = 0; updated_at = now })

-- failReanalysis, with the attempts of the object as it was read.
unfoldable pub failed_once : ℕ → ℕ → QueueObject → QueueObject
failed_once now read o =
    let tried = record o { attempts = suc read; updated_at = now } in
    if leb max_attempts (suc read) then record tried { needs_reanalysis = false } else tried

unfoldable pub fail_reanalysis : ℕ → QueueObject → QueueTables → QueueTables
fail_reanalysis now read = update_objects read.object_id (failed_once now read.attempts)

-- One round of the loop over the objects of the queue.
unfoldable pub reanalyze_next : Tools → ℕ → QueueObject → QueueTables → QueueTables
reanalyze_next tools now read db = elim (reanalyze_stored_object tools now read.object_id db) [
  | err missing ↦
      if missing then clear_reanalysis now read.object_id db else fail_reanalysis now read db
  | ok analyzed ↦
      if tools.publish now read.object_id
      then clear_reanalysis now read.object_id analyzed
      else fail_reanalysis now read analyzed
]

unfoldable pub reanalyze_each : Tools → ℕ → List QueueObject → QueueTables → QueueTables
reanalyze_each tools now [] db = db
reanalyze_each tools now (read ∷ queue) db =
    reanalyze_each tools now queue (reanalyze_next tools now read db)

unfoldable pub reanalysis_queue : ℕ → List QueueObject → List QueueObject
reanalysis_queue now objects = queue_of 20 (λ o. o.updated_at) (is_due now) objects

-- processReanalysisQueue of a worker that has a database and files.
unfoldable pub process_reanalysis_queue : Tools → AnalysisRegistry → ℕ → QueueTables → QueueTables
process_reanalysis_queue tools analysis now db =
    if any_kind analysis then reanalyze_each tools now (reanalysis_queue now db.objects) db else db

-- The passes at the given instants.
unfoldable pub run_passes : Tools → AnalysisRegistry → List ℕ → QueueTables → QueueTables
run_passes tools analysis [] db = db
run_passes tools analysis (now ∷ times) db =
    run_passes tools analysis times (process_reanalysis_queue tools analysis now db)
