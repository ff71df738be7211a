-- ===== src/Tasks.antt =====
-- internal/service/service.go, TaskService, and the expiry of internal/service/transfer.go: the rows
-- of upload tasks and of received chunks. A task is found by its task id; `updated_at` and
-- `last_activity` are seconds. A call takes the instant at which it runs.
pub mod Chunks
pub mod Status
pub mod Parts
pub mod UploadName
mod Tests
use dyson_fs.Base.{
  Bool, List, Option, Text, [], any_row, contains, count_rows, false, find_first, if◌then◌else◌,
  is_blank, keep, ltb, none, some, suc, trim_space, true, update_rows, ℕ, ◌&&◌, ◌++◌, ◌==◌, ◌∷◌,
  nat_eq, text_equality,
}

pub data TaskStatus : Type 0 where
  pending : TaskStatus
  in_progress : TaskStatus
  processing : TaskStatus
  completed : TaskStatus
  failed : TaskStatus
  cancelled : TaskStatus
  expired : TaskStatus

pub data UploadStatus : Type 0 where
  unknown : UploadStatus
  uploading : UploadStatus
  upload_processing : UploadStatus
  upload_completed : UploadStatus
  upload_failed : UploadStatus

-- The columns that the operations read and write. `uploaded_chunks` is the JSON list of a task from
-- before the table of chunks; `progress` is in percent.
pub record Task : Type 0 where
  pub task_id : Text
  pub account : Text
  pub is_file_upload : Bool
  pub status : TaskStatus
  pub upload_status : UploadStatus
  pub hash : Text
  pub file_size : ℕ
  pub pool_id : Option Text
  pub parent_id : Option Text
  pub workspace_id : Option Text
  pub overwrite_id : Option Text
  pub source_key : Option Text
  pub uploaded_chunks : List ℕ
  pub chunks_uploaded : ℕ
  pub progress : ℕ
  pub message : Text
  pub updated_at : ℕ
  pub last_activity : ℕ

pub record Chunk : Type 0 where
  pub chunk_task : Text
  pub chunk_index : ℕ

pub record TaskTable : Type 0 where
  pub tasks : List Task
  pub chunks : List Chunk

unfoldable pub is_task : Text → Task → Bool
is_task id t = t.task_id == id

unfoldable pub get_task : TaskTable → Text → Option Task
get_task db id = find_first (is_task id) db.tasks

unfoldable pub touch : ℕ → Task → Task
touch now t = record t { updated_at = now; last_activity = now }

-- `UPDATE … WHERE task_id = ?`, with the two times that every update sets.
unfoldable pub update_task : ℕ → Text → (Task → Task) → TaskTable → TaskTable
update_task now id f db = record db {
  tasks = update_rows (is_task id) (λ t. touch now (f t)) db.tasks;
}

unfoldable pub is_chunk : Text → ℕ → Chunk → Bool
is_chunk id index c = (c.chunk_task == id) && (c.chunk_index == index)

-- UpdateUploadedChunk: the insert does nothing if the chunk is there, and then nothing is counted.
unfoldable pub update_uploaded_chunk : ℕ → Text → ℕ → TaskTable → TaskTable
update_uploaded_chunk now id index db =
    let inserted = record db {
      chunks = db.chunks ++ record { chunk_task = id; chunk_index = index } ∷ [];
    } in
    if any_row (is_chunk id index) db.chunks
    then db
    else update_task now id (λ t. record t { chunks_uploaded = suc t.chunks_uploaded }) inserted

-- IsChunkUploaded; `none` is the error of a task that is not found. The chunks that
-- populateUploadedChunks adds to the list of the task have rows, which were looked up before.
unfoldable pub is_chunk_uploaded : TaskTable → Text → ℕ → Option Bool
is_chunk_uploaded db id index =
    if any_row (is_chunk id index) db.chunks
    then some true
    else elim (get_task db id) [ none ↦ none | some t ↦ some (contains t.uploaded_chunks index) ]

unfoldable pub is_uploading : Task → Bool
is_uploading t = elim t.upload_status [
  | unknown ↦ false
  | uploading ↦ true
  | upload_processing ↦ false
  | upload_completed ↦ false
  | upload_failed ↦ false
]

-- MarkProcessing: the conditional update must change exactly one row.
unfoldable pub mark_processing : ℕ → Text → Text → TaskTable → TaskTable × Bool
mark_processing now id key db =
    let claims = λ (t : Task). is_task id t && is_uploading t in
    let claimed = λ (t : Task). touch now (record t {
      status = processing;
      upload_status = upload_processing;
      source_key = some key;
    }) in
    (record db { tasks = update_rows claims claimed db.tasks }, count_rows claims db.tasks == 1)

unfoldable pub mark_completed : ℕ → Text → TaskTable → TaskTable
mark_completed now id =
    update_task now id
      (λ t. record t { status = completed; upload_status = upload_completed; progress = 100 })

unfoldable pub mark_failed : ℕ → Text → Text → TaskTable → TaskTable
mark_failed now id message =
    update_task now id
      (λ t. record t { status = failed; upload_status = upload_failed; message = message })

unfoldable pub fail_task : ℕ → Text → Text → TaskTable → TaskTable
fail_task now id message = update_task now id (λ t. record t { status = failed; message = message })

unfoldable pub complete_task : ℕ → Text → TaskTable → TaskTable
complete_task now id = update_task now id (λ t. record t { status = completed; progress = 100 })

unfoldable pub reset_pending : ℕ → Text → TaskTable → TaskTable
reset_pending now id = update_task now id (λ t. record t { status = pending; progress = 0 })

-- The claim of expireStaleUploadTask; the second component says whether a row was claimed, and only
-- then the stored object is aborted and deleted.
unfoldable pub expire_stale : ℕ → ℕ → Text → Text → TaskTable → TaskTable × Bool
expire_stale now cutoff id message db =
    let claims = λ (t : Task). is_task id t && is_uploading t && ltb t.updated_at cutoff in
    let claimed = λ (t : Task).
      touch now (record t { status = expired; upload_status = upload_failed; message = message }) in
    (record db { tasks = update_rows claims claimed db.tasks }, ltb 0 (count_rows claims db.tasks))

-- ptrStringEqual
unfoldable pub ptr_string_equal : Option Text → Option Text → Bool
ptr_string_equal none none = true
ptr_string_equal none (some b) = false
ptr_string_equal (some a) none = false
ptr_string_equal (some a) (some b) = trim_space a == trim_space b

unfoldable pub text_or_empty : Option Text → Text
text_or_empty none = []
text_or_empty (some s) = trim_space s

pub record Destination : Type 0 where
  pub pool : Option Text
  pub parent : Option Text
  pub workspace : Option Text
  pub overwrite : Option Text

unfoldable pub is_candidate : Text → Text → ℕ → Task → Bool
is_candidate account hash size t =
    (t.account == account)
    && is_uploading t
    && t.is_file_upload
    && (t.hash == hash)
    && (t.file_size == size)

unfoldable pub is_destination : Destination → Task → Bool
is_destination d t =
    (text_or_empty t.pool_id == text_or_empty d.pool)
    && ptr_string_equal t.parent_id d.parent
    && ptr_string_equal t.workspace_id d.workspace
    && ptr_string_equal t.overwrite_id d.overwrite

unfoldable pub find_resumable : TaskTable → Text → Text → ℕ → Destination → Option Task
find_resumable db account hash size d =
    if is_blank hash
    then none
    else find_first (is_destination d) (keep (is_candidate account hash size) db.tasks)
