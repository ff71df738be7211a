-- ===== src/Worker/Uploads.antt =====
-- internal/worker/worker.go: ProcessUploadedFile, the end of an upload. The events that it publishes,
-- the compatibility flags and the temporary files are left out.
pub mod Settled
mod Tests
use dyson_fs.Base.{
  Bool, List, Option, Result, Text, [], codes, err, find_first, if◌then◌else◌, is_blank, none, not,
  ok, some, trim_space, update_rows, ℕ, ◌&&◌, ◌==◌, nat_eq, text_equality,
}
use dyson_fs.Core.{handler}
use dyson_fs.Tasks.{
  TaskTable, UploadStatus, mark_completed, mark_failed, upload_completed, upload_failed,
}

-- The columns of a file and of its object that the worker reads and writes.
pub record UploadObject : Type 0 where
  pub mime_type : Text
  pub object_key : Option Text

pub record UploadFile : Type 0 where
  pub upload_file_id : Text
  pub file_object : Option UploadObject
  pub object_id : Option Text
  pub storage_key : Option Text
  pub file_status : UploadStatus

pub record UploadEvent : Type 0 where
  pub event_file : Text
  pub event_task : Text
  pub content_type : Text
  pub processing_path : Text

pub record UploadTables : Type 0 where
  pub files : List UploadFile
  pub tasks : TaskTable

-- The file system and the storage: whether a path exists, and the path of the temporary copy of the
-- bytes under a key, if they are read and written.
pub record Sources : Type 0 where
  pub exists_at : Text → Bool
  pub copy_of : Text → Option Text

abbrev pub Message : Type 0
Message = Text

-- What makes the derivatives of a file from a path, by kind; `none` is success.
abbrev pub Derivatives : Type 0
Derivatives = List (Text × (Text → Text → Option Message))

unfoldable pub is_upload_file : Text → UploadFile → Bool
is_upload_file id f = f.upload_file_id == id

unfoldable pub set_file_status : Text → UploadStatus → UploadTables → UploadTables
set_file_status id status db = record db {
  files = update_rows (is_upload_file id) (λ f. record f { file_status = status }) db.files;
}

unfoldable pub mark_upload_failed : ℕ → UploadEvent → Message → UploadTables → UploadTables
mark_upload_failed now evt message db =
    let failed_task = record db { tasks = mark_failed now evt.event_task message db.tasks } in
    set_file_status evt.event_file upload_failed (if evt.event_task == [] then db else failed_task)

unfoldable pub mark_upload_completed : ℕ → UploadEvent → UploadTables → UploadTables
mark_upload_completed now evt db =
    let done = set_file_status evt.event_file upload_completed db in
    let done_task = record done { tasks = mark_completed now evt.event_task done.tasks } in
    if evt.event_task == [] then done else done_task

-- firstNonEmptyPtr of two pointers
unfoldable pub first_non_empty : Option Text → Option Text → Option Text
first_non_empty none none = none
first_non_empty none (some b) = if is_blank b then none else some (trim_space b)
first_non_empty (some a) none = if is_blank a then none else some (trim_space a)
first_non_empty (some a) (some b) =
    if not (is_blank a)
    then some (trim_space a)
    else if is_blank b
    then none
    else some (trim_space b)

-- The key from which openSourceObject reads.
unfoldable pub source_key_of : UploadFile → UploadObject → Option Text
source_key_of f o = elim (first_non_empty f.storage_key o.object_key) [
  | some key ↦ some key
  | none ↦ elim f.object_id [ none ↦ none | some id ↦ if is_blank id then none else some id ]
]

unfoldable pub process_derived : Derivatives → Text → UploadEvent → UploadObject → Option Message
process_derived derivatives path evt o =
    let mime =
      if not (evt.content_type == [])
      then evt.content_type
      else if not (o.mime_type == [])
      then o.mime_type
      else codes "application/octet-stream" in
    elim (handler derivatives mime) [ none ↦ none | some run ↦ run evt.event_file path ]

-- Where the bytes are: the staged path, if it is there, or a copy of the stored object.
unfoldable pub source_path : Sources → UploadEvent → UploadFile → UploadObject → Result Message Text
source_path sources evt f o =
    if not (evt.processing_path == []) && sources.exists_at evt.processing_path
    then ok evt.processing_path
    else elim (source_key_of f o) [
      | none ↦ err (codes "storage key missing")
      | some key ↦ elim (sources.copy_of key) [
        | none ↦ err (codes "read from storage")
        | some path ↦ ok path
      ]
    ]

unfoldable pub process_parent : Sources → Derivatives → UploadEvent → UploadFile → Option Message
process_parent sources derivatives evt f = elim f.file_object [
  | none ↦ some (codes "file object missing")
  | some o ↦ elim (source_path sources evt f o) [
    | err message ↦ some message
    | ok path ↦ process_derived derivatives path evt o
  ]
]

unfoldable pub process_uploaded_file :
    Sources → Derivatives → ℕ → UploadEvent → UploadTables → UploadTables × Option Message
process_uploaded_file sources derivatives now evt db =
    elim (find_first (is_upload_file evt.event_file) db.files) [
      | none ↦ (
        mark_upload_failed now evt (codes "record not found") db,
        some (codes "record not found"),
      )
      | some f ↦ elim (process_parent sources derivatives evt f) [
        | some message ↦ (mark_upload_failed now evt message db, some message)
        | none ↦ (mark_upload_completed now evt db, none)
      ]
    ]
