-- ===== src/Worker/Uploads/Settled.antt =====
-- Every processed upload is settled, as completed or as failed.
use dyson_fs.Base.{
  Bool, List, Option, Option-cases, Text, [], arith, codes, count_rows, false, find_first,
  if◌then◌else◌, inl, inr, none, not, refl, some, text_discrete, true, update_rows, ℕ, ◌&&◌, ◌==◌,
  ◌∷◌, ◌≡◌, nat_eq, text_equality,
}
use dyson_fs.Tasks.{
  UploadStatus, Task, is_task, unknown, uploading, upload_processing, upload_completed,
  upload_failed, TaskTable, touch, update_task, mark_completed, mark_failed, completed, failed,
}
use dyson_fs.Worker.Uploads.{
  UploadTables, UploadFile, UploadEvent, Sources, Message, Derivatives, is_upload_file,
  set_file_status, mark_upload_failed, mark_upload_completed, process_uploaded_file, process_parent,
}

unfoldable pub is_status : UploadStatus → UploadStatus → Bool
is_status unknown unknown = true
is_status uploading uploading = true
is_status upload_processing upload_processing = true
is_status upload_completed upload_completed = true
is_status upload_failed upload_failed = true
is_status a b = false

-- The files of an id, and the tasks of an id, that have another status.
unfoldable pub unsettled_files : UploadStatus → Text → List UploadFile → ℕ
unsettled_files status id =
    count_rows (λ f. is_upload_file id f && not (is_status f.file_status status))

unfoldable pub unsettled_tasks : UploadStatus → Text → List Task → ℕ
unsettled_tasks status id = count_rows (λ t. is_task id t && not (is_status t.upload_status status))

-- An event without a task is about no task.
unfoldable pub open_tasks : UploadStatus → Text → TaskTable → ℕ
open_tasks status id db = if id == [] then 0 else unsettled_tasks status id db.tasks

-- The status that the outcome of the processing stands for.
unfoldable pub settled_as : Option Message → UploadStatus
settled_as none = upload_completed
settled_as (some message) = upload_failed

files_settled :
    (status : UploadStatus) (id : Text) (l : List UploadFile)
    → is_status status status ≡ true
    → unsettled_files status id
        (update_rows (is_upload_file id) (λ f. record f { file_status = status }) l)
      ≡ 0
unfolding unsettled_files count_rows update_rows is_upload_file
files_settled status id [] self = refl
files_settled status id (f ∷ l) self = ground (arith, self, files_settled status id l self)

tasks_settled :
    (status : UploadStatus) (id : Text) (f : Task → Task) (l : List Task)
    → ((t : Task) → is_status (f t).upload_status status ≡ true)
    → unsettled_tasks status id (update_rows (is_task id) f l) ≡ 0
unfolding unsettled_tasks count_rows update_rows is_task
tasks_settled status id f [] self = refl
tasks_settled status id f (t ∷ l) self = ground (arith, self t, tasks_settled status id f l self)

failed_settled :
    (now : ℕ) (evt : UploadEvent) (message : Message) (db : UploadTables)
    → (unsettled_files upload_failed evt.event_file (mark_upload_failed now evt message db).files
        ≡ 0)
      × (open_tasks upload_failed evt.event_task (mark_upload_failed now evt message db).tasks ≡ 0)
unfolding mark_upload_failed set_file_status open_tasks mark_failed update_task touch is_status
    text_discrete update_rows
failed_settled now evt message db = elim (text_discrete evt.event_task []) [
  | yes blank ↦
      (rw blank (files_settled upload_failed evt.event_file db.files refl), ground (arith, blank))
  | no named ↦ (
    ground (arith, named, files_settled upload_failed evt.event_file db.files refl),
    ground (
      arith,
      named,
      tasks_settled upload_failed evt.event_task
          (λ t.
            touch now
              (record t { status = failed; upload_status = upload_failed; message = message }))
          db.tasks.tasks (λ t. refl),
    ),
  )
]

completed_settled :
    (now : ℕ) (evt : UploadEvent) (db : UploadTables)
    → (unsettled_files upload_completed evt.event_file (mark_upload_completed now evt db).files ≡ 0)
      × (open_tasks upload_completed evt.event_task (mark_upload_completed now evt db).tasks ≡ 0)
unfolding mark_upload_completed set_file_status open_tasks mark_completed update_task touch
    is_status text_discrete update_rows
completed_settled now evt db = elim (text_discrete evt.event_task []) [
  | yes blank ↦ (
    rw blank (files_settled upload_completed evt.event_file db.files refl),
    ground (arith, blank),
  )
  | no named ↦ (
    ground (arith, named, files_settled upload_completed evt.event_file db.files refl),
    ground (
      arith,
      named,
      tasks_settled upload_completed evt.event_task
          (λ t.
            touch now
              (record t { status = completed; upload_status = upload_completed; progress = 100 }))
          db.tasks.tasks (λ t. refl),
    ),
  )
]

-- After the processing of an upload the file, and the task if the event names one, have the upload
-- status of its outcome: completed if it returns no error, failed if it returns one, whichever step
-- failed.
pub process_uploaded_file-settled :
    (sources : Sources) (derivatives : Derivatives) (now : ℕ) (evt : UploadEvent)
    (db : UploadTables)
    → (unsettled_files
          (settled_as (process_uploaded_file sources derivatives now evt db).1)
          evt.event_file
          (process_uploaded_file sources derivatives now evt db).0.files
        ≡ 0)
      × (open_tasks
            (settled_as (process_uploaded_file sources derivatives now evt db).1)
            evt.event_task
            (process_uploaded_file sources derivatives now evt db).0.tasks
          ≡ 0)
unfolding process_uploaded_file settled_as
process_uploaded_file-settled sources derivatives now evt db =
    elim (Option-cases (find_first (is_upload_file evt.event_file) db.files)) [
      | inl missing ↦
          rw (missing, process_uploaded_file) (failed_settled now evt (codes "record not found") db)
      | inr (f, found) ↦ elim (Option-cases (process_parent sources derivatives evt f)) [
        | inl fine ↦ rw (found, process_uploaded_file) (rw fine (completed_settled now evt db))
        | inr (message, bad) ↦
            rw (found, process_uploaded_file) (rw bad (failed_settled now evt message db))
      ]
    ]
