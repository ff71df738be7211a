-- ===== src/Worker/Uploads/Tests.antt =====
-- An upload whose preview fails.
use dyson_fs.Base.{
  [], codes, false, find_first, has_prefix, is_blank, none, refl, row_at, some, split_two,
  text_discrete, to_lower, trim_space, update_rows, ℕ_discrete, ◌∷◌, ◌≡◌,
}
use dyson_fs.Tasks.{upload_processing, upload_failed}
use dyson_fs.Core.{handler, kind_of}
use dyson_fs.Worker.Uploads.{
  UploadTables, UploadFile, UploadEvent, Sources, Derivatives, is_upload_file, set_file_status,
  mark_upload_failed, first_non_empty, source_key_of, process_derived, source_path, process_parent,
  process_uploaded_file,
}
use dyson_fs.Worker.Uploads.Settled.{
  settled_as, unsettled_files, open_tasks, process_uploaded_file-settled,
}

abbrev photo : UploadFile
photo = record {
  upload_file_id = codes "f";
  file_object = some (record { mime_type = codes "image/png"; object_key = some (codes "k") });
  object_id = some (codes "o");
  storage_key = none;
  file_status = upload_processing;
}

abbrev uploads : UploadTables
uploads = record { files = photo ∷ []; tasks = record { tasks = []; chunks = [] } }

abbrev event : UploadEvent
event = record {
  event_file = codes "f";
  event_task = [];
  content_type = [];
  processing_path = codes "/tmp/x";
}

abbrev sources : Sources
sources = record { exists_at = λ path. false; copy_of = λ key. some (codes "/tmp/y") }

abbrev previews : Derivatives
previews = (codes "image", λ file path. some (codes "no preview")) ∷ []

-- The staged path is gone, the copy is read, and the preview fails.
preview_fails : process_uploaded_file sources previews 9 event uploads ≡ (
  record uploads { files = record photo { file_status = upload_failed } ∷ [] },
  some (codes "no preview"),
)
unfolding process_uploaded_file process_parent process_derived source_path source_key_of
    first_non_empty mark_upload_failed set_file_status is_upload_file find_first update_rows handler
    kind_of row_at split_two has_prefix to_lower trim_space is_blank text_discrete ℕ_discrete
preview_fails = refl

process_uploaded_file-settled_example :
    (unsettled_files
        (settled_as (process_uploaded_file sources previews 9 event uploads).1)
        (codes "f")
        (process_uploaded_file sources previews 9 event uploads).0.files
      ≡ 0)
    × (open_tasks
          (settled_as (process_uploaded_file sources previews 9 event uploads).1)
          []
          (process_uploaded_file sources previews 9 event uploads).0.tasks
        ≡ 0)
process_uploaded_file-settled_example =
    process_uploaded_file-settled sources previews 9 event uploads
