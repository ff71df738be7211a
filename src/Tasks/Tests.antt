-- ===== src/Tasks/Tests.antt =====
-- Upload tasks at concrete inputs.
use dyson_fs.Base.{
  List, [], any_row, arith, codes, contains, count_rows, find_first, inr, is_blank, keep, none,
  refl, some, text_discrete, trim_space, true, update_rows, ℕ, ℕ_discrete, ◌∷◌, ◌≡◌, ◌≤◌, nat_eq,
  text_equality,
}
use dyson_fs.Tasks.{
  Task, TaskTable, update_uploaded_chunk, pending, uploading, is_task, get_task, touch, update_task,
  is_chunk, is_chunk_uploaded, is_uploading, mark_processing, mark_completed, mark_failed,
  fail_task, complete_task, reset_pending, expire_stale, ptr_string_equal, text_or_empty,
  is_candidate, is_destination, find_resumable,
}
use dyson_fs.Tasks.Chunks.{Single, of_task, Counted}
use dyson_fs.Tasks.Status.{
  successes, Claim, complete_with, expire_before, attempt, open_upload, successes-bound,
}
use dyson_fs.Tasks.Parts.{
  write_chunks, byte_at, write_at, to_int64, wrong_size, expected_size, copy_chunk,
  write_upload_chunk, chunk_of, in_file, write_chunks-content,
}

program : Unit {0}
unfolding is_task get_task touch update_task is_chunk update_uploaded_chunk is_chunk_uploaded
    is_uploading mark_processing mark_completed mark_failed fail_task complete_task reset_pending
    expire_stale ptr_string_equal text_or_empty is_candidate is_destination find_resumable keep
    find_first any_row update_rows count_rows contains text_discrete ℕ_discrete trim_space is_blank
    Counted Single of_task attempt successes open_upload byte_at write_at to_int64 expected_size
    copy_chunk write_upload_chunk chunk_of write_chunks in_file
program = tt

abbrev upload : Task
upload = record {
  task_id = codes "t";
  account = codes "ann";
  is_file_upload = true;
  status = pending;
  upload_status = uploading;
  hash = codes "h";
  file_size = 5;
  pool_id = none;
  parent_id = some (codes "d");
  workspace_id = none;
  overwrite_id = none;
  source_key = none;
  uploaded_chunks = [];
  chunks_uploaded = 0;
  progress = 0;
  message = [];
  updated_at = 1;
  last_activity = 1;
}

abbrev table : TaskTable
table = record { tasks = upload ∷ []; chunks = [] }

resumed :
    find_resumable table (codes "ann") (codes "h") 5 (record {
      pool = some (codes " ");
      parent = some (codes "d ");
      workspace = none;
      overwrite = none;
    })
    ≡ some upload
unfolding program
resumed = refl

abbrev attempts : List (ℕ × Claim)
attempts = (2, complete_with (codes "k")) ∷ (3, expire_before 9 (codes "old")) ∷ []

completed_first : successes (codes "t") attempts table ≡ 1
unfolding program
completed_first = refl

successes-bound_example :
    successes (codes "t") attempts table ≤ count_rows (open_upload (codes "t")) table.tasks
unfolding program
successes-bound_example = successes-bound (codes "t") attempts table (omega arith)

abbrev content : List ℕ
content = 11 ∷ 12 ∷ 13 ∷ 14 ∷ 15 ∷ []

-- A chunk that is too long is refused, and has overwritten the first byte of the next chunk.
overlong :
    (write_upload_chunk 0 2 5 (1 ∷ 2 ∷ 99 ∷ []) (write_chunks content 2 (1 ∷ []) (λ i. 0))).0 2 ≡ 99
unfolding program
overlong = refl

overlong_refused :
    (write_upload_chunk 0 2 5 (1 ∷ 2 ∷ 99 ∷ []) (write_chunks content 2 (1 ∷ []) (λ i. 0))).1
    ≡ some wrong_size
unfolding program
overlong_refused = refl

write_chunks-content_example :
    write_chunks content 2 (2 ∷ 0 ∷ 1 ∷ []) (λ i. 0) 3 ≡ byte_at content 3
unfolding program
write_chunks-content_example =
    write_chunks-content content (2 ∷ 0 ∷ 1 ∷ []) 2 3 (λ i. 0) (omega arith) (omega arith)
      (refl, (refl, (refl, tt))) (omega arith) (inr refl)
