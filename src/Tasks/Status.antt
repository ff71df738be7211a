-- ===== src/Tasks/Status.antt =====
-- The two ways to claim an upload, by its completion and by its expiry.
use dyson_fs.Base.{
  Bool, List, Text, [], arith, count_rows, false, if◌then◌else◌, ltb, refl, some, suc, true,
  update_rows, ℕ, ◌&&◌, ◌+◌, ◌∷◌, ◌≡◌, ◌≤◌,
}
use dyson_fs.Tasks.{
  Task, TaskTable, mark_processing, expire_stale, is_task, is_uploading, processing, expired,
  upload_processing, upload_failed, touch,
}

pub data Claim : Type 0 where
  complete_with : Text → Claim
  expire_before : ℕ → Text → Claim

-- One attempt, and whether it claimed the upload.
unfoldable pub attempt : ℕ → Text → Claim → TaskTable → TaskTable × Bool
attempt now id (complete_with key) db = mark_processing now id key db
attempt now id (expire_before cutoff message) db = expire_stale now cutoff id message db

-- How many attempts of a sequence, each at its instant, claim the upload.
unfoldable pub successes : Text → List (ℕ × Claim) → TaskTable → ℕ
successes id [] db = 0
successes id (call ∷ calls) db =
    let done = attempt call.0 id call.1 db in
    let rest = successes id calls done.0 in if done.1 then suc rest else rest

unfoldable pub open_upload : Text → Task → Bool
open_upload id t = is_task id t && is_uploading t

-- The rows that an update claims are no longer open, and the others are as before.
count_claimed :
    (id : Text) (q : Task → Bool) (f : Task → Task)
    → ((t : Task) → q t ≡ true → open_upload id t ≡ true)
    → ((t : Task) → open_upload id (f t) ≡ false)
    → (ts : List Task)
    → count_rows (open_upload id) (update_rows q f ts) + count_rows q ts
      ≡ count_rows (open_upload id) ts
unfolding count_rows update_rows
count_claimed id q f sub closed [] = refl
count_claimed id q f sub closed (t ∷ ts) =
    ground (arith, sub t, closed t, count_claimed id q f sub closed ts)

-- An attempt that succeeds takes the upload, and one that fails leaves it open if it was.
attempt-open :
    (now : ℕ) (id : Text) (c : Claim) (db : TaskTable)
    → count_rows (open_upload id) db.tasks ≤ 1
    → count_rows (open_upload id) (attempt now id c db).0.tasks
        + (if (attempt now id c db).1 then 1 else 0)
      ≡ count_rows (open_upload id) db.tasks
unfolding attempt mark_processing expire_stale open_upload is_uploading touch
attempt-open now id (complete_with key) db unique = ground (
  arith,
  count_claimed id (open_upload id)
      (λ t. touch now (record t {
        status = processing;
        upload_status = upload_processing;
        source_key = some key;
      }))
      (λ t h. h) (λ t. ground arith) db.tasks,
)
attempt-open now id (expire_before cutoff message) db unique = ground (
  arith,
  count_claimed id (λ t. is_task id t && is_uploading t && ltb t.updated_at cutoff)
      (λ t.
        touch now (record t { status = expired; upload_status = upload_failed; message = message }))
      (λ t h. ground arith) (λ t. ground arith) db.tasks,
)

-- However the completion and the expiry of an upload interleave, over a table with at most one
-- uploading row for its id, at most one attempt claims it, and none if no row is uploading at the
-- start.
pub successes-bound :
    (id : Text) (calls : List (ℕ × Claim)) (db : TaskTable)
    → count_rows (open_upload id) db.tasks ≤ 1
    → successes id calls db ≤ count_rows (open_upload id) db.tasks
unfolding successes
successes-bound id [] db unique = omega arith
successes-bound id (call ∷ calls) db unique = ground (
  arith,
  attempt-open call.0 id call.1 db unique,
  successes-bound id calls (attempt call.0 id call.1 db).0,
)
