-- ===== src/Worker/Migration/Queue.antt =====
-- internal/worker/worker.go, processPoolMigrations: the tasks of migrations. The counters of progress
-- are left out.
pub mod Empty
use dyson_fs.Base.{
  Bool, List, Option, Result, Text, [], count_rows, err, false, if◌then◌else◌, length, ltb, none,
  ok, queue_of, some, suc, true, update_rows, zero, ℕ, ◌&&◌, ◌+◌, ◌==◌, ◌∷◌, nat_eq, text_equality,
}
use dyson_fs.Tasks.{
  TaskStatus, pending, in_progress, processing, completed, failed, cancelled, expired,
}
use dyson_fs.Worker.Migration.{
  Backends, MigrationPool, MigrationError, World, MigrationParameters, run_pool_migration,
  invalid_parameters,
}

-- `none` for parameters that are no JSON of a migration.
pub record MigrationTask : Type 0 where
  pub task_id : Text
  pub is_migration : Bool
  pub status : TaskStatus
  pub created_at : ℕ
  pub last_activity : ℕ
  pub parameters : Option MigrationParameters
  pub message : Option MigrationError

unfoldable pub is_pending : TaskStatus → Bool
is_pending pending = true
is_pending in_progress = false
is_pending processing = false
is_pending completed = false
is_pending failed = false
is_pending cancelled = false
is_pending expired = false

unfoldable pub is_processing : TaskStatus → Bool
is_processing pending = false
is_processing in_progress = false
is_processing processing = true
is_processing completed = false
is_processing failed = false
is_processing cancelled = false
is_processing expired = false

unfoldable pub has_id : Text → MigrationTask → Bool
has_id id t = t.task_id == id

unfoldable pub waits : MigrationTask → Bool
waits t = t.is_migration && is_pending t.status

-- A task that was left behind in the middle of a migration is taken up again.
unfoldable pub reset_stale : ℕ → List MigrationTask → List MigrationTask
reset_stale now =
    update_rows (λ t. t.is_migration && is_processing t.status && ltb (t.last_activity + 900) now)
      (λ t. record t { status = pending; last_activity = now })

unfoldable pub candidates : List MigrationTask → List MigrationTask
candidates tasks = queue_of 10 (λ t. t.created_at) waits tasks

unfoldable pub set_status : ℕ → TaskStatus → MigrationTask → MigrationTask
set_status now status t = record t { status = status; last_activity = now }

-- The first candidate whose conditional update changes a row.
unfoldable pub claim :
    ℕ → List MigrationTask → List MigrationTask → Option (MigrationTask × List MigrationTask)
claim now [] tasks = none
claim now (c ∷ queue) tasks =
    let claims = λ (t : MigrationTask). has_id c.task_id t && is_pending t.status in
    let rest = claim now queue tasks in
    if count_rows claims tasks == 0
    then rest
    else some (c, update_rows claims (set_status now processing) tasks)

-- The status that a migration ends with.
unfoldable pub finish_task :
    ℕ → Result MigrationError ℕ → Text → List MigrationTask → List MigrationTask
finish_task now (ok moved) id tasks = update_rows (has_id id) (set_status now completed) tasks
finish_task now (err e) id tasks =
    update_rows (has_id id) (λ t. record (set_status now failed t) { message = some e }) tasks

module _ {S B : Type 0} (b : Backends S B) where
  unfoldable pub run_task :
      List MigrationPool → MigrationTask → World S → World S × Option (Result MigrationError ℕ)
  run_task pools c w = elim c.parameters [
    | none ↦ (w, some (err invalid_parameters))
    | some p ↦ run_pool_migration b pools p w
  ]

  -- The loop over claimed tasks; `none` is a loop that does not end.
  unfoldable pub run_tasks :
      ℕ
      → ℕ
      → List MigrationPool
      → List MigrationTask
      → World S
      → Option (List MigrationTask × World S)
  run_tasks zero now pools tasks w = none
  run_tasks (suc fuel) now pools tasks w = elim (claim now (candidates tasks) tasks) [
    | none ↦ some (tasks, w)
    | some (c, claimed) ↦
        let (after, outcome) = run_task pools c w in
        elim outcome [
          | none ↦ none
          | some r ↦ run_tasks fuel now pools (finish_task now r c.task_id claimed) after
        ]
  ]

  unfoldable pub process_pool_migrations :
      ℕ → List MigrationPool → List MigrationTask → World S → Option (List MigrationTask × World S)
  process_pool_migrations now pools tasks w =
      run_tasks (suc (length tasks)) now pools (reset_stale now tasks) w
