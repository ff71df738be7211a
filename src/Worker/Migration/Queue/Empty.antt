-- ===== src/Worker/Migration/Queue/Empty.antt =====
-- After a pass no migration waits.
use dyson_fs.Base.{
  Bool, List, Nil-cases, Option-cases, Result, Text, [], ap, arith, count-queue_of, count_rows,
  count_rows-le-length, err, false, if◌then◌else◌, inl, inr, length, none, not, ok, queue_of-nil,
  queue_of-passes, refl, some, subst, suc, unmatched, unmatched-none, update_rows, zero, ℕ,
  ℕ_discrete, ◌&&◌, ◌+◌, ◌<◌, ◌==◌, ◌∷◌, ◌≡◌, ◌≤◌, nat_eq, text_equality,
}
use dyson_fs.Tasks.{completed, failed, processing}
use dyson_fs.Worker.Migration.{Backends, MigrationPool, MigrationError, World, invalid_parameters}
use dyson_fs.Worker.Migration.Ends.{run_pool_migration-returns}
use dyson_fs.Worker.Migration.Queue.{
  MigrationTask, is_pending, has_id, waits, candidates, set_status, finish_task, run_task,
  reset_stale, claim, run_tasks, process_pool_migrations,
}

run_task-returns :
    {S B : Type 0} (b : Backends S B) (pools : List MigrationPool) (c : MigrationTask) (w : World S)
    → (r : Result MigrationError ℕ) × ((run_task b pools c w).1 ≡ some r)
unfolding run_task
run_task-returns b pools c w = elim (Option-cases c.parameters) [
  | inl bad ↦ (err invalid_parameters, rw (bad, run_task) refl)
  | inr (p, good) ↦
      let (r, run) = run_pool_migration-returns b pools p w in (r, rw (good, run_task) run)
]

-- Updates that leave no row of an id pending take at least one waiting task away.
update_less :
    (p : MigrationTask → Bool) (f : MigrationTask → MigrationTask) (l : List MigrationTask)
    → ((t : MigrationTask) → waits (f t) ≡ false)
    → count_rows waits (update_rows p f l)
        + (if count_rows (λ t. p t && waits t) l == 0 then 0 else 1)
      ≤ count_rows waits l
unfolding count_rows update_rows ℕ_discrete
update_less p f [] quiet = omega arith
update_less p f (t ∷ l) quiet = ground (arith, quiet t, update_less p f l quiet)

finish_less :
    (now : ℕ) (r : Result MigrationError ℕ) (id : Text) (l : List MigrationTask)
    → count_rows waits (finish_task now r id l) ≤ count_rows waits l
unfolding finish_task set_status waits is_pending
finish_less now (ok n) id l =
    omega (arith, update_less (has_id id) (set_status now completed) l (λ t. ground arith))
finish_less now (err e) id l = omega (
  arith,
  update_less (has_id id) (λ t. record (set_status now failed t) { message = some e }) l
      (λ t. ground arith),
)

shared : MigrationTask → MigrationTask → Bool
shared c t = has_id c.task_id t

-- The first candidate is still pending when it is claimed.
first_pending :
    (tasks queue : List MigrationTask) (c : MigrationTask)
    → candidates tasks ≡ c ∷ queue
    → 0 < count_rows (λ t. shared c t && waits t) tasks
unfolding candidates count_rows shared has_id unmatched
first_pending tasks queue c first =
    let test = unmatched waits shared tasks in
    let none_there = unmatched-none waits shared (λ t. ground arith) tasks in
    let passes = queue_of-passes 10 (λ (t : MigrationTask). t.created_at) waits tasks in
    let few = count-queue_of 10 (λ (t : MigrationTask). t.created_at) test waits tasks in
    let none_here : count_rows test (c ∷ queue) ≡ 0 =
      omega (arith, none_there, few, ap (count_rows test) first) in
    let all_wait : count_rows (λ t. not (waits t)) (c ∷ queue) ≡ 0 =
      subst (λ l. count_rows (λ t. not (waits t)) l ≡ 0) first passes in
    ground (arith, none_here, all_wait)

pending_more :
    (c : MigrationTask) (l : List MigrationTask)
    → count_rows (λ t. shared c t && waits t) l
      ≤ count_rows (λ t. has_id c.task_id t && is_pending t.status) l
unfolding count_rows shared waits
pending_more c [] = omega arith
pending_more c (t ∷ l) = ground (arith, pending_more c l)

same_waiting :
    (c : MigrationTask) (l : List MigrationTask)
    → count_rows (λ t. shared c t && waits t) l
      ≤ count_rows (λ t. (has_id c.task_id t && is_pending t.status) && waits t) l
unfolding count_rows shared waits
same_waiting c [] = omega arith
same_waiting c (t ∷ l) = ground (arith, same_waiting c l)

processing_quiet : (now : ℕ) (t : MigrationTask) → waits (set_status now processing t) ≡ false
unfolding waits set_status is_pending
processing_quiet now t = ground arith

nothing_waits : (tasks : List MigrationTask) → candidates tasks ≡ [] → count_rows waits tasks ≡ 0
unfolding candidates
nothing_waits tasks h = queue_of-nil 9 (λ t. t.created_at) waits tasks h

length-update_rows :
    (p : MigrationTask → Bool) (f : MigrationTask → MigrationTask) (l : List MigrationTask)
    → length (update_rows p f l) ≡ length l
unfolding update_rows
length-update_rows p f [] = refl
length-update_rows p f (t ∷ l) = ap suc (length-update_rows p f l)

length-reset_stale :
    (now : ℕ) (tasks : List MigrationTask) → length (reset_stale now tasks) ≡ length tasks
unfolding reset_stale
length-reset_stale now tasks = length-update_rows _ _ tasks

-- The rows after the claim of a task.
claimed : ℕ → MigrationTask → List MigrationTask → List MigrationTask
claimed now c =
    update_rows (λ t. has_id c.task_id t && is_pending t.status) (set_status now processing)

claim-none : (now : ℕ) (tasks : List MigrationTask) → claim now [] tasks ≡ none
unfolding claim
claim-none now tasks = refl

claim-some :
    (now : ℕ) (tasks queue : List MigrationTask) (c : MigrationTask)
    → 0 < count_rows (λ t. shared c t && waits t) tasks
    → claim now (c ∷ queue) tasks ≡ some (c, claimed now c tasks)
unfolding claim claimed
claim-some now tasks queue c h = ground (arith, h, pending_more c tasks)

claimed_less :
    (now : ℕ) (tasks : List MigrationTask) (c : MigrationTask)
    → 0 < count_rows (λ t. shared c t && waits t) tasks
    → count_rows waits (claimed now c tasks) < count_rows waits tasks
unfolding claimed set_status
claimed_less now tasks c h = ground (
  arith,
  h,
  same_waiting c tasks,
  update_less (λ t. has_id c.task_id t && is_pending t.status) (set_status now processing) tasks
      (λ t. processing_quiet now t),
)

run_tasks-none :
    {S B : Type 0} (b : Backends S B) (fuel now : ℕ) (pools : List MigrationPool)
    (tasks : List MigrationTask) (w : World S)
    → count_rows waits tasks < fuel
    → (after : List MigrationTask) × (w' : World S) × (run_tasks b fuel now pools tasks w
        ≡ some (after, w'))
      × (count_rows waits after ≡ 0)
unfolding run_tasks
run_tasks-none b zero now pools tasks w h = absurd (omega (arith, h))
run_tasks-none b (suc fuel) now pools tasks w h = elim (Nil-cases (candidates tasks)) [
  | inl empty ↦
      (tasks, w, rw (empty, run_tasks) (rw (claim-none now tasks) refl), nothing_waits tasks empty)
  | inr (c, queue, first) ↦
      let pending_one = first_pending tasks queue c first in
      let (r, ran) = run_task-returns b pools c w in
      let next = finish_task now r c.task_id (claimed now c tasks) in
      let (after, w', rest, quiet) = run_tasks-none b fuel now pools next (run_task b pools c w).0 (
        omega (
          arith,
          h,
          claimed_less now tasks c pending_one,
          finish_less now r c.task_id (claimed now c tasks),
        )) in
      (
        after,
        w',
        rw (first, run_tasks) (rw (claim-some now tasks queue c pending_one) (rw ran rest)),
        quiet,
      )
]

-- A pass over the tasks ends, whatever the tasks, pools and files are and whatever the object stores
-- answer, and then no migration is pending.
pub process_pool_migrations-none :
    {S B : Type 0} (b : Backends S B) (now : ℕ) (pools : List MigrationPool)
    (tasks : List MigrationTask) (w : World S)
    → (after : List MigrationTask) × (w' : World S) × (process_pool_migrations b now pools tasks w
        ≡ some (after, w'))
      × (count_rows waits after ≡ 0)
unfolding process_pool_migrations
process_pool_migrations-none b now pools tasks w =
    run_tasks-none b (suc (length tasks)) now pools (reset_stale now tasks) w (
      omega
        (arith, count_rows-le-length waits (reset_stale now tasks), length-reset_stale now tasks))
