-- ===== src/Worker/Reanalysis/Rows.antt =====
-- How often the objects of the queue may still be tried, and what one round does to that.
use dyson_fs.Base.{
  List, [], arith, count_rows, false, if◌then◌else◌, length, ltb, refl, suc, update_rows, ℕ, ◌&&◌,
  ◌*◌, ◌+◌, ◌-◌, ◌∷◌, ◌≡◌, ◌≤◌,
}
use dyson_fs.Worker.Reanalysis.{QueueObject, is_object, is_flagged, is_live, failed_once}

-- The tries that an object has left.
unfoldable pub tries_left : QueueObject → ℕ
tries_left o = if is_flagged o then suc (2 - o.attempts) else 0

unfoldable pub all_tries : List QueueObject → ℕ
all_tries [] = 0
all_tries (o ∷ objects) = tries_left o + all_tries objects

pub all_tries-bound : (objects : List QueueObject) → all_tries objects ≤ 3 * length objects
unfolding all_tries tries_left
all_tries-bound [] = omega arith
all_tries-bound (o ∷ objects) = ground (arith, all_tries-bound objects)

pub flagged_tries :
    (objects : List QueueObject) → all_tries objects ≡ 0 → count_rows is_flagged objects ≡ 0
unfolding all_tries tries_left count_rows
flagged_tries [] h = refl
flagged_tries (o ∷ objects) h = ground (arith, h, flagged_tries objects)

-- Rows of the same id that were tried more often than the row that was read.
unfoldable pub ahead : QueueObject → List QueueObject → ℕ
ahead read = count_rows (λ o. is_object read.object_id o && ltb read.attempts o.attempts)

unfoldable pub flagged_at : QueueObject → List QueueObject → ℕ
flagged_at read = count_rows (λ o. is_object read.object_id o && is_flagged o)

-- A failed try costs one of the tries of the object, if it was read as it is.
pub fail_tries :
    (now : ℕ) (read : QueueObject) (objects : List QueueObject)
    → ahead read objects ≡ 0
    → all_tries (update_rows (is_live read.object_id) (failed_once now read.attempts) objects)
        + (if ltb 0 (flagged_at read objects) then 1 else 0)
      ≤ all_tries objects
unfolding ahead all_tries tries_left count_rows update_rows flagged_at failed_once is_flagged
    is_live
fail_tries now read [] h = omega arith
fail_tries now read (o ∷ objects) h = ground (arith, h, fail_tries now read objects)

pub clear_tries :
    (now : ℕ) (read : QueueObject) (objects : List QueueObject)
    → all_tries (
          update_rows
            (is_live read.object_id)
            (λ o. record o { needs_reanalysis = false; attempts = 0; updated_at = now })
            objects)
        + (if ltb 0 (flagged_at read objects) then 1 else 0)
      ≤ all_tries objects
unfolding all_tries tries_left count_rows update_rows flagged_at is_flagged is_live
clear_tries now read [] = omega arith
clear_tries now read (o ∷ objects) = ground (arith, clear_tries now read objects)
