-- ===== src/Lock.antt =====
-- internal/service/lock.go: the locks on files. The table holds the rows that are not deleted, in
-- the order of their primary key; a call takes the instant `now` at which it runs, in seconds.
pub mod Rows
pub mod Exclusive
pub mod Spec
pub mod Wopi
pub mod Webdav
mod Tests
use dyson_fs.Base.{
  Bool, List, Option, Result, Text, [], err, find_first, if◌then◌else◌, is_blank, is_some, keep,
  ltb, negsuc, none, ok, pos, some, suc, update_rows, zero, ℕ, ℤ, ◌+◌, ◌/=◌, ◌==◌, ◌∷◌, nat_eq,
  text_equality,
}

pub data LockError : Type 0 where
  token_required lock_conflict lock_not_found lock_token_mismatch : LockError

pub record FileLock : Type 0 where
  pub id : ℕ
  pub file_id : Text
  pub lock_token : Text
  pub protocol : Text
  pub account_id : Option Text
  pub timeout : ℕ
  pub expires_at : ℕ

abbrev pub LockTable : Type 0
LockTable = List FileLock

-- What a caller asks for; `id` is the key that the database would give to a new row.
pub record LockRequest : Type 0 where
  pub id : ℕ
  pub file_id : Text
  pub protocol : Text
  pub lock_token : Text
  pub account_id : Option Text
  pub timeout : ℤ

unfoldable pub clean_expired_locks : ℕ → LockTable → LockTable
clean_expired_locks now = keep (λ l. ltb now l.expires_at)

-- `Where("file_id = ?").First`
unfoldable pub lock_of : Text → LockTable → Option FileLock
lock_of file_id = find_first (λ l. l.file_id == file_id)

unfoldable pub get_lock : ℕ → Text → LockTable → LockTable × Option FileLock
get_lock now file_id t = let live = clean_expired_locks now t in (live, lock_of file_id live)

-- `if timeout <= 0 { timeout = 1800 }`
unfoldable pub effective_timeout : ℤ → ℕ
effective_timeout (pos zero) = 1800
effective_timeout (pos (suc n)) = suc n
effective_timeout (negsuc n) = 1800

-- A new row takes its place in the order of the primary key.
unfoldable pub create_lock : FileLock → LockTable → LockTable
create_lock l [] = l ∷ []
create_lock l (m ∷ t) = if ltb l.id m.id then l ∷ m ∷ t else m ∷ create_lock l t

new_lock : ℕ → LockRequest → FileLock
unfolding effective_timeout
new_lock now r = record {
  id = r.id;
  file_id = r.file_id;
  lock_token = r.lock_token;
  protocol = r.protocol;
  account_id = r.account_id;
  timeout = effective_timeout r.timeout;
  expires_at = now + effective_timeout r.timeout;
}

renew_lock : ℕ → LockRequest → FileLock → FileLock
unfolding effective_timeout
renew_lock now r l = record l {
  lock_token = r.lock_token;
  protocol = r.protocol;
  account_id = r.account_id;
  timeout = effective_timeout r.timeout;
  expires_at = now + effective_timeout r.timeout;
}

-- A transaction that returns an error is rolled back, the removal of expired locks included.
unfoldable pub acquire_lock : ℕ → LockRequest → LockTable → LockTable × Result LockError FileLock
unfolding new_lock renew_lock
acquire_lock now r t =
    let live = clean_expired_locks now t in
    if is_blank r.lock_token then (t, err token_required) else elim (lock_of r.file_id live) [
      | none ↦ (create_lock (new_lock now r) live, ok (new_lock now r))
      | some current ↦ if current.lock_token /= r.lock_token then (t, err lock_conflict) else (
        update_rows (λ l. l.id == current.id) (renew_lock now r) live,
        ok (renew_lock now r current),
      )
    ]

postpone_lock : ℕ → ℕ → FileLock → FileLock
postpone_lock now timeout l = record l { timeout = timeout; expires_at = now + timeout }

unfoldable pub refresh_lock :
    ℕ → Text → Text → ℤ → LockTable → LockTable × Result LockError (Unit {0})
unfolding postpone_lock effective_timeout
refresh_lock now file_id token timeout t =
    let live = clean_expired_locks now t in
    elim (lock_of file_id live) [
      | none ↦ (t, err lock_not_found)
      | some current ↦ if current.lock_token /= token then (t, err lock_token_mismatch) else (
        update_rows (λ l. l.id == current.id) (postpone_lock now (effective_timeout timeout)) live,
        ok tt,
      )
    ]

unfoldable pub release_lock : ℕ → Text → Text → LockTable → LockTable × Result LockError (Unit {0})
release_lock now file_id token t =
    let live = clean_expired_locks now t in
    elim (lock_of file_id live) [
      | none ↦ (t, err lock_not_found)
      | some current ↦
          if current.lock_token /= token
          then (t, err lock_token_mismatch)
          else (keep (λ l. l.id /= current.id) live, ok tt)
    ]

unfoldable pub is_file_locked : ℕ → Text → LockTable → LockTable × Bool
unfolding get_lock
is_file_locked now file_id t = let (live, lock) = get_lock now file_id t in (live, is_some lock)
