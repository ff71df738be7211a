-- ===== src/Lock/Rows.antt =====
-- The lock of one file in a table, after a row is added, rewritten or removed.
use dyson_fs.Base.{
  Bool, Option, Text, [], arith, count_rows, count_rows-keep-le, find_first, find_first-none,
  if◌then◌else◌, keep, ltb, none, refl, some, update_rows, update_rows_none, ℕ, ◌/=◌, ◌==◌, ◌∷◌,
  ◌≡◌, ◌≤◌, nat_eq, text_equality,
}
use dyson_fs.Lock.{FileLock, LockTable, clean_expired_locks, lock_of, create_lock}

-- The rows that lock a file, and the rows with a primary key.
abbrev pub of_file : Text → FileLock → Bool
of_file file_id l = l.file_id == file_id

abbrev pub of_id : ℕ → FileLock → Bool
of_id id l = l.id == id

-- A table gives a key to one row, and a file to one row.
pub record IsExclusive (t : LockTable) : Type 0 where
  pub one_per_file : (file_id : Text) → count_rows (of_file file_id) t ≤ 1
  pub one_per_id : (id : ℕ) → count_rows (of_id id) t ≤ 1

-- A lock that is still held at an instant.
abbrev pub live_at : ℕ → Option FileLock → Option FileLock
live_at now none = none
live_at now (some l) = if ltb now l.expires_at then some l else none

pub lock_of-clean_expired_locks :
    (now : ℕ) (file_id : Text) (t : LockTable)
    → count_rows (of_file file_id) t ≤ 1
    → lock_of file_id (clean_expired_locks now t) ≡ live_at now (lock_of file_id t)
unfolding lock_of clean_expired_locks find_first keep count_rows
lock_of-clean_expired_locks now file_id [] h = refl
lock_of-clean_expired_locks now file_id (l ∷ t) h =
    ground (arith, lock_of-clean_expired_locks now file_id t, find_first-none (of_file file_id) t)

pub count_rows-create_lock :
    (p : FileLock → Bool) (l : FileLock) (t : LockTable)
    → count_rows p (create_lock l t) ≡ count_rows p (l ∷ t)
unfolding create_lock count_rows
count_rows-create_lock p l [] = refl
count_rows-create_lock p l (m ∷ t) = ground (arith, count_rows-create_lock p l t)

pub lock_of-create_lock :
    (l : FileLock) (file_id : Text) (t : LockTable)
    → lock_of l.file_id t ≡ none
    → lock_of file_id (create_lock l t)
      ≡ (if l.file_id == file_id then some l else lock_of file_id t)
unfolding lock_of create_lock find_first
lock_of-create_lock l file_id [] h = refl
lock_of-create_lock l file_id (m ∷ t) h = ground (arith, lock_of-create_lock l file_id t)

-- The row that a lookup finds is counted under its key.
found_id :
    (file_id : Text) (t : LockTable) (l : FileLock)
    → lock_of file_id t ≡ some l
    → 1 ≤ count_rows (of_id l.id) t
unfolding lock_of find_first count_rows
found_id file_id [] l h = absurd (ground arith)
found_id file_id (m ∷ t) l h = ground (arith, found_id file_id t l)

pub lock_of-update_rows :
    (f : FileLock → FileLock)
    → ((l : FileLock) → (f l).file_id ≡ l.file_id)
    → (file_id other : Text) (t : LockTable) (l : FileLock) → lock_of file_id t ≡ some l
    → count_rows (of_id l.id) t ≤ 1
    → lock_of other (update_rows (of_id l.id) f t)
      ≡ (if file_id == other then some (f l) else lock_of other t)
unfolding lock_of find_first update_rows count_rows
lock_of-update_rows f same file_id other [] l h u = absurd (ground arith)
lock_of-update_rows f same file_id other (m ∷ t) l h u = ground (
  arith,
  same m,
  lock_of-update_rows f same file_id other t l,
  update_rows_none (of_id l.id) f t,
  found_id file_id t l,
)

keep_none : (id : ℕ) (t : LockTable) → count_rows (of_id id) t ≡ 0 → keep (λ l. l.id /= id) t ≡ t
unfolding keep count_rows
keep_none id [] h = refl
keep_none id (m ∷ t) h = ground (arith, keep_none id t)

pub lock_of-keep :
    (file_id other : Text) (t : LockTable) (l : FileLock)
    → lock_of file_id t ≡ some l
    → count_rows (of_file file_id) t ≤ 1
    → count_rows (of_id l.id) t ≤ 1
    → lock_of other (keep (λ m. m.id /= l.id) t)
      ≡ (if file_id == other then none else lock_of other t)
unfolding lock_of find_first keep count_rows
lock_of-keep file_id other [] l h u v = absurd (ground arith)
lock_of-keep file_id other (m ∷ t) l h u v = ground (
  arith,
  lock_of-keep file_id other t l,
  keep_none l.id t,
  find_first-none (of_file file_id) t,
  found_id file_id t l,
)

pub clean_expired_locks-IsExclusive :
    (now : ℕ) {t : LockTable} → IsExclusive t → IsExclusive (clean_expired_locks now t)
unfolding clean_expired_locks
clean_expired_locks-IsExclusive now {t} e = record {
  one_per_file = λ f.
      omega (arith, count_rows-keep-le (of_file f) (λ l. ltb now l.expires_at) t, e.one_per_file f);
  one_per_id = λ i.
      omega (arith, count_rows-keep-le (of_id i) (λ l. ltb now l.expires_at) t, e.one_per_id i);
}
