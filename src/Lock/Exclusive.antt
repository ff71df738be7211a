-- ===== src/Lock/Exclusive.antt =====
-- One lock for a file: every call of internal/service/lock.go keeps the table exclusive, and calls
-- without the token of a lock leave that lock alone until it expires.
use dyson_fs.Base.{
  Bool, List, Option-cases, Text, [], arith, count_rows, count_rows-keep-le, count_rows-update_rows,
  err, false, find_first-none, if_both, inl, inr, is_blank, keep, ltb, none, refl, some,
  update_rows, ℕ, ℤ, ◌/=◌, ◌<◌, ◌∷◌, ◌≡◌, ◌≢◌, nat_eq, text_equality,
}
use dyson_fs.Lock.{
  FileLock, LockTable, LockRequest, clean_expired_locks, lock_of, get_lock, acquire_lock,
  refresh_lock, release_lock, is_file_locked, create_lock, effective_timeout, lock_conflict,
  new_lock, renew_lock, postpone_lock,
}
use dyson_fs.Lock.Rows.{
  of_file, of_id, IsExclusive, count_rows-create_lock, clean_expired_locks-IsExclusive,
  lock_of-clean_expired_locks, lock_of-create_lock, lock_of-update_rows, lock_of-keep,
}

-- A call of the lock service.
pub data LockCall : Type 0 where
  acquire : LockRequest → LockCall
  refresh : Text → Text → ℤ → LockCall
  release : Text → Text → LockCall
  lookup_lock : Text → LockCall
  test_lock : Text → LockCall
  clean : LockCall

unfoldable pub run_call : ℕ → LockCall → LockTable → LockTable
run_call now (acquire r) t = (acquire_lock now r t).0
run_call now (refresh file_id token timeout) t = (refresh_lock now file_id token timeout t).0
run_call now (release file_id token) t = (release_lock now file_id token t).0
run_call now (lookup_lock file_id) t = (get_lock now file_id t).0
run_call now (test_lock file_id) t = (is_file_locked now file_id t).0
run_call now clean t = clean_expired_locks now t

-- A new row gets a key that no row of the table has.
abbrev pub IsFresh : LockCall → LockTable → Type 0
IsFresh (acquire r) t = count_rows (of_id r.id) t ≡ 0
IsFresh _ t = Unit

create_lock-IsExclusive :
    (l : FileLock) {t : LockTable}
    → IsExclusive t
    → count_rows (of_id l.id) t ≡ 0
    → lock_of l.file_id t ≡ none
    → IsExclusive (create_lock l t)
unfolding count_rows lock_of
create_lock-IsExclusive l {t} e fresh free = record {
  one_per_file = λ f. ground (
    arith,
    count_rows-create_lock (of_file f) l t,
    e.one_per_file f,
    find_first-none (of_file l.file_id) t,
  );
  one_per_id = λ i. ground (arith, count_rows-create_lock (of_id i) l t, e.one_per_id i);
}

update_rows-IsExclusive :
    (q : FileLock → Bool) (f : FileLock → FileLock)
    → ((l : FileLock) → ((f l).file_id ≡ l.file_id) × ((f l).id ≡ l.id))
    → {t : LockTable} → IsExclusive t
    → IsExclusive (update_rows q f t)
update_rows-IsExclusive q f same {t} e = record {
  one_per_file = λ file_id.
      rw (count_rows-update_rows (of_file file_id) q f (λ l. rw ((same l).0)) t)
        (e.one_per_file file_id);
  one_per_id =
      λ id. rw (count_rows-update_rows (of_id id) q f (λ l. rw ((same l).1)) t) (e.one_per_id id);
}

keep-IsExclusive : (q : FileLock → Bool) {t : LockTable} → IsExclusive t → IsExclusive (keep q t)
keep-IsExclusive q {t} e = record {
  one_per_file = λ f. omega (arith, count_rows-keep-le (of_file f) q t, e.one_per_file f);
  one_per_id = λ i. omega (arith, count_rows-keep-le (of_id i) q t, e.one_per_id i);
}

abbrev pub KeepsExclusive {ℓ} : {A : Type ℓ} → LockTable × A → Type 0
KeepsExclusive r = IsExclusive r.0

pub clean_expired_locks-fresh :
    (now id : ℕ) (t : LockTable)
    → count_rows (of_id id) t ≡ 0
    → count_rows (of_id id) (clean_expired_locks now t) ≡ 0
unfolding clean_expired_locks
clean_expired_locks-fresh now id t fresh =
    omega (arith, count_rows-keep-le (of_id id) (λ l. ltb now l.expires_at) t)

pub acquire_lock-IsExclusive :
    (now : ℕ) (r : LockRequest) {t : LockTable}
    → IsExclusive t
    → count_rows (of_id r.id) t ≡ 0
    → IsExclusive (acquire_lock now r t).0
unfolding acquire_lock
acquire_lock-IsExclusive now r {t} e fresh =
    let live = clean_expired_locks-IsExclusive now e in
    elim (Option-cases (lock_of r.file_id (clean_expired_locks now t))) [
      | inl free ↦
          rw (free, acquire_lock)
            (if_both KeepsExclusive (is_blank r.lock_token) _ _ e (
              create_lock-IsExclusive (new_lock now r) live
                (clean_expired_locks-fresh now r.id t fresh) free))
      | inr (l, held) ↦
          rw (held, acquire_lock)
            (if_both KeepsExclusive (is_blank r.lock_token) _ _ e (
              if_both KeepsExclusive (l.lock_token /= r.lock_token) _ _ e
                (update_rows-IsExclusive (of_id l.id) (renew_lock now r) (λ l. (refl, refl)) live)))
    ]

refresh_lock-IsExclusive :
    (now : ℕ) (file_id token : Text) (timeout : ℤ) {t : LockTable}
    → IsExclusive t
    → IsExclusive (refresh_lock now file_id token timeout t).0
unfolding refresh_lock
refresh_lock-IsExclusive now file_id token timeout {t} e =
    elim (Option-cases (lock_of file_id (clean_expired_locks now t))) [
      | inl free ↦ rw (free, refresh_lock) e
      | inr (l, held) ↦
          rw (held, refresh_lock)
            (if_both KeepsExclusive (l.lock_token /= token) _ _ e (
              update_rows-IsExclusive (of_id l.id) (postpone_lock now (effective_timeout timeout))
                (λ l. (refl, refl)) (clean_expired_locks-IsExclusive now e)))
    ]

pub release_lock-IsExclusive :
    (now : ℕ) (file_id token : Text) {t : LockTable}
    → IsExclusive t
    → IsExclusive (release_lock now file_id token t).0
unfolding release_lock
release_lock-IsExclusive now file_id token {t} e =
    elim (Option-cases (lock_of file_id (clean_expired_locks now t))) [
      | inl free ↦ rw (free, release_lock) e
      | inr (l, held) ↦
          rw (held, release_lock)
            (if_both KeepsExclusive (l.lock_token /= token) _ _ e
              (keep-IsExclusive (λ m. m.id /= l.id) (clean_expired_locks-IsExclusive now e)))
    ]

-- Every call of the lock service, on every branch, takes a table with one row for a file and one
-- row for a key to such a table, if the key drawn for a new row is new.
pub run_call-IsExclusive :
    (now : ℕ) (c : LockCall) {t : LockTable}
    → IsExclusive t
    → IsFresh c t
    → IsExclusive (run_call now c t)
unfolding run_call get_lock is_file_locked
run_call-IsExclusive now (acquire r) e fresh = acquire_lock-IsExclusive now r e fresh
run_call-IsExclusive now (refresh f k s) e _ = refresh_lock-IsExclusive now f k s e
run_call-IsExclusive now (release f k) e _ = release_lock-IsExclusive now f k e
run_call-IsExclusive now (lookup_lock f) e _ = clean_expired_locks-IsExclusive now e
run_call-IsExclusive now (test_lock f) e _ = clean_expired_locks-IsExclusive now e
run_call-IsExclusive now clean e _ = clean_expired_locks-IsExclusive now e

-- The calls that present the token of a lock on a file, or may pass for them.
abbrev pub Presents : LockCall → Text → Text → Type 0
Presents (acquire r) file_id token = (r.file_id ≡ file_id) × (r.lock_token ≡ token)
Presents (refresh f k s) file_id token = (f ≡ file_id) × (k ≡ token)
Presents (release f k) file_id token = (f ≡ file_id) × (k ≡ token)
Presents _ file_id token = ⊥

module _ (now : ℕ) {t : LockTable} (e : IsExclusive t) (file_id : Text) (l : FileLock)
    (held : lock_of file_id t ≡ some l) (unexpired : now < l.expires_at) where
  live_held : lock_of file_id (clean_expired_locks now t) ≡ some l
  live_held = ground (arith, lock_of-clean_expired_locks now file_id t (e.one_per_file file_id))

  acquire_lock-kept :
      (r : LockRequest)
      → ¬ ((r.file_id ≡ file_id) × (r.lock_token ≡ l.lock_token))
      → lock_of file_id (acquire_lock now r t).0 ≡ some l
  unfolding acquire_lock
  acquire_lock-kept r other =
      let live = clean_expired_locks-IsExclusive now e in
      let rows = clean_expired_locks now t in
      elim (Option-cases (lock_of r.file_id rows)) [
        | inl free ↦
            ground (arith, live_held, free, lock_of-create_lock (new_lock now r) file_id rows)
        | inr (m, found) ↦ ground (
          arith,
          live_held,
          found,
          lock_of-update_rows (renew_lock now r) (λ l. refl) r.file_id file_id rows m,
          live.one_per_id m.id,
        )
      ]

  refresh_lock-kept :
      (f token : Text) (timeout : ℤ)
      → ¬ ((f ≡ file_id) × (token ≡ l.lock_token))
      → lock_of file_id (refresh_lock now f token timeout t).0 ≡ some l
  unfolding refresh_lock
  refresh_lock-kept f token timeout other =
      let live = clean_expired_locks-IsExclusive now e in
      let rows = clean_expired_locks now t in
      elim (Option-cases (lock_of f rows)) [
        | inl free ↦ ground (arith, live_held, free)
        | inr (m, found) ↦ ground (
          arith,
          live_held,
          found,
          lock_of-update_rows (postpone_lock now (effective_timeout timeout)) (λ l. refl) f file_id
              rows m,
          live.one_per_id m.id,
        )
      ]

  release_lock-kept :
      (f token : Text)
      → ¬ ((f ≡ file_id) × (token ≡ l.lock_token))
      → lock_of file_id (release_lock now f token t).0 ≡ some l
  unfolding release_lock
  release_lock-kept f token other =
      let live = clean_expired_locks-IsExclusive now e in
      let rows = clean_expired_locks now t in
      elim (Option-cases (lock_of f rows)) [
        | inl free ↦ ground (arith, live_held, free)
        | inr (m, found) ↦ ground (
          arith,
          live_held,
          found,
          lock_of-keep f file_id rows m,
          live.one_per_file f,
          live.one_per_id m.id,
        )
      ]

  -- One call without the token leaves the lock in place.
  run_call-kept :
      (c : LockCall)
      → ¬ Presents c file_id l.lock_token
      → lock_of file_id (run_call now c t) ≡ some l
  unfolding run_call get_lock is_file_locked
  run_call-kept (acquire r) other = acquire_lock-kept r other
  run_call-kept (refresh f k s) other = refresh_lock-kept f k s other
  run_call-kept (release f k) other = release_lock-kept f k other
  run_call-kept (lookup_lock f) other = live_held
  run_call-kept (test_lock f) other = live_held
  run_call-kept clean other = live_held

unfoldable pub run_calls : List (ℕ × LockCall) → LockTable → LockTable
run_calls [] t = t
run_calls ((now, c) ∷ cs) t = run_calls cs (run_call now c t)

-- A schedule in which every new row gets a new key, no call presents the token of the lock, and
-- every call runs before the lock expires.
abbrev pub Without : FileLock → List (ℕ × LockCall) → LockTable → Type 0
Without l [] t = Unit
Without l ((now, c) ∷ cs) t =
    IsFresh c t
    × (¬ Presents c l.file_id l.lock_token)
    × (now < l.expires_at)
    × Without l cs (run_call now c t)

run_calls-kept :
    (cs : List (ℕ × LockCall)) {t : LockTable} (l : FileLock)
    → IsExclusive t
    → lock_of l.file_id t ≡ some l
    → Without l cs t
    → IsExclusive (run_calls cs t) × (lock_of l.file_id (run_calls cs t) ≡ some l)
unfolding run_calls
run_calls-kept [] l e held w = (e, held)
run_calls-kept ((now, c) ∷ cs) l e held (fresh, other, before, w) =
    run_calls-kept cs l (run_call-IsExclusive now c e fresh)
      (run_call-kept now e l.file_id l held before c other) w

-- While a lock is held, whatever calls run that do not present its token, a request for the same
-- file with another token, which is not blank, is refused as a conflict before the lock expires, and
-- changes nothing.
pub acquire_lock-run_calls :
    (cs : List (ℕ × LockCall)) {t : LockTable} (l : FileLock) (now : ℕ) (r : LockRequest)
    → IsExclusive t
    → lock_of l.file_id t ≡ some l
    → Without l cs t
    → now < l.expires_at
    → r.file_id ≡ l.file_id
    → r.lock_token ≢ l.lock_token
    → is_blank r.lock_token ≡ false
    → acquire_lock now r (run_calls cs t) ≡ (run_calls cs t, err lock_conflict)
unfolding acquire_lock
acquire_lock-run_calls cs {t} l now r e held w before same other filled =
    let (e', held') = run_calls-kept cs l e held w in
    ground (arith, live_held now e' l.file_id l held' before)
