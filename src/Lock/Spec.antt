-- ===== src/Lock/Spec.antt =====
-- What the lock service promises: a map from files to a token and a deadline. The calls of
-- internal/service/lock.go implement it over rows of a table.
use dyson_fs.Base.{
  Option, Option-cases, Result, Text, arith, err, if◌then◌else◌, inl, inr, is_blank, negsuc, none,
  ok, pos, refl, some, suc, zero, ℕ, ℤ, ◌+◌, ◌/=◌, ◌==◌, ◌≡◌, ◌≤◌, nat_eq, text_equality,
}
use dyson_fs.Lock.{
  LockRequest, LockError, FileLock, LockTable, clean_expired_locks, lock_of, get_lock,
  effective_timeout, acquire_lock, refresh_lock, release_lock, is_file_locked, token_required,
  lock_conflict, lock_not_found, lock_token_mismatch, new_lock, renew_lock, postpone_lock,
}
use dyson_fs.Lock.Rows.{
  IsExclusive, live_at, lock_of-clean_expired_locks, lock_of-create_lock, lock_of-update_rows,
  lock_of-keep, clean_expired_locks-IsExclusive,
}
use dyson_fs.Lock.Exclusive.{
  LockCall, acquire, refresh, release, lookup_lock, test_lock, clean, run_call,
}

-- The token that holds a file and the instant at which it lapses.
abbrev pub LockMap : Type 0
LockMap = Text → Option (Text × ℕ)

abbrev pub assign : Text → Option (Text × ℕ) → LockMap → LockMap
assign file_id v m other = if file_id == other then v else m other

-- The locks that a table holds at an instant.
abbrev pub held_by : Option FileLock → Option (Text × ℕ)
held_by none = none
held_by (some l) = some (l.lock_token, l.expires_at)

abbrev pub held_at : ℕ → LockTable → LockMap
held_at now t file_id = held_by (live_at now (lock_of file_id t))

-- The promise of each call: the locks afterwards, and the error if there is one.
abbrev pub promise_acquire : ℕ → LockRequest → LockMap → LockMap × Option LockError
promise_acquire now r m =
    let granted = assign r.file_id (some (r.lock_token, now + effective_timeout r.timeout)) m in
    if is_blank r.lock_token then (m, some token_required) else elim (m r.file_id) [
      | none ↦ (granted, none)
      | some (holder, _) ↦
          if holder /= r.lock_token then (m, some lock_conflict) else (granted, none)
    ]

abbrev pub promise_refresh : ℕ → Text → Text → ℤ → LockMap → LockMap × Option LockError
promise_refresh now file_id token timeout m = elim (m file_id) [
  | none ↦ (m, some lock_not_found)
  | some (holder, _) ↦
      if holder /= token
      then (m, some lock_token_mismatch)
      else (assign file_id (some (holder, now + effective_timeout timeout)) m, none)
]

abbrev pub promise_release : Text → Text → LockMap → LockMap × Option LockError
promise_release file_id token m = elim (m file_id) [
  | none ↦ (m, some lock_not_found)
  | some (holder, _) ↦
      if holder /= token then (m, some lock_token_mismatch) else (assign file_id none m, none)
]

unfoldable pub promise : ℕ → LockCall → LockMap → LockMap × Option LockError
promise now (acquire r) m = promise_acquire now r m
promise now (refresh file_id token timeout) m = promise_refresh now file_id token timeout m
promise now (release file_id token) m = promise_release file_id token m
promise now (lookup_lock file_id) m = (m, none)
promise now (test_lock file_id) m = (m, none)
promise now clean m = (m, none)

abbrev pub error_of {ℓ} : {A : Type ℓ} → Result LockError A → Option LockError
error_of (ok _) = none
error_of (err e) = some e

unfoldable pub call_error : ℕ → LockCall → LockTable → Option LockError
call_error now (acquire r) t = error_of (acquire_lock now r t).1
call_error now (refresh file_id token timeout) t =
    error_of (refresh_lock now file_id token timeout t).1
call_error now (release file_id token) t = error_of (release_lock now file_id token t).1
call_error now (lookup_lock file_id) t = none
call_error now (test_lock file_id) t = none
call_error now clean t = none

abbrev pub Refines : ℕ → LockTable → Option LockError → LockMap × Option LockError → Type 0
Refines now u e p = ((f : Text) → held_at now u f ≡ p.0 f) × (e ≡ p.1)

eff_pos : (s : ℤ) → 1 ≤ effective_timeout s
unfolding effective_timeout
eff_pos (pos zero) = omega arith
eff_pos (pos (suc n)) = omega arith
eff_pos (negsuc n) = omega arith

module _ (now : ℕ) {t : LockTable} (e : IsExclusive t) where
  cleaned : (f : Text) → lock_of f (clean_expired_locks now t) ≡ live_at now (lock_of f t)
  cleaned f = lock_of-clean_expired_locks now f t (e.one_per_file f)

  -- Dropping what has expired shows the same locks.
  held_at-clean : (f : Text) → held_at now (clean_expired_locks now t) f ≡ held_at now t f
  held_at-clean f = ground (arith, cleaned f)

  pub acquire_lock-Refines :
      (r : LockRequest)
      → Refines now
          (acquire_lock now r t).0
          (error_of (acquire_lock now r t).1)
          (promise_acquire now r (held_at now t))
  unfolding acquire_lock
  acquire_lock-Refines r =
      let live = clean_expired_locks-IsExclusive now e in
      let rows = clean_expired_locks now t in
      elim (Option-cases (lock_of r.file_id rows)) [
        | inl free ↦ (
          λ f. ground (
            arith,
            free,
            cleaned f,
            cleaned r.file_id,
            lock_of-create_lock (new_lock now r) f rows,
            eff_pos r.timeout,
          ),
          ground (arith, free, cleaned r.file_id),
        )
        | inr (m, found) ↦ (
          λ f. ground (
            arith,
            found,
            cleaned f,
            cleaned r.file_id,
            lock_of-update_rows (renew_lock now r) (λ l. refl) r.file_id f rows m,
            live.one_per_id m.id,
            eff_pos r.timeout,
          ),
          ground (arith, found, cleaned r.file_id),
        )
      ]

  pub refresh_lock-Refines :
      (file_id token : Text) (s : ℤ)
      → Refines now
          (refresh_lock now file_id token s t).0
          (error_of (refresh_lock now file_id token s t).1)
          (promise_refresh now file_id token s (held_at now t))
  unfolding refresh_lock
  refresh_lock-Refines file_id token s =
      let live = clean_expired_locks-IsExclusive now e in
      let rows = clean_expired_locks now t in
      elim (Option-cases (lock_of file_id rows)) [
        | inl free ↦
            (λ f. ground (arith, free, cleaned file_id), ground (arith, free, cleaned file_id))
        | inr (m, found) ↦ (
          λ f. ground (
            arith,
            found,
            cleaned f,
            cleaned file_id,
            lock_of-update_rows (postpone_lock now (effective_timeout s)) (λ l. refl) file_id f rows
                m,
            live.one_per_id m.id,
            eff_pos s,
          ),
          ground (arith, found, cleaned file_id),
        )
      ]

  pub release_lock-Refines :
      (file_id token : Text)
      → Refines now
          (release_lock now file_id token t).0
          (error_of (release_lock now file_id token t).1)
          (promise_release file_id token (held_at now t))
  unfolding release_lock
  release_lock-Refines file_id token =
      let live = clean_expired_locks-IsExclusive now e in
      let rows = clean_expired_locks now t in
      elim (Option-cases (lock_of file_id rows)) [
        | inl free ↦
            (λ f. ground (arith, free, cleaned file_id), ground (arith, free, cleaned file_id))
        | inr (m, found) ↦ (
          λ f. ground (
            arith,
            found,
            cleaned f,
            cleaned file_id,
            lock_of-keep file_id f rows m,
            live.one_per_file file_id,
            live.one_per_id m.id,
          ),
          ground (arith, found, cleaned file_id),
        )
      ]

-- Over an exclusive table every call does to the locks that are held, and answers with the error,
-- that its promise over the map of tokens and deadlines states.
pub run_call-promise :
    (now : ℕ) (c : LockCall) {t : LockTable}
    → IsExclusive t
    → ((f : Text) → held_at now (run_call now c t) f ≡ (promise now c (held_at now t)).0 f)
      × (call_error now c t ≡ (promise now c (held_at now t)).1)
unfolding run_call promise call_error get_lock is_file_locked
run_call-promise now (acquire r) e = acquire_lock-Refines now e r
run_call-promise now (refresh f k s) e = refresh_lock-Refines now e f k s
run_call-promise now (release f k) e = release_lock-Refines now e f k
run_call-promise now (lookup_lock f) e = (held_at-clean now e, refl)
run_call-promise now (test_lock f) e = (held_at-clean now e, refl)
run_call-promise now clean e = (held_at-clean now e, refl)
