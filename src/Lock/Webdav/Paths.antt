-- ===== src/Lock/Webdav/Paths.antt =====
-- Locks that WebDAV creates, and whether it finds them again.
use dyson_fs.Base.{
  Bool, List, Option, Option-cases, Result, Text, [], ap, arith, count_rows, err, false, if_both,
  if◌then◌else◌, inl, inr, is_some, ltb, negsuc, none, not, ok, pos, refl, some, subst, suc,
  text_discrete, true, zero, ℕ, ℤ, ◌&&◌, ◌+◌, ◌<◌, ◌==◌, ◌||◌, ◌∷◌, ◌≡◌, ◌≤◌, nat_eq, text_equality,
}
use dyson_fs.Lock.{
  LockTable, get_lock, effective_timeout, clean_expired_locks, lock_of, release_lock,
}
use dyson_fs.Lock.Exclusive.{acquire_lock-IsExclusive, KeepsExclusive, clean_expired_locks-fresh}
use dyson_fs.Lock.Rows.{
  IsExclusive, lock_of-clean_expired_locks, clean_expired_locks-IsExclusive, of_id,
}
use dyson_fs.Lock.Spec.{held_at, assign, acquire_lock-Refines, release_lock-Refines}
use dyson_fs.Lock.Wopi.Register.{token_of, is_token}
use dyson_fs.Lock.Webdav.{
  create, Condition, lock_name, confirm, WebdavError, Release, webdav_request, holds_token,
  confirmation_failed,
}

abbrev pub claim : Text → List Condition
claim token = record { negated = false; token = token } ∷ []

effective_timeout_twice :
    (s : ℤ) → effective_timeout (pos (effective_timeout s)) ≡ effective_timeout s
unfolding effective_timeout
effective_timeout_twice (pos zero) = refl
effective_timeout_twice (pos (suc n)) = refl
effective_timeout_twice (negsuc n) = refl

module _ (now id : ℕ) (resolve : Text → Option Text) (root : Text) (account : Option Text)
    (duration : ℤ) (token : Text) {t : LockTable} (e : IsExclusive t) where
  -- The locks after a successful LOCK request.
  held_at-create :
      (f : Text)
      → (create now id resolve root account duration token t).1 ≡ ok token
      → held_at now (create now id resolve root account duration token t).0 f
        ≡ assign
            (lock_name resolve root)
            (some (token, now + effective_timeout duration))
            (held_at now t)
            f
  unfolding create get_lock
  held_at-create f success =
      let rows = clean_expired_locks now t in
      let live = clean_expired_locks-IsExclusive now e in
      let name = lock_name resolve root in
      let request = webdav_request id name token account (pos (effective_timeout duration)) in
      let (after, failed) = acquire_lock-Refines now live request in
      let cleaned_at = λ (g : Text). lock_of-clean_expired_locks now g t (e.one_per_file g) in
      ground
        (arith, after f, failed, cleaned_at f, cleaned_at name, effective_timeout_twice duration)

  create-IsExclusive :
      count_rows (of_id id) t ≡ 0
      → IsExclusive (create now id resolve root account duration token t).0
  unfolding create get_lock
  create-IsExclusive fresh =
      let rows = clean_expired_locks now t in
      let live = clean_expired_locks-IsExclusive now e in
      let request =
        webdav_request id (lock_name resolve root) token account
          (pos (effective_timeout duration)) in
      if_both KeepsExclusive (is_some (lock_of root rows)) _ _ live
        (acquire_lock-IsExclusive now request live (clean_expired_locks-fresh now id t fresh))

  free_before :
      (create now id resolve root account duration token t).1 ≡ ok token → held_at now t root ≡ none
  unfolding create get_lock
  free_before success = ground (arith, lock_of-clean_expired_locks now root t (e.one_per_file root))

-- What is still held at an instant, of what was held earlier.
still : ℕ → Option (Text × ℕ) → Option (Text × ℕ)
still now none = none
still now (some (token, deadline)) = if ltb now deadline then some (token, deadline) else none

held_at-later :
    (now later : ℕ) (t : LockTable) (f : Text)
    → now ≤ later
    → held_at later t f ≡ still later (held_at now t f)
unfolding still
held_at-later now later t f h = elim (Option-cases (lock_of f t)) [
  | inl free ↦ ground (arith, free)
  | inr (l, held) ↦ ground (arith, held)
]

abbrev pub is_confirmed : Result WebdavError Release → Bool
is_confirmed (ok _) = true
is_confirmed (err _) = false

-- A token presented for a path is confirmed exactly when the table holds it under that path.
confirm-claim :
    (now : ℕ) (name token : Text) {t : LockTable}
    → IsExclusive t
    → is_confirmed (confirm now name (claim token) t).1
      ≡ is_token (token_of (held_at now t name)) token
unfolding confirm get_lock
confirm-claim now name token {t} e =
    ground (arith, lock_of-clean_expired_locks now name t (e.one_per_file name))

-- After WebDAV has created a lock for a path, and until the lock expires, its token is confirmed
-- for that path exactly when the path is the name under which the lock was stored: the id of the
-- file at the path, if the path resolves. The key of the new row has to be new.
pub confirm-create :
    (now later id : ℕ) (resolve : Text → Option Text) (root : Text) (account : Option Text)
    (duration : ℤ) (token : Text) {t : LockTable}
    → IsExclusive t
    → count_rows (of_id id) t ≡ 0
    → (create now id resolve root account duration token t).1 ≡ ok token
    → now ≤ later
    → later < now + effective_timeout duration
    → is_confirmed
        (confirm later root (claim token) (create now id resolve root account duration token t).0).1
      ≡ (lock_name resolve root == root)
unfolding still
confirm-create now later id resolve root account duration token {t} e fresh success before alive =
    let u = (create now id resolve root account duration token t).0 in
    rw
      (confirm-claim later root token
        (create-IsExclusive now id resolve root account duration token e fresh))
      (ground (
        arith,
        held_at-later now later u root before,
        held_at-create now id resolve root account duration token e root success,
        free_before now id resolve root account duration token e success,
      ))

-- Whether one of the conditions asks for a token.
unfoldable pub asks_for : List Condition → Text → Bool
asks_for [] token = false
asks_for (c ∷ cs) token = (not c.negated && (c.token == token)) || asks_for cs token

-- The locks on a path, without the one that a token holds on a name.
unfoldable pub without_token : Text → Text → Text → Option (Text × ℕ) → Option (Text × ℕ)
without_token name token f held =
    if (name == f) && is_token (token_of held) token then none else held

holder :
    (now : ℕ) (name token : Text) {t : LockTable}
    → IsExclusive t
    → holds_token (lock_of name (clean_expired_locks now t)) token ≡ true
    → is_token (token_of (held_at now t name)) token ≡ true
unfolding holds_token
holder now name token {t} e h = elim (Option-cases (lock_of name (clean_expired_locks now t))) [
  | inl free ↦ absurd (ground (arith, h, free))
  | inr (l, held) ↦
      ground (arith, h, held, lock_of-clean_expired_locks now name t (e.one_per_file name))
]

module _ (now later : ℕ) (name f : Text) {after : LockTable} (kept : IsExclusive after) where
  -- What a confirmation promises when its release function runs on the table.
  Confirms : List Condition → LockTable → LockTable × Result WebdavError Release → Type 0
  Confirms conditions t (u, ok finish) =
      (token : Text) × (asks_for conditions token ≡ true)
      × (is_token (token_of (held_at now t name)) token ≡ true)
      × (held_at later (finish later after) f ≡ without_token name token f (held_at later after f))
  Confirms conditions t (u, err _) = Unit {0}

  freed :
      (token : Text)
      → held_at later (release_lock later name token after).0 f
        ≡ without_token name token f (held_at later after f)
  unfolding without_token
  freed token =
      let (gone, failed) = release_lock-Refines later kept name token in
      elim (text_discrete name f) [
        | yes same ↦
            let here = ap (held_at later after) same in
            elim (Option-cases (held_at later after name)) [
              | inl free ↦ ground (arith, gone f, free, here, same)
              | inr (l, held) ↦ ground (arith, gone f, held, here, same)
            ]
        | no other ↦ elim (Option-cases (held_at later after name)) [
          | inl free ↦ ground (arith, gone f, free, other)
          | inr (l, held) ↦ ground (arith, gone f, held, other)
        ]
      ]

  -- A later condition is confirmed on the table that the earlier lookups leave.
  condition-Confirms :
      (c : Condition) (cs : List Condition) (t live : LockTable)
      (r : LockTable × Result WebdavError Release)
      → held_at now live name ≡ held_at now t name
      → Confirms cs live r
      → Confirms (c ∷ cs) t r
  unfolding Confirms asks_for
  condition-Confirms c cs t live (u, err e) same h = tt
  condition-Confirms c cs t live (u, ok finish) same (token, asked, holds, left) =
      (token, ground (arith, asked), ground (arith, holds, same), left)

  -- The branches of a condition, on the lock that is found.
  branch-Confirms :
      (negative holds : Bool) (c : Condition) (cs : List Condition) (t live : LockTable)
      (rest : LockTable × Result WebdavError Release)
      → negative ≡ c.negated
      → (holds ≡ true → is_token (token_of (held_at now t name)) c.token ≡ true)
      → Confirms (c ∷ cs) t rest
      → Confirms (c ∷ cs) t (
          if negative
          then (if holds then (live, err confirmation_failed) else rest)
          else if holds
          then (live, ok (λ later u. (release_lock later name c.token u).0))
          else (live, err confirmation_failed))
  unfolding Confirms asks_for
  branch-Confirms true true c cs t live rest sign there h = tt
  branch-Confirms true false c cs t live rest sign there h = h
  branch-Confirms false false c cs t live rest sign there h = tt
  branch-Confirms false true c cs t live rest sign there h =
      (c.token, ground (arith, sign), there refl, freed c.token)

  confirm-Confirms :
      (conditions : List Condition) {t : LockTable}
      → IsExclusive t
      → Confirms conditions t (confirm now name conditions t)
  unfolding confirm get_lock Confirms
  confirm-Confirms [] e = tt
  confirm-Confirms (c ∷ cs) {t} e =
      let live = clean_expired_locks now t in
      let there = lock_of-clean_expired_locks now name t (e.one_per_file name) in
      let same : held_at now live name ≡ held_at now t name = ground (arith, there) in
      branch-Confirms c.negated (holds_token (lock_of name live) c.token) c cs t live
        (confirm now name cs live) refl (holder now name c.token e)
        (condition-Confirms c cs t live (confirm now name cs live) same
          (confirm-Confirms cs (clean_expired_locks-IsExclusive now e)))

-- A confirmation succeeds only with a token that one of the conditions asks for and that holds the
-- name. The release function that it hands back takes that lock away: run later, at any instant and
-- on whatever table with one row for a file the calls in between have left, it leaves no lock with
-- the token on the name, and every other lock as it is.
pub confirm-release :
    (now later : ℕ) (name f : Text) (conditions : List Condition) {t u after : LockTable}
    {finish : Release}
    → IsExclusive t
    → IsExclusive after
    → confirm now name conditions t ≡ (u, ok finish)
    → (token : Text) × (asks_for conditions token ≡ true)
      × (is_token (token_of (held_at now t name)) token ≡ true)
      × (held_at later (finish later after) f ≡ without_token name token f (held_at later after f))
unfolding Confirms
confirm-release now later name f conditions {t} e kept success =
    subst (Confirms now later name f kept conditions t) success
      (confirm-Confirms now later name f kept conditions e)
