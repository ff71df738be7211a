-- ===== src/Lock/Webdav.antt =====
-- internal/handler/webdav_lock.go: the lock system that DysonFS gives to golang.org/x/net/webdav.
-- `resolve` is the outcome of resolveToFile, the id of the file at a path; `duration` is in whole
-- seconds; a call runs at one instant.
pub mod Paths
use dyson_fs.Base.{
  Bool, List, Option, Result, Text, [], codes, err, false, find_first, if◌then◌else◌, is_some, none,
  ok, pos, some, ℕ, ℤ, ◌==◌, ◌∷◌, nat_eq, text_equality,
}
use dyson_fs.Lock.{
  LockRequest, LockError, FileLock, LockTable, get_lock, effective_timeout, acquire_lock,
  refresh_lock, release_lock, lock_conflict,
}

pub data WebdavError : Type 0 where
  confirmation_failed locked no_such_lock : WebdavError
  lock_error : LockError → WebdavError

pub record Condition : Type 0 where
  pub negated : Bool
  pub token : Text

-- The release function that Confirm hands back: it runs at a later instant.
abbrev pub Release : Type 0
Release = ℕ → LockTable → LockTable

holds_token : Option FileLock → Text → Bool
holds_token none token = false
holds_token (some l) token = l.lock_token == token

unfoldable pub confirm :
    ℕ → Text → List Condition → LockTable → LockTable × Result WebdavError Release
unfolding holds_token
confirm now name [] t = (t, err confirmation_failed)
confirm now name (c ∷ cs) t =
    let (live, lock) = get_lock now name t in
    let rest = confirm now name cs live in
    if c.negated
    then (if holds_token lock c.token then (live, err confirmation_failed) else rest)
    else if holds_token lock c.token
    then (live, ok (λ later u. (release_lock later name c.token u).0))
    else (live, err confirmation_failed)

webdav_error : LockError → WebdavError
webdav_error lock_conflict = locked
webdav_error e = lock_error e

answer_create {ℓ} : {A : Type ℓ} → Text → Result LockError A → Result WebdavError Text
unfolding webdav_error
answer_create token (ok _) = ok token
answer_create token (err e) = err (webdav_error e)

webdav_request : ℕ → Text → Text → Option Text → ℤ → LockRequest
webdav_request id name token account duration = record {
  id = id;
  file_id = name;
  protocol = codes "webdav";
  lock_token = token;
  account_id = account;
  timeout = duration;
}

-- The file's id if the root resolves, else the root itself.
unfoldable pub lock_name : (Text → Option Text) → Text → Text
lock_name resolve root = elim (resolve root) [ none ↦ root | some file_id ↦ file_id ]

unfoldable pub create :
    ℕ
    → ℕ
    → (Text → Option Text)
    → Text
    → Option Text
    → ℤ
    → Text
    → LockTable
    → LockTable × Result WebdavError Text
unfolding answer_create webdav_request effective_timeout lock_name
create now id resolve root account duration token t =
    let (live, lock) = get_lock now root t in
    let timeout = pos (effective_timeout duration) in
    let (taken, acquired) =
      acquire_lock now (webdav_request id (lock_name resolve root) token account timeout) live in
    if is_some lock then (live, err locked) else (taken, answer_create token acquired)

-- The row with a token, expired or not.
find_lock_by_token : Text → LockTable → Option FileLock
find_lock_by_token token = find_first (λ l. l.lock_token == token)

unfoldable pub refresh : ℕ → Text → ℤ → LockTable → LockTable × Result WebdavError Text
unfolding find_lock_by_token effective_timeout
refresh now token duration t = elim (find_lock_by_token token t) [
  | none ↦ (t, err no_such_lock)
  | some l ↦
      let timeout = pos (effective_timeout duration) in
      let (u, done) = refresh_lock now l.file_id token timeout t in
      (u, elim done [ ok _ ↦ ok l.file_id | err _ ↦ err no_such_lock ])
]

unfoldable pub unlock : ℕ → Text → LockTable → LockTable × Result WebdavError (Unit {0})
unfolding find_lock_by_token
unlock now token t = elim (find_lock_by_token token t) [
  | none ↦ (t, err no_such_lock)
  | some l ↦
      let (u, done) = release_lock now l.file_id token t in
      (u, elim done [ ok _ ↦ ok tt | err e ↦ err (lock_error e) ])
]
