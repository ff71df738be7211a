-- ===== src/Lock/Wopi.antt =====
-- internal/service/wopi.go: the lock operations of the WOPI host, over the lock service. A request
-- is handled at one instant; `uuid_of` parses an account id (github.com/google/uuid).
pub mod Register
pub mod Promise
use dyson_fs.Base.{
  Bool, Option, Result, Text, [], codes, err, false, if◌then◌else◌, none, not, ok, pos, some,
  to_upper, trim_space, ℕ, ◌/=◌, ◌==◌, ◌||◌, nat_eq, text_equality,
}
use dyson_fs.Lock.{
  LockRequest, LockError, FileLock, LockTable, get_lock, acquire_lock, refresh_lock, release_lock,
}

pub record WopiClaims : Type 0 where
  pub account_id : Text
  pub permission : Text

pub data WopiError : Type 0 where
  unauthorized conflict invalid_lock_operation : WopiError
  lock_error : LockError → WopiError

-- The result record, if there is one, with its current lock; and the error.
pub record WopiReply : Type 0 where
  pub current_lock : Option Text
  pub failure : Option WopiError

refuse : WopiError → WopiReply
refuse e = record { current_lock = none; failure = some e }

reply : Text → Option WopiError → WopiReply
reply lock e = record { current_lock = some lock; failure = e }

unfoldable pub can_edit : Option WopiClaims → Bool
can_edit none = false
can_edit (some c) = c.permission == codes "edit"

account_of : (Text → Option Text) → Option WopiClaims → Option Text
account_of uuid_of none = none
account_of uuid_of (some c) = uuid_of c.account_id

-- The token of a lock, or the empty string.
token_or_empty : Option FileLock → Text
token_or_empty none = []
token_or_empty (some l) = l.lock_token

is_held_by : Option FileLock → Text → Bool
is_held_by none token = false
is_held_by (some l) token = l.lock_token == token

-- Whether another token holds the file.
held_against : Option FileLock → Text → Bool
held_against none token = false
held_against (some l) token = l.lock_token /= token

-- `if err != nil { return result, err }`, else the given lock.
after_lock {ℓ} : {A : Type ℓ} → Result LockError A → Text → Text → WopiReply
unfolding reply
after_lock (ok _) before after = reply after none
after_lock (err e) before after = reply before (some (lock_error e))

wopi_request : ℕ → Text → Text → Option Text → LockRequest
wopi_request id file_id lock_id account = record {
  id = id;
  file_id = file_id;
  protocol = codes "wopi";
  lock_token = lock_id;
  account_id = account;
  timeout = pos 1800;
}

-- The second half of UNLOCK_AND_RELOCK.
relock : ℕ → LockRequest → Text → LockTable × Result LockError (Unit {0}) → LockTable × WopiReply
unfolding reply after_lock
relock now r before (t, err e) = (t, reply before (some (lock_error e)))
relock now r before (t, ok _) =
    let (u, acquired) = acquire_lock now r t in (u, after_lock acquired before r.lock_token)

module _ (now id : ℕ) (file_id : Text) (account : Option Text) where
  -- The cases of the `switch` of HandleLock, over the lock that GetLock found.
  lock_case : Text → LockTable → Option FileLock → LockTable × WopiReply
  unfolding refuse reply token_or_empty held_against after_lock wopi_request
  lock_case lock_id t current =
      let held = token_or_empty current in
      let (locked, acquired) = acquire_lock now (wopi_request id file_id lock_id account) t in
      if lock_id == []
      then (t, refuse invalid_lock_operation)
      else if held_against current lock_id
      then (t, reply held (some conflict))
      else (locked, after_lock acquired held lock_id)

  refresh_case : Text → LockTable → Option FileLock → LockTable × WopiReply
  unfolding reply token_or_empty is_held_by after_lock
  refresh_case lock_id t current =
      let held = token_or_empty current in
      let (refreshed, kept) = refresh_lock now file_id lock_id (pos 1800) t in
      if not (is_held_by current lock_id)
      then (t, reply held (some conflict))
      else (refreshed, after_lock kept held held)

  unlock_case : Text → LockTable → Option FileLock → LockTable × WopiReply
  unfolding reply token_or_empty is_held_by after_lock
  unlock_case lock_id t current =
      let held = token_or_empty current in
      let (unlocked, released) = release_lock now file_id lock_id t in
      if not (is_held_by current lock_id)
      then (t, reply held (some conflict))
      else (unlocked, after_lock released held held)

  relock_case : Text → Text → LockTable → Option FileLock → LockTable × WopiReply
  unfolding reply token_or_empty is_held_by relock wopi_request
  relock_case lock_id old_lock_id t current =
      let held = token_or_empty current in
      let expected = if old_lock_id == [] then lock_id else old_lock_id in
      if not (is_held_by current expected) || lock_id == []
      then (t, reply held (some conflict))
      else relock now (wopi_request id file_id lock_id account) held
          (release_lock now file_id expected t)

  dispatch : Text → Text → Text → LockTable → Option FileLock → LockTable × WopiReply
  unfolding refuse reply token_or_empty lock_case refresh_case unlock_case relock_case
  dispatch operation lock_id old_lock_id t current =
      if operation == codes "GET_LOCK"
      then (t, reply (token_or_empty current) none)
      else if operation == codes "LOCK"
      then lock_case lock_id t current
      else if operation == codes "REFRESH_LOCK"
      then refresh_case lock_id t current
      else if operation == codes "UNLOCK"
      then unlock_case lock_id t current
      else if operation == codes "UNLOCK_AND_RELOCK"
      then relock_case lock_id old_lock_id t current
      else (t, refuse invalid_lock_operation)

module _ (now id : ℕ) (uuid_of : Text → Option Text) (file_id : Text) where
  unfoldable pub handle_lock :
      Option WopiClaims → Text → Text → Text → LockTable → LockTable × WopiReply
  unfolding refuse can_edit account_of dispatch
  handle_lock claims operation lock_id old_lock_id t =
      let op = to_upper (trim_space operation) in
      let (live, current) = get_lock now file_id t in
      if not (can_edit claims)
      then (t, refuse unauthorized)
      else if op == []
      then (t, refuse invalid_lock_operation)
      else dispatch now id file_id (account_of uuid_of claims) op (trim_space lock_id)
          (trim_space old_lock_id) live current
