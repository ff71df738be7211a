-- ===== src/Lock/Wopi/Register.antt =====
-- The lock protocol that the WOPI host promises: a register that holds a token with the instant at
-- which it lapses, or nothing.
use dyson_fs.Base.{
  Bool, Option, Text, [], codes, false, if◌then◌else◌, none, not, some, ℕ, ◌&&◌, ◌+◌, ◌==◌, nat_eq,
  text_equality,
}
use dyson_fs.Lock.Wopi.{WopiReply, WopiError, conflict, invalid_lock_operation}

abbrev pub token_of : Option (Text × ℕ) → Option Text
token_of none = none
token_of (some (token, _)) = some token

abbrev pub is_token : Option Text → Text → Bool
is_token none token = false
is_token (some k) token = k == token

-- The token that holds the file and the instant at which it lapses, and the reply.
abbrev pub Register : Type 0
Register = Option (Text × ℕ) × WopiReply

abbrev pub token_text : Option (Text × ℕ) → Text
token_text none = []
token_text (some (token, _)) = token

abbrev pub stays : Option (Text × ℕ) → Option WopiError → Register
stays h e = (h, record { current_lock = some (token_text h); failure = e })

abbrev pub becomes : Option (Text × ℕ) → Text → Register
becomes h answer = (h, record { current_lock = some answer; failure = none })

abbrev pub rejects : Option (Text × ℕ) → WopiError → Register
rejects h e = (h, record { current_lock = none; failure = some e })

module _ (now : ℕ) where
  -- A token that is set or refreshed lapses after thirty minutes.
  abbrev pub lock_register : Text → Option (Text × ℕ) → Register
  lock_register lock_id none =
      if lock_id == []
      then rejects none invalid_lock_operation
      else becomes (some (lock_id, now + 1800)) lock_id
  lock_register lock_id (some (k, deadline)) =
      if lock_id == []
      then rejects (some (k, deadline)) invalid_lock_operation
      else if k == lock_id
      then becomes (some (lock_id, now + 1800)) lock_id
      else stays (some (k, deadline)) (some conflict)

  abbrev pub refresh_register : Text → Option (Text × ℕ) → Register
  refresh_register lock_id h =
      if is_token (token_of h) lock_id
      then becomes (some (lock_id, now + 1800)) lock_id
      else stays h (some conflict)

  abbrev pub unlock_register : Text → Option (Text × ℕ) → Register
  unlock_register lock_id h =
      if is_token (token_of h) lock_id then becomes none lock_id else stays h (some conflict)

  abbrev pub relock_register : Text → Text → Option (Text × ℕ) → Register
  relock_register lock_id old_lock_id h =
      let expected = if old_lock_id == [] then lock_id else old_lock_id in
      if is_token (token_of h) expected && not (lock_id == [])
      then becomes (some (lock_id, now + 1800)) lock_id
      else stays h (some conflict)

  unfoldable pub wopi_register : Text → Text → Text → Option (Text × ℕ) → Register
  wopi_register op lock_id old_lock_id h =
      if op == codes "GET_LOCK"
      then stays h none
      else if op == codes "LOCK"
      then lock_register lock_id h
      else if op == codes "REFRESH_LOCK"
      then refresh_register lock_id h
      else if op == codes "UNLOCK"
      then unlock_register lock_id h
      else if op == codes "UNLOCK_AND_RELOCK"
      then relock_register lock_id old_lock_id h
      else rejects h invalid_lock_operation
