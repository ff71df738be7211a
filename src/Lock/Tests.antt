-- ===== src/Lock/Tests.antt =====
-- Locks at concrete inputs.
use Prim.Native.String.{String}
use dyson_fs.Base.{
  List, Option, Text, [], arith, codes, count_rows, err, false, find_first, if◌then◌else◌, is_blank,
  keep, none, ok, pos, refl, some, text_discrete, to_upper, trim_space, true, update_rows, ℕ,
  ℕ_discrete, ◌==◌, ◌∷◌, ◌≡◌, nat_eq, text_equality,
}
use dyson_fs.Lock.{
  LockRequest, FileLock, LockTable, clean_expired_locks, lock_of, get_lock, effective_timeout,
  create_lock, acquire_lock, refresh_lock, release_lock, lock_conflict,
}
use dyson_fs.Lock.Rows.{IsExclusive}
use dyson_fs.Lock.Exclusive.{
  LockCall, acquire, run_call-IsExclusive, lookup_lock, run_call, run_calls, Without,
  acquire_lock-run_calls,
}
use dyson_fs.Lock.Spec.{held_at, promise, call_error, run_call-promise}
use dyson_fs.Lock.Wopi.{WopiClaims, WopiReply, can_edit, handle_lock}
use dyson_fs.Lock.Wopi.Register.{wopi_register, token_of, is_token}
use dyson_fs.Lock.Wopi.Promise.{Agrees, handle_lock-Agrees}
use dyson_fs.Lock.Webdav.{confirm, lock_name, create}
use dyson_fs.Lock.Webdav.Paths.{
  claim, is_confirmed, confirm-create, confirm-release, asks_for, without_token,
}

abbrev request : ℕ → String → LockRequest
request id token = record {
  id = id;
  file_id = codes "f1";
  protocol = codes "wopi";
  lock_token = codes token;
  account_id = none;
  timeout = pos 60;
}

abbrev held : FileLock
held = record {
  id = 7;
  file_id = codes "f1";
  lock_token = codes "a";
  protocol = codes "wopi";
  account_id = none;
  timeout = 60;
  expires_at = 160;
}

program : Unit {0}
unfolding acquire_lock refresh_lock release_lock get_lock clean_expired_locks lock_of create_lock
    keep find_first update_rows count_rows is_blank text_discrete ℕ_discrete run_call run_calls
    effective_timeout create confirm handle_lock can_edit lock_name
program = tt

held-IsExclusive : IsExclusive (held ∷ [])
unfolding count_rows
held-IsExclusive = record { one_per_file = λ f. ground arith; one_per_id = λ i. ground arith }

acquire_free :
    (acquire_lock 100 (request 8 "b") []).1 ≡ ok (record held { id = 8; lock_token = codes "b" })
unfolding program
acquire_free = refl

acquire_held : acquire_lock 150 (request 8 "b") (held ∷ []) ≡ (held ∷ [], err lock_conflict)
unfolding program
acquire_held = refl

acquire_expired : acquire_lock 160 (request 8 "b") (held ∷ []) ≡ (
  record held { id = 8; lock_token = codes "b"; expires_at = 220 } ∷ [],
  ok (record held { id = 8; lock_token = codes "b"; expires_at = 220 }),
)
unfolding program
acquire_expired = refl

run_call-IsExclusive_example : IsExclusive (run_call 150 (acquire (request 8 "b")) (held ∷ []))
unfolding program
run_call-IsExclusive_example =
    run_call-IsExclusive 150 (acquire (request 8 "b")) held-IsExclusive refl

-- Another user asks for the lock and looks at it while it is held.
abbrev others : List (ℕ × LockCall)
others = (110, acquire (request 8 "b")) ∷ (120, lookup_lock (codes "f1")) ∷ []

others-Without : Without held others (held ∷ [])
unfolding program
others-Without = (refl, (λ p. ground (arith, p.1)), omega arith, (tt, (λ p. p), omega arith, tt))

acquire_lock-run_calls_example :
    acquire_lock 150 (request 9 "c") (run_calls others (held ∷ []))
    ≡ (run_calls others (held ∷ []), err lock_conflict)
unfolding program
acquire_lock-run_calls_example =
    acquire_lock-run_calls others held 150 (request 9 "c") held-IsExclusive refl others-Without
      (omega arith) refl (ground arith) refl

run_call-promise_example :
    ((f : Text)
      → held_at 150 (run_call 150 (acquire (request 8 "b")) (held ∷ [])) f
        ≡ (promise 150 (acquire (request 8 "b")) (held_at 150 (held ∷ []))).0 f)
    × (call_error 150 (acquire (request 8 "b")) (held ∷ [])
        ≡ (promise 150 (acquire (request 8 "b")) (held_at 150 (held ∷ []))).1)
run_call-promise_example = run_call-promise 150 (acquire (request 8 "b")) held-IsExclusive

abbrev editor : Option WopiClaims
editor = some (record { account_id = codes "u1"; permission = codes "edit" })

abbrev relocked : LockTable × WopiReply
relocked =
    handle_lock 150 8 (λ u. some u) (codes "f1") editor (codes " unlock_and_relock") (codes "b")
      (codes "a") (held ∷ [])

handle_lock-Agrees_example : Agrees 150 (codes "f1") (held ∷ []) relocked.0 relocked.1 (
    wopi_register 150
      (to_upper (trim_space (codes " unlock_and_relock")))
      (trim_space (codes "b"))
      (trim_space (codes "a"))
      (held_at 150 (held ∷ []) (codes "f1")))
unfolding program
handle_lock-Agrees_example =
    handle_lock-Agrees 150 8 (λ u. some u) (codes "f1") editor (codes " unlock_and_relock")
      (codes "b") (codes "a") held-IsExclusive refl

relock_reply : relocked.1 ≡ record { current_lock = some (codes "b"); failure = none }
unfolding program to_upper trim_space
relock_reply = refl

-- The path `/doc` resolves to the file `f2`.
abbrev resolve : Text → Option Text
resolve name = if name == codes "/doc" then some (codes "f2") else none

confirm-create_example :
    is_confirmed
      (confirm 120
        (codes "/doc")
        (claim (codes "t"))
        (create 100 8 resolve (codes "/doc") none (pos 60) (codes "t") (held ∷ [])).0).1
    ≡ (lock_name resolve (codes "/doc") == codes "/doc")
unfolding program
confirm-create_example =
    confirm-create 100 120 8 resolve (codes "/doc") none (pos 60) (codes "t") held-IsExclusive refl
      refl (omega arith) (omega arith)

-- So the holder of the lock cannot confirm it.
create_unconfirmed :
    is_confirmed
      (confirm 120
        (codes "/doc")
        (claim (codes "t"))
        (create 100 8 resolve (codes "/doc") none (pos 60) (codes "t") (held ∷ [])).0).1
    ≡ false
unfolding program
create_unconfirmed = refl

confirm-release_example :
    (token : Text) × (asks_for (claim (codes "a")) token ≡ true)
    × (is_token (token_of (held_at 120 (held ∷ []) (codes "f1"))) token ≡ true)
    × (held_at 130 (release_lock 130 (codes "f1") (codes "a") (held ∷ [])).0 (codes "f1")
        ≡ without_token (codes "f1") token (codes "f1") (held_at 130 (held ∷ []) (codes "f1")))
unfolding program
confirm-release_example =
    confirm-release 120 130 (codes "f1") (codes "f1") (claim (codes "a")) held-IsExclusive
      held-IsExclusive refl
