-- ===== src/FailureLog.antt =====
-- internal/service/failure_log.go: ServerFailureLog, the newest server failures and the counts of all of them.
mod Newest
mod Tests
use dyson_fs.Base.{
  Bool, List, Option, Result, Text, [], drop, err, if◌then◌else◌, length, ltb, negsuc, none, ok,
  pos, some, suc, zero, ℕ, ℤ, ◌%◌, ◌++◌, ◌-◌, ◌==◌, ◌^◌, ◌||◌, ◌∷◌, ◌>>=◌, nat_eq, text_equality,
}

abbrev pub max_server_failure_events : ℕ
max_server_failure_events = 100

-- ServerFailureEvent.
pub record FailureEvent : Type 0 where
  pub occurred_at : ℕ
  pub method : Text
  pub path : Text
  pub status : ℕ
  pub detail : Text
  pub upload_failure : Bool

-- ServerFailureLog: the events that are kept, oldest first, and two uint64 counters.
pub record FailureLog : Type 0 where
  pub events : List FailureEvent
  pub server_failure_count : ℕ
  pub upload_failure_count : ℕ

-- ServerFailureLogSnapshot: its events are newest first.
pub record Snapshot : Type 0 where
  pub capacity : ℕ
  pub retained_event_count : ℕ
  pub server_failure_count : ℕ
  pub upload_failure_count : ℕ
  pub events : List FailureEvent

abbrev pub new_server_failure_log : FailureLog
new_server_failure_log = record { events = []; server_failure_count = 0; upload_failure_count = 0 }

-- What a run of the code can panic with.
pub data Panic : Type 0 where
  index_out_of_range : Panic

module _ {ℓ} {A : Type ℓ} where
  -- Go's copy: as many elements as both slices have.
  unfoldable pub copy_over : List A → List A → List A
  copy_over [] source = []
  copy_over (x ∷ xs) [] = x ∷ xs
  copy_over (x ∷ xs) (y ∷ ys) = y ∷ copy_over xs ys

  -- An assignment to the last element.
  unfoldable pub set_last : A → List A → List A
  set_last a [] = []
  set_last a (x ∷ []) = a ∷ []
  set_last a (x ∷ y ∷ xs) = x ∷ set_last a (y ∷ xs)

  -- The element at an index.
  unfoldable pub index : List A → ℕ → Result Panic A
  index [] i = err index_out_of_range
  index (x ∷ xs) zero = ok x
  index (x ∷ xs) (suc i) = index xs i

  -- The loop of Snapshot from i on, with so many turns left.
  unfoldable pub newest : ℕ → ℕ → List A → Result Panic (List A)
  newest zero i xs = ok []
  newest (suc turns) i xs = do
    x ← index xs (length xs - suc i)
    rest ← newest turns (suc i) xs
    ok (x ∷ rest)

unfoldable pub push_event : FailureEvent → List FailureEvent → List FailureEvent
push_event event events =
    if length events == max_server_failure_events
    then set_last event (copy_over events (drop 1 events))
    else events ++ event ∷ []

unfoldable pub record_locked : FailureEvent → FailureLog → FailureLog
record_locked event l = record {
  events = push_event event l.events;
  server_failure_count = suc l.server_failure_count % 2 ^ 64;
  upload_failure_count =
      if event.upload_failure then suc l.upload_failure_count % 2 ^ 64 else l.upload_failure_count;
}

-- ServerFailureLog.Record, also on a nil log.
unfoldable pub record_event : FailureEvent → Option FailureLog → Option FailureLog
record_event event none = none
record_event event (some l) = some (record_locked event l)

-- How many events a snapshot shows: all that are kept where the limit is not positive or exceeds them.
unfoldable pub shown : ℤ → ℕ → ℕ
shown (negsuc n) kept = kept
shown (pos limit) kept = if limit == 0 || ltb kept limit then kept else limit

-- ServerFailureLog.Snapshot.
unfoldable pub snapshot : ℤ → Option FailureLog → Result Panic Snapshot
snapshot limit none = ok record {
  capacity = max_server_failure_events;
  retained_event_count = 0;
  server_failure_count = 0;
  upload_failure_count = 0;
  events = [];
}
snapshot limit (some l) = do
  events ← newest (shown limit (length l.events)) 0 l.events
  ok record {
    capacity = max_server_failure_events;
    retained_event_count = length l.events;
    server_failure_count = l.server_failure_count;
    upload_failure_count = l.upload_failure_count;
    events = events;
  }
