-- ===== src/FailureLog/Newest.antt =====
-- The log against the whole history of failures.
use dyson_fs.Base.{
  Bool, List, Option, [], ap, arith, count_rows, dec_lt, drop, false, if◌then◌else◌, length,
  length-append, length-take_of_le, ltb, negsuc, ok, pos, refl, some, suc, sym, take, true, zero, ℕ,
  ℤ, ◌%◌, ◌++◌, ◌+◌, ◌-◌, ◌<◌, ◌^◌, ◌∙◌, ◌∷◌, ◌≡◌, ◌≤◌,
}
use dyson_fs.FailureLog.{
  FailureEvent, FailureLog, new_server_failure_log, copy_over, set_last, index, newest, push_event,
  record_event, record_locked, shown, snapshot,
}

module _ {ℓ} {A : Type ℓ} where
  -- A list backwards.
  unfoldable backwards : List A → List A
  backwards [] = []
  backwards (x ∷ xs) = backwards xs ++ x ∷ []

  length-backwards : (xs : List A) → length (backwards xs) ≡ length xs
  unfolding backwards
  length-backwards [] = refl
  length-backwards (x ∷ xs) =
      omega (arith, length-backwards xs, length-append (backwards xs) (x ∷ []))

  -- The slice moved down by one, with the last element replaced.
  set_last-copy_over : (a x : A) (xs : List A) → set_last a (copy_over (x ∷ xs) xs) ≡ xs ++ a ∷ []
  unfolding set_last copy_over
  set_last-copy_over a x [] = refl
  set_last-copy_over a x (y ∷ []) = refl
  set_last-copy_over a x (y ∷ z ∷ xs) = ap (λ l. y ∷ l) (set_last-copy_over a y (z ∷ xs))

  drop-append_one :
      (xs : List A) (a : A) → 1 ≤ length xs → drop 1 (xs ++ a ∷ []) ≡ drop 1 xs ++ a ∷ []
  drop-append_one [] a h = absurd (omega arith)
  drop-append_one (x ∷ xs) a h = refl

  drop-backwards-take :
      (n : ℕ) (xs : List A)
      → suc n ≤ length xs
      → drop 1 (backwards (take (suc n) xs)) ≡ backwards (take n xs)
  unfolding backwards
  drop-backwards-take n [] h = absurd (omega arith)
  drop-backwards-take zero (x ∷ xs) h = refl
  drop-backwards-take (suc n) (x ∷ xs) h =
      drop-append_one (backwards (take (suc n) xs)) x (
        omega
          (arith, length-backwards (take (suc n) xs), length-take_of_le (suc n) xs (omega arith)))
      ∙ ap (λ l. l ++ x ∷ []) (drop-backwards-take n xs (omega arith))

  take_all : (n : ℕ) (xs : List A) → length xs ≤ n → take n xs ≡ xs
  take_all zero [] h = refl
  take_all zero (x ∷ xs) h = absurd (omega arith)
  take_all (suc n) [] h = refl
  take_all (suc n) (x ∷ xs) h = ap (λ l. x ∷ l) (take_all n xs (omega arith))

  index-append : (xs : List A) (a : A) (i : ℕ) → i < length xs → index (xs ++ a ∷ []) i ≡ index xs i
  unfolding index
  index-append [] a i h = absurd (omega arith)
  index-append (x ∷ xs) a zero h = refl
  index-append (x ∷ xs) a (suc i) h = index-append xs a i (omega arith)

  index-length : (xs : List A) (a : A) → index (xs ++ a ∷ []) (length xs) ≡ ok a
  unfolding index
  index-length [] a = refl
  index-length (x ∷ xs) a = index-length xs a

  -- Counted from the end, a list backwards is the list.
  index-backwards :
      (xs : List A) (i : ℕ) → i < length xs → index (backwards xs) (length xs - suc i) ≡ index xs i
  unfolding backwards index
  index-backwards [] i h = absurd (omega arith)
  index-backwards (x ∷ xs) zero h =
      let here : suc (length xs) - 1 ≡ length (backwards xs) = omega (arith, length-backwards xs) in
      ap (index (backwards xs ++ x ∷ [])) here ∙ index-length (backwards xs) x
  index-backwards (x ∷ xs) (suc i) h =
      let here : suc (length xs) - suc (suc i) ≡ length xs - suc i = omega arith in
      ap (index (backwards xs ++ x ∷ [])) here
      ∙ index-append (backwards xs) x (length xs - suc i) (omega (arith, length-backwards xs))
      ∙ index-backwards xs i (omega arith)

  drop-index :
      (xs : List A) (i : ℕ)
      → i < length xs
      → (x : A) × (index xs i ≡ ok x) × (drop i xs ≡ x ∷ drop (suc i) xs)
  unfolding index
  drop-index [] i h = absurd (omega arith)
  drop-index (x ∷ xs) zero h = (x, refl, refl)
  drop-index (x ∷ xs) (suc i) h = drop-index xs i (omega arith)

  newest-backwards :
      (turns i : ℕ) (xs : List A)
      → i + turns ≤ length xs
      → newest turns i (backwards xs) ≡ ok (take turns (drop i xs))
  unfolding newest
  newest-backwards zero i xs h = refl
  newest-backwards (suc turns) i xs h =
      let (x, at, cut) = drop-index xs i (omega arith) in
      let rest = newest-backwards turns (suc i) xs (omega arith) in
      let here = index-backwards xs i (omega arith) in
      rw (length-backwards xs, here, at, rest, cut) refl

-- A log after failures, the latest first.
unfoldable pub after_events : List FailureEvent → Option FailureLog
after_events [] = some new_server_failure_log
after_events (event ∷ earlier) = record_event event (after_events earlier)

push_event_room :
    (event : FailureEvent) (events : List FailureEvent)
    → length events < 100
    → push_event event events ≡ events ++ event ∷ []
unfolding push_event
push_event_room event events h = ground (arith, h)

push_event_full :
    (event : FailureEvent) (events : List FailureEvent)
    → length events ≡ 100
    → push_event event events ≡ drop 1 events ++ event ∷ []
unfolding push_event
push_event_full event [] h = absurd (omega arith)
push_event_full event (x ∷ xs) h = ground (arith, h, set_last-copy_over event x xs)

push_event-backwards :
    (event : FailureEvent) (earlier : List FailureEvent)
    → push_event event (backwards (take 100 earlier)) ≡ backwards (take 100 (event ∷ earlier))
unfolding backwards
push_event-backwards event earlier = elim (dec_lt (length earlier) 100) [
  | yes h ↦
      rw (take_all 100 earlier (omega arith), take_all 99 earlier (omega arith))
        (push_event_room event (backwards earlier) (omega (arith, length-backwards earlier)))
  | no h ↦
      let size = length-take_of_le 100 earlier (omega arith) in
      push_event_full event (backwards (take 100 earlier))
        (length-backwards (take 100 earlier) ∙ size)
      ∙ ap (λ l. l ++ event ∷ []) (drop-backwards-take 99 earlier (omega arith))
]

-- The log that a history leaves, the latest failure first.
unfoldable log_of : List FailureEvent → FailureLog
log_of history = record {
  events = backwards (take 100 history);
  server_failure_count = length history % 2 ^ 64;
  upload_failure_count = count_rows (λ e. e.upload_failure) history % 2 ^ 64;
}

count_step : (n : ℕ) → suc (n % 2 ^ 64) % 2 ^ 64 ≡ suc n % 2 ^ 64
count_step n = omega arith

count_step_if :
    (b : Bool) (n : ℕ)
    → (if b then suc (n % 2 ^ 64) % 2 ^ 64 else n % 2 ^ 64) ≡ (if b then suc n else n) % 2 ^ 64
count_step_if true n = count_step n
count_step_if false n = refl

record_locked-log_of :
    (event : FailureEvent) (earlier : List FailureEvent)
    → record_locked event (log_of earlier) ≡ log_of (event ∷ earlier)
unfolding record_locked log_of count_rows
record_locked-log_of event earlier =
    rw
      (
        push_event-backwards event earlier,
        count_step (length earlier),
        count_step_if event.upload_failure (count_rows (λ e. e.upload_failure) earlier),
      )
      refl

after_events-log_of : (history : List FailureEvent) → after_events history ≡ some (log_of history)
unfolding after_events record_event log_of backwards count_rows
after_events-log_of [] = refl
after_events-log_of (event ∷ earlier) =
    ap (record_event event) (after_events-log_of earlier)
    ∙ ap some (record_locked-log_of event earlier)

-- How many events are kept of a history.
unfoldable pub kept_of : List FailureEvent → ℕ
kept_of history = if ltb (length history) 100 then length history else 100

kept_small : (history : List FailureEvent) → length history < 100 → kept_of history ≡ length history
unfolding kept_of
kept_small history h = ground (arith, h)

kept_large : (history : List FailureEvent) → 100 ≤ length history → kept_of history ≡ 100
unfolding kept_of
kept_large history h = ground (arith, h)

length-kept : (history : List FailureEvent) → length (take 100 history) ≡ kept_of history
length-kept history = elim (dec_lt (length history) 100) [
  | yes h ↦ ap length (take_all 100 history (omega arith)) ∙ sym (kept_small history h)
  | no h ↦ length-take_of_le 100 history (omega arith) ∙ sym (kept_large history (omega arith))
]

shown-le : (limit : ℤ) (kept : ℕ) → shown limit kept ≤ kept
unfolding shown
shown-le (negsuc n) kept = omega arith
shown-le (pos n) kept = ground arith

take-take {ℓ} :
    {A : Type ℓ} (k n : ℕ) (xs : List A) → k ≤ length (take n xs) → take k (take n xs) ≡ take k xs
take-take zero n xs h = refl
take-take (suc k) zero xs h = absurd (omega arith)
take-take (suc k) (suc n) [] h = refl
take-take (suc k) (suc n) (x ∷ xs) h = ap (λ l. x ∷ l) (take-take k n xs (omega arith))

newest-log_of :
    (limit : ℤ) (history : List FailureEvent)
    → newest (shown limit (kept_of history)) 0 (log_of history).events
      ≡ ok (take (shown limit (kept_of history)) history)
unfolding log_of
newest-log_of limit history =
    let size = length-kept history in
    let few = shown-le limit (kept_of history) in
    let turns = shown limit (kept_of history) in
    newest-backwards turns 0 (take 100 history) (omega (arith, size, few))
    ∙ ap ok (take-take turns 100 history (omega (arith, size, few)))

length-log_of : (history : List FailureEvent) → length (log_of history).events ≡ kept_of history
unfolding log_of
length-log_of history = length-backwards (take 100 history) ∙ length-kept history

-- After any failures, the latest first, a snapshot does not panic. It shows the latest ones in that
-- order, as many as the limit asks for, and at most the 100 that are kept; its counters are those of
-- the whole history, modulo 2 ^ 64.
pub snapshot-after_events :
    (limit : ℤ) (history : List FailureEvent)
    → snapshot limit (after_events history)
      ≡ ok record {
        capacity = 100;
        retained_event_count = kept_of history;
        server_failure_count = length history % 2 ^ 64;
        upload_failure_count = count_rows (λ e. e.upload_failure) history % 2 ^ 64;
        events = take (shown limit (kept_of history)) history;
      }
unfolding snapshot log_of
snapshot-after_events limit history =
    rw (after_events-log_of history, length-log_of history, newest-log_of limit history) refl
