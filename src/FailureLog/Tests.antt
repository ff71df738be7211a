-- ===== src/FailureLog/Tests.antt =====
-- Runs of the log.
use dyson_fs.Base.{
  Bool, List, [], codes, count_rows, false, negsuc, ok, pos, refl, take, true, ℕ, ℕ_discrete, ◌%◌,
  ◌^◌, ◌∷◌, ◌≡◌,
}
use dyson_fs.FailureLog.{
  FailureEvent, snapshot, shown, index, newest, push_event, record_locked, record_event,
}
use dyson_fs.FailureLog.Newest.{after_events, kept_of, snapshot-after_events}

abbrev failure : ℕ → Bool → FailureEvent
failure now upload = record {
  occurred_at = now;
  method = codes "PUT";
  path = codes "/api/upload";
  status = 500;
  detail = [];
  upload_failure = upload;
}

abbrev history : List FailureEvent
history = failure 30 true ∷ failure 20 false ∷ failure 10 true ∷ []

two_newest :
    snapshot (pos 2) (after_events history)
    ≡ ok record {
      capacity = 100;
      retained_event_count = 3;
      server_failure_count = 3;
      upload_failure_count = 2;
      events = failure 30 true ∷ failure 20 false ∷ [];
    }
unfolding snapshot after_events record_event newest shown ℕ_discrete record_locked push_event index
two_newest = refl

snapshot-after_events_example :
    snapshot (negsuc 0) (after_events history)
    ≡ ok record {
      capacity = 100;
      retained_event_count = kept_of history;
      server_failure_count = 3 % 2 ^ 64;
      upload_failure_count = count_rows (λ e. e.upload_failure) history % 2 ^ 64;
      events = take (shown (negsuc 0) (kept_of history)) history;
    }
snapshot-after_events_example = snapshot-after_events (negsuc 0) history
