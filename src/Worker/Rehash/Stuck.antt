-- ===== src/Worker/Rehash/Stuck.antt =====
-- What stays in the queue for ever.
use dyson_fs.Base.{
  All, Bool, List, [], any_row, ap, arith, count_rows, false, find_first, keep, length, none, not,
  refl, take, ℕ, ◌++◌, ◌∙◌, ◌∷◌, ◌≡◌,
}
use dyson_fs.Worker.Uploads.{UploadFile, Sources, Derivatives}
use dyson_fs.Worker.Rehash.{
  RehashTables, RehashObject, Inspect, rehash_due, rehash_queue, backs, rehash_object, rehash_each,
  process_rehash_queue, run_rehash,
}
use dyson_fs.Worker.Rehash.Done.{has_file}

no_file :
    (o : RehashObject) (files : List UploadFile)
    → any_row (backs o) files ≡ false
    → find_first (backs o) files ≡ none
unfolding any_row find_first
no_file o [] h = refl
no_file o (f ∷ files) h = ground (arith, h, no_file o files)

take-append {ℓ} : {A : Type ℓ} (xs ys : List A) → take (length xs) (xs ++ ys) ≡ xs
take-append [] ys = refl
take-append (x ∷ xs) ys = ap (λ l. x ∷ l) (take-append xs ys)

keep-append {ℓ} :
    {A : Type ℓ} (p : A → Bool) (xs ys : List A)
    → count_rows (λ x. not (p x)) xs ≡ 0
    → keep p (xs ++ ys) ≡ xs ++ keep p ys
unfolding keep count_rows
keep-append p [] ys h = refl
keep-append p (x ∷ xs) ys h = ground (arith, h, keep-append p xs ys)

-- Twenty objects at the front that are due are the queue.
rehash_queue-front :
    (now : ℕ) (front behind : List RehashObject)
    → length front ≡ 20
    → count_rows (λ o. not (rehash_due now o)) front ≡ 0
    → rehash_queue now (front ++ behind) ≡ front
unfolding rehash_queue
rehash_queue-front now front behind full due =
    rw (keep-append (rehash_due now) front behind due, ← full)
      (take-append front (keep (rehash_due now) behind))

module _ (sources : Sources) (derivatives : Derivatives) (inspect : Inspect) where
  rehash_each-stuck :
      (now : ℕ) (queue : List RehashObject) (db : RehashTables)
      → count_rows (has_file db.uploads.files) queue ≡ 0
      → rehash_each sources derivatives inspect now queue db ≡ db
  unfolding rehash_each rehash_object count_rows has_file
  rehash_each-stuck now [] db h = refl
  rehash_each-stuck now (o ∷ queue) db h =
      let none_here = no_file o db.uploads.files (ground (arith, h)) in
      rw (none_here, rehash_object) (rehash_each-stuck now queue db (ground (arith, h)))

  -- Twenty objects that no live file refers to block the queue: when the table holds them before
  -- its other objects, flagged and due at the instants of the passes, the passes change nothing,
  -- and no object behind them is ever hashed again, however long it is due.
  pub run_rehash-stuck :
      (times : List ℕ) (front behind : List RehashObject) (db : RehashTables)
      → db.objects ≡ front ++ behind
      → length front ≡ 20
      → count_rows (has_file db.uploads.files) front ≡ 0
      → All (λ now. count_rows (λ o. not (rehash_due now o)) front ≡ 0) times
      → run_rehash sources derivatives inspect times db ≡ db
  unfolding run_rehash process_rehash_queue
  run_rehash-stuck [] front behind db split full orphaned due = refl
  run_rehash-stuck (now ∷ times) front behind db split full orphaned due =
      let queue : rehash_queue now db.objects ≡ front =
        ap (rehash_queue now) split ∙ rehash_queue-front now front behind full due.0 in
      rw (queue, rehash_each-stuck now front db orphaned)
        (run_rehash-stuck times front behind db split full orphaned due.1)
