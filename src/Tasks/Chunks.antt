-- ===== src/Tasks/Chunks.antt =====
-- The counter of received chunks and the rows of the chunks.
use dyson_fs.Base.{
  All, Bool, Bool-cases, List, Text, [], any_row, arith, count_rows, false, inl, inr, refl, some,
  subst, suc, true, update_rows, ℕ, ◌++◌, ◌+◌, ◌==◌, ◌||◌, ◌∷◌, ◌≡◌, ◌≤◌, nat_eq, text_equality,
}
use dyson_fs.Tasks.{
  TaskTable, update_uploaded_chunk, Chunk, is_task, update_task, is_chunk, is_chunk_uploaded, Task,
  touch,
}

unfoldable pub of_task : Text → Chunk → Bool
of_task id c = c.chunk_task == id

-- Every task of this id has counted the chunk rows of the id, on top of what it started with.
unfoldable pub Counted : Text → ℕ → TaskTable → Type 0
Counted id base db =
    All (λ t. is_task id t ≡ true → t.chunks_uploaded ≡ base + count_rows (of_task id) db.chunks)
      db.tasks

-- No chunk of a task has two rows.
unfoldable pub Single : TaskTable → Type 0
Single db = (id : Text) (index : ℕ) → count_rows (is_chunk id index) db.chunks ≤ 1

count_rows-append {ℓ} :
    {A : Type ℓ} (p : A → Bool) (xs ys : List A)
    → count_rows p (xs ++ ys) ≡ count_rows p xs + count_rows p ys
unfolding count_rows
count_rows-append p [] ys = omega arith
count_rows-append p (x ∷ xs) ys = ground (arith, count_rows-append p xs ys)

any_row-count {ℓ} :
    {A : Type ℓ} (p : A → Bool) (xs : List A) → any_row p xs ≡ false → count_rows p xs ≡ 0
unfolding count_rows any_row
any_row-count p [] h = refl
any_row-count p (x ∷ xs) h = ground (arith, any_row-count p xs)

any_row-append {ℓ} :
    {A : Type ℓ} (p : A → Bool) (xs ys : List A)
    → any_row p (xs ++ ys) ≡ (any_row p xs || any_row p ys)
unfolding any_row
any_row-append p [] ys = refl
any_row-append p (x ∷ xs) ys = ground (arith, any_row-append p xs ys)

abbrev new_chunk : Text → ℕ → Chunk
new_chunk id index = record { chunk_task = id; chunk_index = index }

is_new_chunk : (id : Text) (index : ℕ) → is_chunk id index (new_chunk id index) ≡ true
unfolding is_chunk
is_new_chunk id index = ground arith

abbrev count_one : Task → Task
count_one t = record t { chunks_uploaded = suc t.chunks_uploaded }

reported_before :
    (now : ℕ) (id : Text) (index : ℕ) (db : TaskTable)
    → any_row (is_chunk id index) db.chunks ≡ true
    → update_uploaded_chunk now id index db ≡ db
unfolding update_uploaded_chunk
reported_before now id index db h = ground arith

reported_new :
    (now : ℕ) (id : Text) (index : ℕ) (db : TaskTable)
    → any_row (is_chunk id index) db.chunks ≡ false
    → update_uploaded_chunk now id index db ≡ record {
      tasks = update_rows (is_task id) (λ t. touch now (count_one t)) db.tasks;
      chunks = db.chunks ++ new_chunk id index ∷ [];
    }
unfolding update_uploaded_chunk update_task
reported_new now id index db h = ground arith

-- The chunk has a row once it is reported.
reported :
    (now : ℕ) (id : Text) (index : ℕ) (db : TaskTable)
    → any_row (is_chunk id index) (update_uploaded_chunk now id index db).chunks ≡ true
unfolding any_row
reported now id index db = elim (Bool-cases (any_row (is_chunk id index) db.chunks)) [
  | inl there ↦ rw (reported_before now id index db there) there
  | inr absent ↦ rw (reported_new now id index db absent) (
      rw (any_row-append (is_chunk id index) db.chunks (new_chunk id index ∷ []))
        (ground (arith, is_new_chunk id index)))
]

count_new :
    (id i : Text) (index k : ℕ) (xs : List Chunk)
    → any_row (is_chunk id index) xs ≡ false
    → count_rows (is_chunk i k) xs ≤ 1
    → count_rows (is_chunk i k) (xs ++ new_chunk id index ∷ []) ≤ 1
unfolding count_rows is_chunk
count_new id i index k xs absent single = elim (Bool-cases (is_chunk i k (new_chunk id index))) [
  | inl same ↦
      let task : id ≡ i = ground arith in
      let place : index ≡ k = ground arith in
      let none_yet : count_rows (is_chunk i k) xs ≡ 0 =
        subst (λ x. count_rows (is_chunk x k) xs ≡ 0) task
          (subst (λ x. count_rows (is_chunk id x) xs ≡ 0) place
            (any_row-count (is_chunk id index) xs absent)) in
      ground (arith, count_rows-append (is_chunk i k) xs (new_chunk id index ∷ []))
  | inr other ↦ ground (arith, count_rows-append (is_chunk i k) xs (new_chunk id index ∷ []))
]

-- However often the chunks of a task are reported, no chunk has two rows.
pub update_uploaded_chunk-Single :
    (now : ℕ) (id : Text) (index : ℕ) (db : TaskTable)
    → Single db
    → Single (update_uploaded_chunk now id index db)
unfolding Single
update_uploaded_chunk-Single now id index db single i k =
    elim (Bool-cases (any_row (is_chunk id index) db.chunks)) [
      | inl there ↦ rw (reported_before now id index db there) (single i k)
      | inr absent ↦
          rw (reported_new now id index db absent)
            (count_new id i index k db.chunks absent (single i k))
    ]

grown :
    (id : Text) (index : ℕ) (xs : List Chunk)
    → count_rows (of_task id) (xs ++ new_chunk id index ∷ []) ≡ suc (count_rows (of_task id) xs)
unfolding count_rows of_task
grown id index xs = ground (arith, count_rows-append (of_task id) xs (new_chunk id index ∷ []))

counted_new :
    (now : ℕ) (id : Text) (index base n m : ℕ) (ts : List Task)
    → m ≡ suc n
    → All (λ t. is_task id t ≡ true → t.chunks_uploaded ≡ base + n) ts
    → All
        (λ t. is_task id t ≡ true → t.chunks_uploaded ≡ base + m)
        (update_rows (is_task id) (λ t. touch now (count_one t)) ts)
unfolding update_rows touch is_task
counted_new now id index base n m [] h counted = tt
counted_new now id index base n m (t ∷ ts) h counted =
    (λ mine. ground (arith, counted.0), counted_new now id index base n m ts h counted.1)

is_uploaded :
    (db : TaskTable) (id : Text) (index : ℕ)
    → any_row (is_chunk id index) db.chunks ≡ true
    → is_chunk_uploaded db id index ≡ some true
unfolding is_chunk_uploaded
is_uploaded db id index h = ground arith

-- Reporting a chunk keeps the counter of its task in step with the rows of its chunks, whether the
-- chunk is new or was reported before.
pub update_uploaded_chunk-Counted :
    (now : ℕ) (id : Text) (index base : ℕ) (db : TaskTable)
    → Counted id base db
    → Counted id base (update_uploaded_chunk now id index db)
unfolding Counted
update_uploaded_chunk-Counted now id index base db counted =
    elim (Bool-cases (any_row (is_chunk id index) db.chunks)) [
      | inl there ↦ rw (reported_before now id index db there) counted
      | inr absent ↦ rw (reported_new now id index db absent) (
          counted_new now id index base (count_rows (of_task id) db.chunks)
            (count_rows (of_task id) (db.chunks ++ new_chunk id index ∷ [])) db.tasks
            (grown id index db.chunks) counted)
    ]

-- A chunk that was reported is known to be uploaded, and reporting it again changes nothing.
pub update_uploaded_chunk-again :
    (now later : ℕ) (id : Text) (index : ℕ) (db : TaskTable)
    → (is_chunk_uploaded (update_uploaded_chunk now id index db) id index ≡ some true)
      × (update_uploaded_chunk later id index (update_uploaded_chunk now id index db)
          ≡ update_uploaded_chunk now id index db)
update_uploaded_chunk-again now later id index db =
    let there = reported now id index db in
    (
      is_uploaded (update_uploaded_chunk now id index db) id index there,
      reported_before later id index (update_uploaded_chunk now id index db) there,
    )
