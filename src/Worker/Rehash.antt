-- ===== src/Worker/Rehash.antt =====
-- internal/worker/worker.go: the queue of objects whose hash is computed again.
pub mod Done
pub mod Stuck
mod Tests
use dyson_fs.Base.{
  Bool, List, Option, Text, [], codes, false, find_first, if◌then◌else◌, is_blank, keep, ltb, none,
  some, take, trim_space, update_rows, ℕ, ◌&&◌, ◌+◌, ◌==◌, ◌∷◌, nat_eq, text_equality,
}
use dyson_fs.Worker.Uploads.{
  UploadTables, UploadFile, UploadEvent, Sources, Message, Derivatives, process_uploaded_file,
}

pub record RehashObject : Type 0 where
  pub rehash_id : Text
  pub rehash_key : Option Text
  pub hash : Text
  pub mime : Text
  pub needs_rehash : Bool
  pub updated_at : ℕ

-- The objects that are not deleted, and the tables of uploads.
pub record RehashTables : Type 0 where
  pub objects : List RehashObject
  pub uploads : UploadTables

-- The hash, the detected type and the temporary path of the bytes under a key, if they are read.
abbrev pub Inspect : Type 0
Inspect = Text → Option (Text × Text × Text)

unfoldable pub rehash_due : ℕ → RehashObject → Bool
rehash_due now o = o.needs_rehash && ltb (o.updated_at + 30) now

-- The query has no order; the database returns the rows in the order of the list.
unfoldable pub rehash_queue : ℕ → List RehashObject → List RehashObject
rehash_queue now objects = take 20 (keep (rehash_due now) objects)

unfoldable pub key_of_object : RehashObject → Text
key_of_object o = elim o.rehash_key [
  | none ↦ o.rehash_id
  | some key ↦ if is_blank key then o.rehash_id else trim_space key
]

unfoldable pub backs : RehashObject → UploadFile → Bool
backs o f = elim f.object_id [ none ↦ false | some id ↦ id == o.rehash_id ]

unfoldable pub rehashed : ℕ → Text → Text → RehashObject → RehashObject
rehashed now hash mime o = record o {
  hash = hash;
  mime = mime;
  needs_rehash = false;
  updated_at = now;
}

-- rehashObject; the second component is its error.
unfoldable pub rehash_object :
    Sources
    → Derivatives
    → Inspect
    → ℕ
    → RehashObject
    → RehashTables
    → RehashTables × Option Message
rehash_object sources derivatives inspect now o db = elim (find_first (backs o) db.uploads.files) [
  | none ↦ (db, none)
  | some f ↦ elim (inspect (key_of_object o)) [
    | none ↦ (db, some (codes "read from storage"))
    | some (hash, mime, path) ↦
        let objects =
          update_rows (λ x. x.rehash_id == o.rehash_id) (rehashed now hash mime) db.objects in
        let evt : UploadEvent = record {
          event_file = f.upload_file_id;
          event_task = [];
          content_type = mime;
          processing_path = path;
        } in
        let (uploads, outcome) = process_uploaded_file sources derivatives now evt db.uploads in
        (record { objects = objects; uploads = uploads }, outcome)
  ]
]

unfoldable pub rehash_each :
    Sources → Derivatives → Inspect → ℕ → List RehashObject → RehashTables → RehashTables
rehash_each sources derivatives inspect now [] db = db
rehash_each sources derivatives inspect now (o ∷ queue) db =
    rehash_each sources derivatives inspect now queue
      (rehash_object sources derivatives inspect now o db).0

unfoldable pub process_rehash_queue :
    Sources → Derivatives → Inspect → ℕ → RehashTables → RehashTables
process_rehash_queue sources derivatives inspect now db =
    rehash_each sources derivatives inspect now (rehash_queue now db.objects) db

unfoldable pub run_rehash : Sources → Derivatives → Inspect → List ℕ → RehashTables → RehashTables
run_rehash sources derivatives inspect [] db = db
run_rehash sources derivatives inspect (now ∷ times) db =
    run_rehash sources derivatives inspect times
      (process_rehash_queue sources derivatives inspect now db)
