-- ===== src/Worker/Rehash/Tests.antt =====
-- Twenty objects that no file refers to, before one that a file refers to.
use dyson_fs.Base.{
  List, Text, [], any_row, codes, count_rows, none, refl, some, suc, text_discrete, true, zero, ℕ,
  ℕ_discrete, ◌++◌, ◌∷◌, ◌≡◌,
}
use dyson_fs.Tasks.{upload_completed}
use dyson_fs.Worker.Uploads.{Sources, UploadFile}
use dyson_fs.Worker.Rehash.{RehashTables, RehashObject, Inspect, rehash_due, backs, run_rehash}
use dyson_fs.Worker.Rehash.Done.{has_file}
use dyson_fs.Worker.Rehash.Stuck.{run_rehash-stuck}

abbrev flagged : Text → RehashObject
flagged id = record {
  rehash_id = id;
  rehash_key = none;
  hash = [];
  mime = [];
  needs_rehash = true;
  updated_at = 0;
}

abbrev copies : ℕ → List RehashObject
copies zero = []
copies (suc n) = flagged (codes "orphan") ∷ copies n

abbrev photo : UploadFile
photo = record {
  upload_file_id = codes "f";
  file_object = none;
  object_id = some (codes "o");
  storage_key = none;
  file_status = upload_completed;
}

abbrev tables : RehashTables
tables = record {
  objects = copies 20 ++ flagged (codes "o") ∷ [];
  uploads = record { files = photo ∷ []; tasks = record { tasks = []; chunks = [] } };
}

abbrev sources : Sources
sources = record { exists_at = λ path. true; copy_of = λ key. none }

abbrev inspect : Inspect
inspect key = some (codes "h", codes "image/png", codes "/tmp/y")

-- The object behind has a file.
served : has_file tables.uploads.files (flagged (codes "o")) ≡ true
unfolding has_file any_row backs text_discrete ℕ_discrete
served = refl

run_rehash-stuck_example : run_rehash sources [] inspect (100 ∷ 200 ∷ []) tables ≡ tables
unfolding has_file rehash_due any_row count_rows backs text_discrete ℕ_discrete
run_rehash-stuck_example =
    run_rehash-stuck sources [] inspect (100 ∷ 200 ∷ []) (copies 20) (flagged (codes "o") ∷ [])
      tables refl refl refl (refl, (refl, tt))
