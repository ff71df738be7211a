-- ===== src/Worker/Migration/Tests.antt =====
-- Migrations at concrete inputs: two files in a directory that move to another one.
use dyson_fs.Base.{
  Bool, List, Option, Result, Text, [], ap, arith, codes, contains, count_rows, false, find_first,
  has_prefix, inl, inr, is_blank, keep, none, not, ok, refl, some, sym, text_discrete, trim_space,
  true, update_rows, ℕ, ℕ_discrete, ◌&&◌, ◌==◌, ◌∷◌, ◌≡◌, ◌≢◌, ◌⊎◌, nat_eq, text_equality,
}
use dyson_fs.Tasks.{pending}
use dyson_fs.Worker.Migration.{
  Backends, StorageConfig, MigrationPool, MigrationFile, MigrationError, backend_from_pool_storage,
  same_option, same_bool, same_config, trimmed, object_key_of, key_of, in_pool, has_key,
  content_type_of, World, is_file, to_pool, set_pool, finish_move, copy_and_move, move_file_to_pool,
  MigrationParameters, is_left, move_files, find_pool, run_pool_migration,
}
use dyson_fs.Worker.Migration.Ends.{run_pool_migration-returns}
use dyson_fs.Worker.Migration.Kept.{run_pool_migration-Keeps}
use dyson_fs.Worker.Migration.Queue.{MigrationTask, waits, process_pool_migrations}
use dyson_fs.Worker.Migration.Queue.Empty.{process_pool_migrations-none}

abbrev directory : Text → Text → StorageConfig
directory path access = record {
  endpoint = path;
  bucket = [];
  secret_id = [];
  secret_key = [];
  enable_ssl = false;
  enable_signed = false;
  access_endpoint = some access;
  image_proxy = none;
  access_proxy = none;
}

abbrev pool : Text → StorageConfig → MigrationPool
pool id config = record { migration_pool_id = id; storage_config = config }

abbrev old_pool : MigrationPool
old_pool = pool (codes "old") (directory (codes "/a") (codes "x"))

abbrev new_pool : MigrationPool
new_pool = pool (codes "new") (directory (codes "/b") (codes "x"))

-- The directory of the old pool with another address for clients.
abbrev twin_pool : MigrationPool
twin_pool = pool (codes "twin") (directory (codes "/a") (codes "y"))

abbrev pools : List MigrationPool
pools = old_pool ∷ new_pool ∷ twin_pool ∷ []

-- Stored bytes with their directory and key; S3 is not reached, nothing else fails.
abbrev Stored : Type 0
Stored = List (Text × (Text × List ℕ))

here : Text → Text → Text × (Text × List ℕ) → Bool
here directory key entry = (entry.0 == directory) && (entry.1.0 == key)

read_entry : Option (Text × (Text × List ℕ)) → Option (List ℕ × Text)
read_entry none = none
read_entry (some entry) = some (entry.1.1, [])

disks : Backends Stored Text
unfolding here read_entry
disks = record {
  directory = λ path. path;
  connect = λ config. none;
  get = λ d key s. read_entry (find_first (here d key) s);
  put = λ d key content content_type s.
      ((d, (key, content)) ∷ keep (λ entry. not (here d key entry)) s, true);
  remove = λ d key s. (keep (λ entry. not (here d key entry)) s, true);
}

abbrev file : Text → MigrationFile
file id = record {
  file_id = id;
  pool_id = some (codes "old");
  storage_key = some (codes "k");
  object = none;
  object_id = none;
}

abbrev two_files : World Stored
two_files = record {
  files = file (codes "f") ∷ file (codes "g") ∷ [];
  store = (codes "/a", (codes "k", 1 ∷ 2 ∷ [])) ∷ [];
}

abbrev parameters : MigrationParameters
parameters = record {
  source_pool_id = codes "old";
  target_pool_id = codes "new";
  file_ids = codes "f" ∷ codes "g" ∷ [];
}

abbrev both_moved : World Stored
both_moved = record {
  files = to_pool (codes "new") (file (codes "f")) ∷ to_pool (codes "new") (file (codes "g")) ∷ [];
  store = (codes "/b", (codes "k", 1 ∷ 2 ∷ [])) ∷ [];
}

program : Unit {0}
unfolding disks here read_entry backend_from_pool_storage same_option same_bool same_config trimmed
    object_key_of key_of in_pool has_key content_type_of is_file to_pool set_pool finish_move
    copy_and_move move_file_to_pool is_left move_files find_pool run_pool_migration find_first keep
    count_rows update_rows contains has_prefix is_blank trim_space text_discrete ℕ_discrete
program = tt

-- Two files of one key: the bytes are deleted behind the second one.
both : run_pool_migration disks pools parameters two_files ≡ (both_moved, some (ok 2))
unfolding program
both = refl

run_pool_migration-returns_example :
    (r : Result MigrationError ℕ) × ((run_pool_migration disks pools parameters two_files).1
      ≡ some r)
run_pool_migration-returns_example = run_pool_migration-returns disks pools parameters two_files

-- Two pools of one directory whose settings differ in the address for clients: the copy is deleted
-- with the original.
abbrev to_twin : MigrationParameters
to_twin = record parameters { target_pool_id = codes "twin" }

lost : (run_pool_migration disks pools to_twin two_files).0.store ≡ []
unfolding program
lost = refl

abbrev task : MigrationTask
task = record {
  task_id = codes "t";
  is_migration = true;
  status = pending;
  created_at = 1;
  last_activity = 1;
  parameters = some parameters;
  message = none;
}

process_pool_migrations-none_example :
    (after : List MigrationTask) × (w : World Stored) × (process_pool_migrations disks 10 pools
        (task ∷ [])
        two_files
      ≡ some (after, w))
    × (count_rows waits after ≡ 0)
process_pool_migrations-none_example =
    process_pool_migrations-none disks 10 pools (task ∷ []) two_files

-- What a directory and a key read where another directory or another key is removed.
found_other :
    (d k e other : Text) (s : Stored)
    → (d ≢ e) ⊎ (k ≢ other)
    → find_first (here d k) (keep (λ entry. not (here e other entry)) s) ≡ find_first (here d k) s
unfolding find_first keep here
found_other d k e other [] h = refl
found_other d k e other (entry ∷ s) h = ground (arith, h, found_other d k e other s h)

apart : codes "/a" ≢ codes "/b"
unfolding text_discrete
apart h = ground (arith, h)

put_apart :
    (k other : Text) (content : List ℕ) (content_type : Text) (s : Stored)
    → disks.get (codes "/a") k (disks.put (codes "/b") other content content_type s).0
      ≡ disks.get (codes "/a") k s
unfolding disks find_first here text_discrete ℕ_discrete
put_apart k other content content_type s =
    ap read_entry (found_other (codes "/a") k (codes "/b") other s (inl apart))

remove_other :
    (k other : Text) (s : Stored)
    → other ≢ k
    → disks.get (codes "/a") k (disks.remove (codes "/a") other s).0 ≡ disks.get (codes "/a") k s
unfolding disks
remove_other k other s h =
    ap read_entry (found_other (codes "/a") k (codes "/a") other s (inr (λ e. h (sym e))))

-- The move of one of two files with one key leaves the other file its bytes.
abbrev first_only : MigrationParameters
first_only = record parameters { file_ids = codes "f" ∷ [] }

run_pool_migration-Keeps_example :
    disks.get (codes "/a") (codes "k") (run_pool_migration disks pools first_only two_files).0.store
    ≡ disks.get (codes "/a") (codes "k") two_files.store
unfolding program
run_pool_migration-Keeps_example =
    run_pool_migration-Keeps disks pools first_only two_files old_pool new_pool (codes "/a")
      (codes "/b") (codes "k") refl refl refl refl put_apart remove_other (omega arith)
