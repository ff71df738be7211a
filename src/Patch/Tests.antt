-- ===== src/Patch/Tests.antt =====
-- Runs of patches: a patch here appends its bytes.
use dyson_fs.Base.{
  Bool, List, Option, Text, [], codes, err, false, find_first, keep, none, not, refl, some,
  text_discrete, trim_space, true, update_rows, ℕ, ◌&&◌, ◌++◌, ◌==◌, ◌∷◌, ◌≡◌, nat_eq,
  text_equality,
}
use dyson_fs.Lock.{LockTable, get_lock, lock_of, clean_expired_locks}
use dyson_fs.Worker.Migration.{Backends, trimmed}
use dyson_fs.Patch.{
  PatchWorld, not_locked, check_file, token_fits, apply_patch, get_file, is_patch_file,
  patch_content, overwrite_in_place, sized, locate, resolve_storage_key, backend_for_file,
  object_of, object_storage_key, is_patch_object,
}

-- Stored bytes with their directory and key; S3 is not reached, nothing else fails.
abbrev Stored : Type 0
Stored = List (Text × (Text × List ℕ))

here : Text → Text → Text × (Text × List ℕ) → Bool
here directory key entry = (entry.0 == directory) && (entry.1.0 == key)

disks : Backends Stored Text
unfolding here
disks = record {
  directory = λ path. path;
  connect = λ config. none;
  get = λ d key s. elim (find_first (here d key) s) [
    | none ↦ none
    | some entry ↦ some (entry.1.1, [])
  ];
  put = λ d key content content_type s.
      ((d, (key, content)) ∷ keep (λ entry. not (here d key entry)) s, true);
  remove = λ d key s. (keep (λ entry. not (here d key entry)) s, true);
}

-- Every writing fails and leaves an empty file.
full_disks : Backends Stored Text
unfolding here disks
full_disks = record disks {
  put = λ d key content content_type s.
      ((d, (key, [])) ∷ keep (λ entry. not (here d key entry)) s, false);
}

abbrev append : List ℕ → List ℕ → Option (List ℕ)
append old more = some (old ++ more)

abbrev world : PatchWorld Stored Text
world = record {
  files =
      record {
        file_id = codes "f";
        is_folder = false;
        pool_id = none;
        storage_key = none;
        file_object = some (codes "o");
      }
      ∷ [];
  objects =
      record {
        object_id = codes "o";
        object_key = some (codes "k");
        size = 2;
        needs_rehash = false;
        updated_at = 1;
      }
      ∷ [];
  pools = [];
  default_backend = codes "/data";
  store = (codes "/data", (codes "k", 1 ∷ 2 ∷ [])) ∷ [];
}

abbrev locks : LockTable
locks =
    record {
      id = 1;
      file_id = codes "f";
      lock_token = codes "t";
      protocol = codes "webdav";
      account_id = none;
      timeout = 100;
      expires_at = 150;
    }
    ∷ []

-- The holder of the lock patches the file, another client does not.
patched_bytes :
    (apply_patch disks append 60 (codes "f") (3 ∷ []) (codes "t") locks world).1.0.store
    ≡ (codes "/data", (codes "k", 1 ∷ 2 ∷ 3 ∷ [])) ∷ []
unfolding disks full_disks here apply_patch check_file get_file find_first is_patch_file
    text_discrete trimmed trim_space get_lock lock_of clean_expired_locks keep token_fits
    patch_content overwrite_in_place sized locate resolve_storage_key backend_for_file update_rows
    object_of object_storage_key is_patch_object
patched_bytes = refl

not_holder :
    (apply_patch disks append 60 (codes "f") (3 ∷ []) (codes "u") locks world).1
    ≡ (world, err not_locked)
unfolding disks full_disks here apply_patch check_file get_file find_first is_patch_file
    text_discrete trimmed trim_space get_lock lock_of clean_expired_locks keep token_fits
    patch_content overwrite_in_place sized locate resolve_storage_key backend_for_file update_rows
    object_of object_storage_key is_patch_object
not_holder = refl

-- The original is lost when the writing fails.
failed_bytes :
    (apply_patch full_disks append 60 (codes "f") (3 ∷ []) (codes "t") locks world).1.0.store
    ≡ (codes "/data", (codes "k", [])) ∷ []
unfolding disks full_disks here apply_patch check_file get_file find_first is_patch_file
    text_discrete trimmed trim_space get_lock lock_of clean_expired_locks keep token_fits
    patch_content overwrite_in_place sized locate resolve_storage_key backend_for_file update_rows
    object_of object_storage_key is_patch_object
failed_bytes = refl
