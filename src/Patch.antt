-- ===== src/Patch.antt =====
-- internal/service/patch.go: new contents for a file, under the key where its bytes already are. The
-- pools and what is stored are those of Worker/Migration, the locks those of Lock.
pub mod Guarded
mod Tests
use dyson_fs.Base.{
  Bool, List, Option, Result, Text, [], codes, err, find_first, if◌then◌else◌, is_blank, length,
  none, not, ok, some, true, update_rows, ℕ, ◌==◌, ◌||◌, nat_eq, text_equality,
}
use dyson_fs.Lock.{FileLock, LockTable, get_lock}
use dyson_fs.Worker.Migration.{
  Backends, MigrationError, pool_not_found, MigrationPool, backend_from_pool_storage, find_pool,
  trimmed,
}

pub data PatchError : Type 0 where
  file_not_found folder_has_no_content no_backing_object not_locked storage_key_missing : PatchError
  original_not_read patch_failed upload_failed : PatchError
  backend_not_resolved : MigrationError → PatchError

pub record PatchObject : Type 0 where
  pub object_id : Text
  pub object_key : Option Text
  pub size : ℕ
  pub needs_rehash : Bool
  pub updated_at : ℕ

pub record PatchFile : Type 0 where
  pub file_id : Text
  pub is_folder : Bool
  pub pool_id : Option Text
  pub storage_key : Option Text
  pub file_object : Option Text

-- The tables, the default storage, and what is stored.
pub record PatchWorld (S B : Type 0) : Type 0 where
  pub files : List PatchFile
  pub objects : List PatchObject
  pub pools : List MigrationPool
  pub default_backend : B
  pub store : S

unfoldable pub is_patch_file : Text → PatchFile → Bool
is_patch_file id f = f.file_id == id

unfoldable pub is_patch_object : Text → PatchObject → Bool
is_patch_object id o = o.object_id == id

unfoldable pub object_storage_key : Option PatchObject → Text
object_storage_key none = []
object_storage_key (some o) = trimmed o.object_key

module _ {S B : Type 0} where
  -- GetFile, without the columns that patches do not read.
  unfoldable pub get_file : Text → PatchWorld S B → Result PatchError PatchFile
  get_file id w = elim (find_first (is_patch_file id) w.files) [
    | none ↦ err file_not_found
    | some f ↦ ok f
  ]

  -- `Preload("Object")`
  unfoldable pub object_of : PatchFile → PatchWorld S B → Option PatchObject
  object_of f w = elim f.file_object [
    | none ↦ none
    | some id ↦ find_first (is_patch_object id) w.objects
  ]

  unfoldable pub resolve_storage_key : PatchFile → PatchWorld S B → Text
  resolve_storage_key f w =
      if not (trimmed f.storage_key == [])
      then trimmed f.storage_key
      else if not (object_storage_key (object_of f w) == [])
      then object_storage_key (object_of f w)
      else trimmed f.file_object

  -- The first checks of OverwriteInPlace and of ApplyPatch.
  unfoldable pub check_file : Text → PatchWorld S B → Result PatchError PatchFile
  check_file id w = elim (get_file id w) [
    | err e ↦ err e
    | ok f ↦
        if f.is_folder
        then err folder_has_no_content
        else if trimmed f.file_object == []
        then err no_backing_object
        else ok f
  ]

-- The update of the object's row.
unfoldable pub sized : ℕ → PatchFile → List ℕ → List PatchObject → List PatchObject
sized now f content =
    update_rows (is_patch_object (trimmed f.file_object))
      (λ o. record o { size = length content; needs_rehash = true; updated_at = now })

unfoldable pub token_fits : Text → FileLock → Bool
token_fits token l = token == [] || l.lock_token == token

module _ {S B : Type 0} (b : Backends S B) where
  unfoldable pub backend_of_pool : Text → PatchWorld S B → Result PatchError B
  backend_of_pool pool w = elim (find_pool w.pools pool) [
    | none ↦ err (backend_not_resolved (pool_not_found pool))
    | some p ↦ elim (backend_from_pool_storage b p.storage_config) [
      | err e ↦ err (backend_not_resolved e)
      | ok backend ↦ ok backend
    ]
  ]

  unfoldable pub backend_for_file : PatchFile → PatchWorld S B → Result PatchError B
  backend_for_file f w = elim f.pool_id [
    | none ↦ ok w.default_backend
    | some pool ↦ if is_blank pool then ok w.default_backend else backend_of_pool pool w
  ]

  -- The backend and the key of the bytes of a file.
  unfoldable pub locate : PatchFile → PatchWorld S B → Result PatchError (B × Text)
  locate f w =
      if resolve_storage_key f w == []
      then err storage_key_missing
      else elim (backend_for_file f w) [
        | err e ↦ err e
        | ok backend ↦ ok (backend, resolve_storage_key f w)
      ]

  unfoldable pub overwrite_in_place :
      ℕ → Text → List ℕ → PatchWorld S B → PatchWorld S B × Result PatchError PatchFile
  overwrite_in_place now id content w = elim (check_file id w) [
    | err e ↦ (w, err e)
    | ok f ↦ elim (locate f w) [
      | err e ↦ (w, err e)
      | ok at ↦
          let (store, written) =
            b.put at.0 at.1 content (codes "application/octet-stream") w.store in
          let after = record w { store = store; objects = sized now f content w.objects } in
          if written
          then (after, get_file id after)
          else (record w { store = store }, err upload_failed)
    ]
  ]

-- The library binarydist applies a patch to the original.
module _ {S B : Type 0} (b : Backends S B) (patch : List ℕ → List ℕ → Option (List ℕ)) where
  -- ApplyPatch behind the check of the lock.
  unfoldable pub patch_content :
      ℕ → Text → List ℕ → PatchFile → PatchWorld S B → PatchWorld S B × Result PatchError PatchFile
  patch_content now id patch_data f w = elim (locate b f w) [
    | err e ↦ (w, err e)
    | ok at ↦ elim (b.get at.0 at.1 w.store) [
      | none ↦ (w, err original_not_read)
      | some (original, content_type) ↦ elim (patch original patch_data) [
        | none ↦ (w, err patch_failed)
        | some content ↦ overwrite_in_place b now id content w
      ]
    ]
  ]

  unfoldable pub apply_patch :
      ℕ
      → Text
      → List ℕ
      → Text
      → LockTable
      → PatchWorld S B
      → LockTable × (PatchWorld S B × Result PatchError PatchFile)
  apply_patch now id patch_data token t w = elim (check_file id w) [
    | err e ↦ (t, (w, err e))
    | ok f ↦
        let answer = get_lock now id t in
        (
          answer.0,
          elim answer.1 [
            | none ↦ (w, err not_locked)
            | some l ↦
                if token_fits token l
                then patch_content now id patch_data f w
                else (w, err not_locked)
          ],
        )
  ]
