-- ===== src/Worker/Migration.antt =====
-- internal/worker/worker.go: the migration of files from one pool to another, with the backends that
-- internal/service/service.go resolves for a pool.
pub mod Ends
pub mod Kept
pub mod Queue
mod Tests
use dyson_fs.Base.{
  Bool, List, Option, Result, Text, [], codes, contains, count_rows, err, false, find_first,
  has_prefix, if◌then◌else◌, is_blank, length, none, not, ok, some, suc, trim_space, true,
  update_rows, zero, ℕ, ◌&&◌, ◌==◌, ◌||◌, nat_eq, text_equality,
}

-- The storage settings of a pool.
pub record StorageConfig : Type 0 where
  pub endpoint : Text
  pub bucket : Text
  pub secret_id : Text
  pub secret_key : Text
  pub enable_ssl : Bool
  pub enable_signed : Bool
  pub access_endpoint : Option Text
  pub image_proxy : Option Text
  pub access_proxy : Option Text

pub record MigrationPool : Type 0 where
  pub migration_pool_id : Text
  pub storage_config : StorageConfig

-- The columns of a file and of its object that the migration reads and writes.
pub record StoredObject : Type 0 where
  pub object_key : Option Text
  pub mime_type : Text

pub record MigrationFile : Type 0 where
  pub file_id : Text
  pub pool_id : Option Text
  pub storage_key : Option Text
  pub object : Option StoredObject
  pub object_id : Option Text

pub data MigrationError : Type 0 where
  invalid_parameters : MigrationError
  pool_not_found : Text → MigrationError
  storage_not_configured : MigrationError
  connection_failed object_not_read put_failed delete_failed : MigrationError

-- What the object stores (os, minio-go) do to the bytes that are stored, of a type S, through a backend
-- of a type B. NewS3Backend may fail; a reading gives the content with its type; a writing and a
-- deletion give what is stored afterwards, also when they fail, and whether they succeed. A deletion
-- of what is not there counts as a success.
pub record Backends (S B : Type 0) : Type 0 where
  pub directory : Text → B
  pub connect : StorageConfig → Option B
  pub get : B → Text → S → Option (List ℕ × Text)
  pub put : B → Text → List ℕ → Text → S → S × Bool
  pub remove : B → Text → S → S × Bool

-- backendFromPoolStorage: an absolute path without secrets is a directory.
unfoldable pub backend_from_pool_storage :
    {S B : Type 0} → Backends S B → StorageConfig → Result MigrationError B
backend_from_pool_storage b c =
    if is_blank c.endpoint
    then err storage_not_configured
    else if is_blank c.secret_id && is_blank c.secret_key && has_prefix c.endpoint (codes "/")
    then ok (b.directory c.endpoint)
    else elim (b.connect c) [ none ↦ err connection_failed | some backend ↦ ok backend ]

unfoldable pub same_option : Option Text → Option Text → Bool
same_option none none = true
same_option none (some b) = false
same_option (some a) none = false
same_option (some a) (some b) = a == b

unfoldable pub same_bool : Bool → Bool → Bool
same_bool true b = b
same_bool false b = not b

-- reflect.DeepEqual of two settings
unfoldable pub same_config : StorageConfig → StorageConfig → Bool
same_config a b =
    (a.endpoint == b.endpoint)
    && (a.bucket == b.bucket)
    && (a.secret_id == b.secret_id)
    && (a.secret_key == b.secret_key)
    && same_bool a.enable_ssl b.enable_ssl
    && same_bool a.enable_signed b.enable_signed
    && same_option a.access_endpoint b.access_endpoint
    && same_option a.image_proxy b.image_proxy
    && same_option a.access_proxy b.access_proxy

unfoldable pub trimmed : Option Text → Text
trimmed none = []
trimmed (some s) = trim_space s

unfoldable pub object_key_of : MigrationFile → Text
object_key_of f = elim f.object [ none ↦ [] | some o ↦ trimmed o.object_key ]

-- The key under which the bytes of a file are stored.
unfoldable pub key_of : MigrationFile → Text
key_of f =
    if not (trimmed f.storage_key == [])
    then trimmed f.storage_key
    else if not (object_key_of f == [])
    then object_key_of f
    else trimmed f.object_id

unfoldable pub in_pool : Text → MigrationFile → Bool
in_pool pool f = elim f.pool_id [ none ↦ false | some p ↦ p == pool ]

unfoldable pub has_key : Text → MigrationFile → Bool
has_key key f = elim f.storage_key [ none ↦ false | some k ↦ k == key ]

-- The content type of a file, or the one that the storage gives.
unfoldable pub content_type_of : MigrationFile → Text → Text
content_type_of f stored = elim f.object [
  | none ↦ stored
  | some o ↦ if o.mime_type == [] then stored else o.mime_type
]

-- The files, in the order of their ids, and what is stored.
pub record World (S : Type 0) : Type 0 where
  pub files : List MigrationFile
  pub store : S

unfoldable pub is_file : Text → MigrationFile → Bool
is_file id f = f.file_id == id

unfoldable pub to_pool : Text → MigrationFile → MigrationFile
to_pool pool f = record f { pool_id = some pool }

unfoldable pub set_pool : Text → Text → List MigrationFile → List MigrationFile
set_pool id pool = update_rows (is_file id) (to_pool pool)

pub record MigrationParameters : Type 0 where
  pub source_pool_id : Text
  pub target_pool_id : Text
  pub file_ids : List Text

-- The files that a migration has still to move.
unfoldable pub is_left : MigrationParameters → MigrationFile → Bool
is_left p f =
    in_pool p.source_pool_id f && ((length p.file_ids == 0) || contains p.file_ids f.file_id)

unfoldable pub find_pool : List MigrationPool → Text → Option MigrationPool
find_pool pools id = find_first (λ q. q.migration_pool_id == id) pools

module _ {S B : Type 0} (b : Backends S B) where
  -- The row, and the deletion of bytes that no row of the source pool names; `none` is a success.
  unfoldable pub finish_move :
      Text
      → MigrationFile
      → MigrationPool
      → MigrationPool
      → B
      → World S
      → World S × Option MigrationError
  finish_move key f source target from w =
      let moved = set_pool f.file_id target.migration_pool_id w.files in
      let (store, gone) = b.remove from key w.store in
      if count_rows (λ g. in_pool source.migration_pool_id g && has_key key g) moved == 0
      then (record { files = moved; store = store }, if gone then none else some delete_failed)
      else (record { files = moved; store = w.store }, none)

  unfoldable pub copy_and_move :
      MigrationFile
      → MigrationPool
      → MigrationPool
      → B
      → B
      → World S
      → World S × Option MigrationError
  copy_and_move f source target from to w = elim (b.get from (key_of f) w.store) [
    | none ↦ (w, some object_not_read)
    | some (content, stored) ↦
        let (store, copied) = b.put to (key_of f) content (content_type_of f stored) w.store in
        if copied
        then finish_move (key_of f) f source target from (record { files = w.files; store = store })
        else (record { files = w.files; store = store }, some put_failed)
  ]

  unfoldable pub move_file_to_pool :
      MigrationFile → MigrationPool → MigrationPool → World S → World S × Option MigrationError
  move_file_to_pool f source target w =
      if (key_of f == []) || same_config source.storage_config target.storage_config
      then (
        record { files = set_pool f.file_id target.migration_pool_id w.files; store = w.store },
        none,
      )
      else elim (backend_from_pool_storage b source.storage_config) [
        | err e ↦ (w, some e)
        | ok from ↦ elim (backend_from_pool_storage b target.storage_config) [
          | err e ↦ (w, some e)
          | ok to ↦ copy_and_move f source target from to w
        ]
      ]

  -- The loop, which moves the first file that is left; the result holds how many it moved. Rounds
  -- that run out are an endless loop, which the source would not leave.
  unfoldable pub move_files :
      ℕ
      → MigrationParameters
      → MigrationPool
      → MigrationPool
      → World S
      → World S × Option (Result MigrationError ℕ)
  move_files zero p source target w = (w, none)
  move_files (suc fuel) p source target w = elim (find_first (is_left p) w.files) [
    | none ↦ (w, some (ok 0))
    | some f ↦
        let (moved, failure) = move_file_to_pool f source target w in
        elim failure [
          | some e ↦ (moved, some (err e))
          | none ↦
              let (after, outcome) = move_files fuel p source target moved in
              (
                after,
                elim outcome [
                  | none ↦ none
                  | some r ↦ elim r [ err e ↦ some (err e) | ok n ↦ some (ok (suc n)) ]
                ],
              )
        ]
  ]

  unfoldable pub run_pool_migration :
      List MigrationPool
      → MigrationParameters
      → World S
      → World S × Option (Result MigrationError ℕ)
  run_pool_migration pools p w =
      if (p.source_pool_id == [])
        || (p.target_pool_id == [])
        || (p.source_pool_id == p.target_pool_id)
      then (w, some (err invalid_parameters))
      else elim (find_pool pools p.source_pool_id) [
        | none ↦ (w, some (err (pool_not_found p.source_pool_id)))
        | some source ↦ elim (find_pool pools p.target_pool_id) [
          | none ↦ (w, some (err (pool_not_found p.target_pool_id)))
          | some target ↦ move_files (suc (length w.files)) p source target w
        ]
      ]
