-- ===== src/Media/Disk.antt =====
-- internal/media/cache.go, diskCache: the files of the cache directory. A key has one path, so a file
-- is known by its key; times are seconds. Reads and writes of files succeed; a removal may fail.
pub mod Sweep
mod Tests
use dyson_fs.Base.{
  Bool, List, Option, Text, [], find_first, if◌then◌else◌, keep, leb, length, ltb, none, not, some,
  sort_by, update_rows, ℕ, ◌&&◌, ◌++◌, ◌+◌, ◌-◌, ◌==◌, ◌∷◌, nat_eq, text_equality,
}

pub record DiskFile : Type 0 where
  pub file_key : Text
  pub bytes : List ℕ
  pub modified : ℕ

pub record DiskCache : Type 0 where
  pub max_bytes : ℕ
  pub ttl : ℕ
  pub files : List DiskFile

unfoldable pub has_key : Text → DiskFile → Bool
has_key key f = f.file_key == key

-- Get: a file that is read is touched.
unfoldable pub get : ℕ → Text → DiskCache → DiskCache × Option (List ℕ)
get now key c = elim (find_first (has_key key) c.files) [
  | none ↦ (c, none)
  | some f ↦
      let touched = record c {
        files = update_rows (has_key key) (λ f. record f { modified = now }) c.files;
      } in
      if ltb c.max_bytes (length f.bytes) then (c, none) else (touched, some f.bytes)
]

-- Put: the file is written beside the others and renamed over an older one.
unfoldable pub put : ℕ → Text → List ℕ → DiskCache → DiskCache
put now key content c = record c {
  files =
      record { file_key = key; bytes = content; modified = now }
      ∷ keep (λ f. not (has_key key f)) c.files;
}

unfoldable pub total_size : List DiskFile → ℕ
total_size [] = 0
total_size (f ∷ files) = length f.bytes + total_size files

unfoldable pub is_expired : ℕ → DiskCache → DiskFile → Bool
is_expired now c f = ltb 0 c.ttl && ltb (f.modified + c.ttl) now

-- The loop over the entries, the oldest first, while they are too many.
unfoldable pub evict_oldest : (Text → Bool) → ℕ → ℕ → List DiskFile → List DiskFile
evict_oldest removes max total [] = []
evict_oldest removes max total (f ∷ files) =
    let less = evict_oldest removes max (total - length f.bytes) files in
    let rest = evict_oldest removes max total files in
    if leb total max then f ∷ files else if removes f.file_key then less else f ∷ rest

-- sweepOnce; an expired file that cannot be removed stays and is not counted.
unfoldable pub sweep_once : (Text → Bool) → ℕ → DiskCache → DiskCache
sweep_once removes now c =
    let stuck = keep (λ f. is_expired now c f && not (removes f.file_key)) c.files in
    let entries = keep (λ f. not (is_expired now c f)) c.files in
    let kept =
      if ltb c.max_bytes (total_size entries)
      then evict_oldest removes c.max_bytes (total_size entries) (sort_by (λ f. f.modified) entries)
      else entries in
    record c { files = stuck ++ kept }
