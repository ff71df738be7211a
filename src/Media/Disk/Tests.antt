-- ===== src/Media/Disk/Tests.antt =====
-- A cache of ten bytes.
use dyson_fs.Base.{
  List, Text, [], codes, count_rows, insert_by, keep, refl, sort_by, true, ℕ, ◌∷◌, ◌≡◌, ◌≤◌,
}
use dyson_fs.Media.Disk.{
  DiskFile, DiskCache, has_key, total_size, is_expired, evict_oldest, sweep_once,
}
use dyson_fs.Media.Disk.Sweep.{sweep_once-fits}

abbrev file : Text → ℕ → List ℕ → DiskFile
file key modified bytes = record { file_key = key; bytes = bytes; modified = modified }

abbrev four : List ℕ
four = 1 ∷ 2 ∷ 3 ∷ 4 ∷ []

abbrev cache : DiskCache
cache = record {
  max_bytes = 10;
  ttl = 100;
  files =
      file (codes "new") 95 four
      ∷ file (codes "old") 91 four
      ∷ file (codes "mid") 93 four
      ∷ file (codes "idle") 1 four
      ∷ [];
}

-- The idle file and then the oldest one go.
two_left :
    sweep_once (λ key. true) 110 cache
    ≡ record cache { files = file (codes "mid") 93 four ∷ file (codes "new") 95 four ∷ [] }
unfolding sweep_once evict_oldest total_size is_expired sort_by insert_by keep
two_left = refl

sweep_once-fits_example :
    (total_size (sweep_once (λ key. true) 110 cache).files ≤ 10)
    × (count_rows (is_expired 110 cache) (sweep_once (λ key. true) 110 cache).files ≡ 0)
    × (count_rows (has_key (codes "mid")) (sweep_once (λ key. true) 110 cache).files
        ≤ count_rows (has_key (codes "mid")) cache.files)
sweep_once-fits_example =
    sweep_once-fits (λ key. true) 110 cache (has_key (codes "mid")) (λ key. refl)
