-- ===== src/Media/Disk/Sweep.antt =====
-- After a sweep the cache fits.
use dyson_fs.Base.{
  Bool, List, Text, [], ap, arith, count-sort_by, count_rows, count_rows-keep-le, find_first,
  if◌then◌else◌, insert_by, keep, length, ltb, not, refl, some, sort_by, subst, true, ℕ, ◌&&◌, ◌+◌,
  ◌-◌, ◌∷◌, ◌≡◌, ◌≤◌,
}
use dyson_fs.Media.Disk.{
  DiskFile, DiskCache, has_key, get, put, total_size, evict_oldest, is_expired, sweep_once,
}

-- A content that is put is read until another one of its key is put or a sweep removes it.
pub get-put :
    (now later : ℕ) (key : Text) (content : List ℕ) (c : DiskCache)
    → length content ≤ c.max_bytes
    → (get later key (put now key content c)).1 ≡ some content
unfolding get put find_first has_key
get-put now later key content c h = ground (arith, h)

total_size-insert_by :
    (f : DiskFile) (l : List DiskFile)
    → total_size (insert_by (λ x. x.modified) f l) ≡ length f.bytes + total_size l
unfolding insert_by total_size
total_size-insert_by f [] = refl
total_size-insert_by f (g ∷ l) = ground (arith, total_size-insert_by f l)

total_size-sort_by : (l : List DiskFile) → total_size (sort_by (λ x. x.modified) l) ≡ total_size l
unfolding sort_by total_size
total_size-sort_by [] = refl
total_size-sort_by (f ∷ l) =
    ground (arith, total_size-insert_by f (sort_by (λ x. x.modified) l), total_size-sort_by l)

evict_fit :
    (removes : Text → Bool) (max : ℕ) (l : List DiskFile)
    → ((key : Text) → removes key ≡ true)
    → total_size (evict_oldest removes max (total_size l) l) ≤ max
unfolding evict_oldest total_size
evict_fit removes max [] all = omega arith
evict_fit removes max (f ∷ l) all =
    let smaller : length f.bytes + total_size l - length f.bytes ≡ total_size l = omega arith in
    let rest = evict_fit removes max l all in
    ground
      (arith, all f.file_key, rest, ap (λ n. total_size (evict_oldest removes max n l)) smaller)

evict_sub :
    (p : DiskFile → Bool) (removes : Text → Bool) (max total : ℕ) (l : List DiskFile)
    → count_rows p (evict_oldest removes max total l) ≤ count_rows p l
unfolding evict_oldest count_rows
evict_sub p removes max total [] = omega arith
evict_sub p removes max total (f ∷ l) =
    ground
      (arith, evict_sub p removes max (total - length f.bytes) l, evict_sub p removes max total l)

no_stuck :
    (p q : DiskFile → Bool) (l : List DiskFile)
    → ((f : DiskFile) → q f ≡ true)
    → keep (λ f. p f && not (q f)) l ≡ []
unfolding keep
no_stuck p q [] all = refl
no_stuck p q (f ∷ l) all = ground (arith, all f, no_stuck p q l all)

fresh : (p : DiskFile → Bool) (l : List DiskFile) → count_rows p (keep (λ f. not (p f)) l) ≡ 0
unfolding keep count_rows
fresh p [] = refl
fresh p (f ∷ l) = ground (arith, fresh p l)

-- The entries that a sweep leaves.
kept_fits :
    (removes : Text → Bool) (max : ℕ) (entries : List DiskFile)
    → ((key : Text) → removes key ≡ true)
    → total_size (
        if ltb max (total_size entries)
        then evict_oldest removes max (total_size entries) (sort_by (λ f. f.modified) entries)
        else entries)
      ≤ max
kept_fits removes max entries all =
    let sorted = sort_by (λ (f : DiskFile). f.modified) entries in
    let same = total_size-sort_by entries in
    let fit =
      subst (λ n. total_size (evict_oldest removes max n sorted) ≤ max) same
        (evict_fit removes max sorted all) in
    ground (arith, fit)

kept_few :
    (p : DiskFile → Bool) (removes : Text → Bool) (max : ℕ) (entries : List DiskFile)
    → count_rows p (
        if ltb max (total_size entries)
        then evict_oldest removes max (total_size entries) (sort_by (λ f. f.modified) entries)
        else entries)
      ≤ count_rows p entries
kept_few p removes max entries =
    let sorted = sort_by (λ (f : DiskFile). f.modified) entries in
    ground (
      arith,
      evict_sub p removes max (total_size entries) sorted,
      count-sort_by (λ (f : DiskFile). f.modified) p entries,
    )

-- A sweep whose removals succeed leaves a directory that fits its budget and holds no file that is
-- idle for longer than the time to live, and no file that was not there before.
pub sweep_once-fits :
    (removes : Text → Bool) (now : ℕ) (c : DiskCache) (p : DiskFile → Bool)
    → ((key : Text) → removes key ≡ true)
    → (total_size (sweep_once removes now c).files ≤ c.max_bytes)
      × (count_rows (is_expired now c) (sweep_once removes now c).files ≡ 0)
      × (count_rows p (sweep_once removes now c).files ≤ count_rows p c.files)
unfolding sweep_once
sweep_once-fits removes now c p all =
    let entries = keep (λ f. not (is_expired now c f)) c.files in
    rw (no_stuck (is_expired now c) (λ f. removes f.file_key) c.files (λ f. all f.file_key)) (
      kept_fits removes c.max_bytes entries all,
      omega (
        arith,
        kept_few (is_expired now c) removes c.max_bytes entries,
        fresh (is_expired now c) c.files,
      ),
      omega (
        arith,
        kept_few p removes c.max_bytes entries,
        count_rows-keep-le p (λ f. not (is_expired now c f)) c.files,
      ),
    )
