-- ===== src/Tasks/Parts.antt =====
-- internal/service/service.go, WriteUploadChunk: where the bytes of a chunk go in the staged file.
-- The file is the byte at each offset, 0 where nothing was written. Creating and opening it succeeds.
use dyson_fs.Base.{
  All, Bool, List, Option, [], any_row, ap, arith, dec_lt, drop, if◌then◌else◌, leb, length,
  length-drop, ltb, negsuc, none, pos, refl, some, suc, take, true, zero, ℕ, ℤ, ◌%◌, ◌&&◌, ◌*◌, ◌+◌,
  ◌-◌, ◌<◌, ◌==◌, ◌^◌, ◌||◌, ◌∷◌, ◌≡◌, ◌≤◌, ◌⊎◌, nat_eq, text_equality,
}

abbrev pub StagedFile : Type 0
StagedFile = ℕ → ℕ

unfoldable pub byte_at : List ℕ → ℕ → ℕ
byte_at [] i = 0
byte_at (b ∷ bs) zero = b
byte_at (b ∷ bs) (suc i) = byte_at bs i

unfoldable pub write_at : ℕ → List ℕ → StagedFile → StagedFile
write_at offset bytes file i =
    if leb offset i && ltb i (offset + length bytes) then byte_at bytes (i - offset) else file i

-- The int64 that a product wraps to.
unfoldable pub to_int64 : ℕ → ℤ
to_int64 n = let m = n % 2 ^ 64 in if ltb m (2 ^ 63) then pos m else negsuc (2 ^ 64 - 1 - m)

pub data WriteError : Type 0 where
  invalid_bounds : WriteError
  out_of_range : WriteError
  write_failed : WriteError
  wrong_size : WriteError

unfoldable pub expected_size : ℕ → ℕ → ℕ → ℕ
expected_size chunk_size file_size offset =
    if ltb (file_size - offset) chunk_size then file_size - offset else chunk_size

-- The part behind the checks of the bounds. Up to one byte more than expected is copied before the
-- size is looked at; a write at a negative offset fails, unless there is nothing to write.
unfoldable pub copy_chunk : ℤ → ℕ → ℕ → List ℕ → StagedFile → StagedFile × Option WriteError
copy_chunk (negsuc n) chunk_size file_size reader file =
    (file, some (if length reader == 0 then wrong_size else write_failed))
copy_chunk (pos offset) chunk_size file_size reader file =
    let expected = expected_size chunk_size file_size offset in
    let copied = take (expected + 1) reader in
    let written = write_at offset copied file in
    if leb file_size offset
    then (file, some out_of_range)
    else if length copied == expected
    then (written, none)
    else (written, some wrong_size)

-- For an index and sizes that are not negative.
unfoldable pub write_upload_chunk : ℕ → ℕ → ℕ → List ℕ → StagedFile → StagedFile × Option WriteError
write_upload_chunk index chunk_size file_size reader file =
    if (chunk_size == 0) || (file_size == 0)
    then (file, some invalid_bounds)
    else copy_chunk (to_int64 (index * chunk_size)) chunk_size file_size reader file

-- The bytes that a client sends for a chunk of a file.
unfoldable pub chunk_of : List ℕ → ℕ → ℕ → List ℕ
chunk_of content chunk_size index = take chunk_size (drop (index * chunk_size) content)

-- The chunks of a file, sent in the given order.
unfoldable pub write_chunks : List ℕ → ℕ → List ℕ → StagedFile → StagedFile
write_chunks content chunk_size [] file = file
write_chunks content chunk_size (index ∷ order) file =
    write_chunks content chunk_size order
      (write_upload_chunk index chunk_size (length content) (chunk_of content chunk_size index)
        file).0

byte_at-take : (n i : ℕ) (xs : List ℕ) → i < n → byte_at (take n xs) i ≡ byte_at xs i
unfolding byte_at
byte_at-take zero i xs h = absurd (omega arith)
byte_at-take (suc n) i [] h = refl
byte_at-take (suc n) zero (x ∷ xs) h = refl
byte_at-take (suc n) (suc i) (x ∷ xs) h = byte_at-take n i xs (omega (arith, h))

byte_at-drop : (n i j : ℕ) (xs : List ℕ) → j ≡ n + i → byte_at (drop n xs) i ≡ byte_at xs j
unfolding byte_at
byte_at-drop zero i j xs h = ap (byte_at xs) (omega (arith, h))
byte_at-drop (suc n) i j [] h = refl
byte_at-drop (suc n) i zero (x ∷ xs) h = absurd (omega (arith, h))
byte_at-drop (suc n) i (suc j) (x ∷ xs) h = byte_at-drop n i j xs (omega (arith, h))

take_all : (n : ℕ) (xs : List ℕ) → length xs ≤ n → take n xs ≡ xs
take_all zero [] h = refl
take_all zero (x ∷ xs) h = absurd (omega (arith, h))
take_all (suc n) [] h = refl
take_all (suc n) (x ∷ xs) h = ap (λ l. x ∷ l) (take_all n xs (omega (arith, h)))

length-take :
    (n : ℕ) (xs : List ℕ) → length (take n xs) ≡ (if ltb (length xs) n then length xs else n)
length-take zero xs = ground arith
length-take (suc n) [] = ground arith
length-take (suc n) (x ∷ xs) = ground (arith, length-take n xs)

take-take : (n : ℕ) (xs : List ℕ) → take (length (take n xs) + 1) (take n xs) ≡ take n xs
take-take n xs = take_all (length (take n xs) + 1) (take n xs) (omega arith)

to_int64_small : (n : ℕ) → n < 2 ^ 63 → to_int64 n ≡ pos n
unfolding to_int64
to_int64_small n h = ground arith

copy_exact :
    (offset chunk_size file_size : ℕ) (bytes : List ℕ) (file : StagedFile)
    → offset < file_size
    → length bytes ≡ expected_size chunk_size file_size offset
    → copy_chunk (pos offset) chunk_size file_size bytes file ≡ (write_at offset bytes file, none)
unfolding copy_chunk
copy_exact offset chunk_size file_size bytes file inside h =
    let whole = take_all (expected_size chunk_size file_size offset + 1) bytes (omega (arith, h)) in
    rw (copy_chunk, whole) (ground (arith, h))

-- A chunk of the file that is sent at its index is written at its place, without an error.
pub write_upload_chunk-chunk_of :
    (content : List ℕ) (chunk_size index : ℕ) (file : StagedFile)
    → index * chunk_size < length content
    → 0 < chunk_size
    → length content < 2 ^ 63
    → write_upload_chunk index chunk_size (length content) (chunk_of content chunk_size index) file
      ≡ (write_at (index * chunk_size) (chunk_of content chunk_size index) file, none)
unfolding write_upload_chunk chunk_of expected_size
write_upload_chunk-chunk_of content chunk_size index file inside positive fits =
    let small = to_int64_small (index * chunk_size) (omega (arith, inside, fits)) in
    let exact =
      copy_exact (index * chunk_size) chunk_size (length content)
        (chunk_of content chunk_size index) file inside
        (ground (
          arith,
          length-take chunk_size (drop (index * chunk_size) content),
          length-drop (index * chunk_size) content,
        )) in
    rw (write_upload_chunk, small) (ground (arith, exact))

chunk_right :
    (content : List ℕ) (offset chunk_size i : ℕ) (file : StagedFile)
    → i < length content
    → write_at offset (take chunk_size (drop offset content)) file i
      ≡ (if leb offset i && ltb i (offset + chunk_size) then byte_at content i else file i)
unfolding write_at
chunk_right content offset chunk_size i file inside = elim (dec_lt i offset) [
  | yes before ↦ ground arith
  | no after ↦ ground (
    arith,
    length-take chunk_size (drop offset content),
    length-drop offset content,
    byte_at-take chunk_size (i - offset) (drop offset content),
    byte_at-drop offset (i - offset) i content (omega (arith, after)),
  )
]

-- The indices of the chunks of a file.
unfoldable pub in_file : List ℕ → ℕ → ℕ → Bool
in_file content chunk_size index = ltb (index * chunk_size) (length content)

-- Whatever the order in which chunks of a file arrive, and however often each of them does, a byte
-- of the staged file is the file's byte once a chunk that covers it has arrived, or if it was
-- right before. The chunk size is positive, every index is one of a chunk of the file, and the
-- file is shorter than 2^63 bytes.
pub write_chunks-content :
    (content order : List ℕ) (chunk_size i : ℕ) (file : StagedFile)
    → 0 < chunk_size
    → length content < 2 ^ 63
    → All (λ index. in_file content chunk_size index ≡ true) order
    → i < length content
    → (file i ≡ byte_at content i)
      ⊎ (any_row (λ j. leb (j * chunk_size) i && ltb i (j * chunk_size + chunk_size)) order ≡ true)
    → write_chunks content chunk_size order file i ≡ byte_at content i
unfolding write_chunks any_row in_file chunk_of
write_chunks-content content [] chunk_size i file positive fits inside h right = ground arith
write_chunks-content content (j ∷ order) chunk_size i file positive fits inside h right =
    let written =
      write_upload_chunk-chunk_of content chunk_size j file (ground (arith, inside.0)) positive
        fits in
    let byte = chunk_right content (j * chunk_size) chunk_size i file h in
    write_chunks-content content order chunk_size i _ positive fits inside.1 h
      (rw written (ground (arith, byte, right)))
