-- ===== src/S3/Multipart/Tests.antt =====
-- Multipart uploads at concrete inputs.
use Prim.Native.String.{String}
use dyson_fs.Base.{
  List, Text, [], arith, codes, is_some, map, none, parse_int, refl, text_discrete, ℕ, ℕ_discrete,
  ◌∷◌, ◌≡◌,
}
use dyson_fs.S3.Multipart.{
  UploadedPart, Bytes, part_at, store_part, combine, Sessions, session_at, PutBackend,
  handle_initiate, handle_complete,
}
use dyson_fs.S3.Multipart.Combine.{Uploads, store_all, latest, assemble, in_range, combine-gap}
use dyson_fs.S3.Multipart.Session.{PartRequest, part_of, upload_all, handle_complete-upload_all}

abbrev part : String → UploadedPart
part body = record { content = codes body; etag = [] }

program : Unit {0}
unfolding combine store_part part_at latest store_all assemble ℕ_discrete parse_int text_discrete
    upload_all
program = tt

-- Part 2 arrives first, and part 1 is sent twice.
abbrev arrivals : Uploads
arrivals = (2, part "cd") ∷ (1, part "xx") ∷ (1, part "ab") ∷ []

latest-arrivals : (i : ℕ) → is_some (latest i arrivals) ≡ in_range 2 i
unfolding latest
latest-arrivals i = ground arith

assembled : assemble 2 arrivals ≡ codes "abcd"
unfolding program
assembled = refl

-- Of the parts 1 and 3 only the first reaches the object.
gap_lost : combine ((1, part "ab") ∷ (3, part "ef") ∷ []) ≡ codes "ab"
unfolding program
gap_lost = refl

combine-gap_example :
    combine (store_part 3 (part "ef") ((1, part "ab") ∷ []))
    ≡ combine (store_part 3 (part "") ((1, part "ab") ∷ []))
unfolding program
combine-gap_example = combine-gap 3 (part "ef") (part "") ((1, part "ab") ∷ []) (omega arith)

abbrev sent : List PartRequest
sent =
    record { number = codes "2"; index = 1; body = codes "cd" }
    ∷ record { number = codes "1"; index = 0; body = codes "ab" }
    ∷ []

-- A backend that keeps the last object that was put.
abbrev keeper : PutBackend (Text × Text × Bytes)
keeper = record { put_object = λ bucket key body mime b. ((bucket, key, body), none) }

latest-sent : (i : ℕ) → is_some (latest i (map (part_of (λ b. b)) sent)) ≡ in_range 2 i
unfolding latest part_of
latest-sent i = ground arith

abbrev session : Sessions
session =
    upload_all (λ b. b) (codes "u") sent
      (handle_initiate (λ b. b) (codes "u") (codes "pool") (codes "k") []).0

handle_complete-upload_all_example :
    ((handle_complete (λ b. b) keeper (codes "u") (session, ([], [], []))).0.1
      ≡ (codes "pool", codes "k", assemble 2 (map (part_of (λ b. b)) sent)))
    × (session_at
          (codes "u")
          (handle_complete (λ b. b) keeper (codes "u") (session, ([], [], []))).0.0
        ≡ none)
unfolding parse_int
handle_complete-upload_all_example =
    handle_complete-upload_all (λ b. b) keeper (codes "u") (codes "pool") (codes "k") sent 2 []
      ([], [], []) (ground arith) (refl, (refl, tt)) latest-sent
