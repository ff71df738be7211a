-- ===== src/S3/Multipart.antt =====
-- internal/s3server: multipart uploads (server.go and the handlers of object.go). A handler runs
-- at once; the upload id of a new session, the MD5 sum in hexadecimal and the backend behind the
-- server are parameters.
pub mod Combine
pub mod Session
mod Tests
use dyson_fs.Base.{
  List, Option, Text, [], codes, if◌then◌else◌, length, none, parse_int, pos, some, suc, zero, ℕ, ℤ,
  ◌++◌, ◌+◌, ◌==◌, ◌||◌, ◌∷◌, nat_eq, text_equality,
}

abbrev pub Bytes : Type 0
Bytes = List ℕ

pub record UploadedPart : Type 0 where
  pub content : Bytes
  pub etag : Text

-- Go's map from part numbers to parts; a write replaces the part with the number.
abbrev pub Parts : Type 0
Parts = List (ℕ × UploadedPart)

unfoldable pub part_at : ℕ → Parts → Option UploadedPart
part_at i [] = none
part_at i ((j, p) ∷ ps) = if j == i then some p else part_at i ps

unfoldable pub store_part : ℕ → UploadedPart → Parts → Parts
store_part i p [] = (i, p) ∷ []
store_part i p ((j, q) ∷ ps) = if j == i then (i, p) ∷ ps else (j, q) ∷ store_part i p ps

pub record MultipartUpload : Type 0 where
  pub bucket : Text
  pub key : Text
  pub parts : Parts

-- The loop of `complete` from part `i`, for `n` rounds.
combine_from : ℕ → ℕ → Parts → Bytes → Bytes
combine_from zero i parts combined = combined
combine_from (suc n) i parts combined = elim (part_at i parts) [
  | none ↦ combine_from n (i + 1) parts combined
  | some p ↦ combine_from n (i + 1) parts (combined ++ p.content)
]

unfoldable pub combine : Parts → Bytes
unfolding combine_from
combine parts = combine_from (length parts) 1 parts []

pub data S3Reply : Type 0 where
  initiated : Text → S3Reply
  part_stored : Text → S3Reply
  completed : Text → S3Reply
  aborted invalid_argument no_such_upload : S3Reply
  internal_error : Text → S3Reply

abbrev pub Sessions : Type 0
Sessions = List (Text × MultipartUpload)

unfoldable pub session_at : Text → Sessions → Option MultipartUpload
session_at id [] = none
session_at id ((j, u) ∷ s) = if j == id then some u else session_at id s

unfoldable pub put_session : Text → MultipartUpload → Sessions → Sessions
put_session id u [] = (id, u) ∷ []
put_session id u ((j, v) ∷ s) = if j == id then (id, u) ∷ s else (j, v) ∷ put_session id u s

unfoldable pub drop_session : Text → Sessions → Sessions
drop_session id [] = []
drop_session id ((j, u) ∷ s) =
    let rest = drop_session id s in if j == id then rest else (j, u) ∷ rest

-- What the server asks of the backend: PutObject, with the error that it may return.
pub record PutBackend (B : Type 0) : Type 0 where
  pub put_object : Text → Text → Bytes → Text → B → B × Option Text

module _ (md5_hex : Bytes → Text) where
  quoted_sum : Bytes → Text
  quoted_sum bytes = b'"' ∷ (md5_hex bytes ++ b'"' ∷ [])

  unfoldable pub handle_initiate : Text → Text → Text → Sessions → Sessions × S3Reply
  handle_initiate id bucket key s =
      (put_session id (record { bucket = bucket; key = key; parts = [] }) s, initiated id)

  -- The part number is the text of the query parameter.
  part_number : Option ℤ → Option ℕ
  part_number (some (pos (suc n))) = some (suc n)
  part_number _ = none

  add_part : Text → ℕ → Bytes → Sessions → MultipartUpload → Sessions × S3Reply
  unfolding quoted_sum
  add_part id n body s u =
      let part : UploadedPart = record { content = body; etag = quoted_sum body } in
      (
        put_session id (record u { parts = store_part n part u.parts }) s,
        part_stored (quoted_sum body),
      )

  unfoldable pub handle_upload_part : Text → Text → Bytes → Sessions → Sessions × S3Reply
  unfolding part_number add_part
  handle_upload_part id number body s =
      if id == [] || number == []
      then (s, invalid_argument)
      else elim (part_number (parse_int number)) [
        | none ↦ (s, invalid_argument)
        | some n ↦ elim (session_at id s) [
          | none ↦ (s, no_such_upload)
          | some u ↦ add_part id n body s u
        ]
      ]

  unfoldable pub handle_abort : Text → Sessions → Sessions × S3Reply
  handle_abort id s = if id == [] then (s, invalid_argument) else (drop_session id s, aborted)

  module _ {B : Type 0} (backend : PutBackend B) where
    answer_complete : Text → B × Option Text → B × S3Reply
    unfolding quoted_sum
    answer_complete id (b, none) = (b, completed (quoted_sum id))
    answer_complete id (b, some e) = (b, internal_error e)

    unfoldable pub handle_complete : Text → Sessions × B → (Sessions × B) × S3Reply
    unfolding answer_complete
    handle_complete id (s, b) =
        if id == [] then ((s, b), invalid_argument) else elim (session_at id s) [
          | none ↦ ((s, b), no_such_upload)
          | some u ↦
              let (b', r) = answer_complete id (
                backend.put_object u.bucket u.key (combine u.parts)
                  (codes "application/octet-stream") b) in
              ((drop_session id s, b'), r)
        ]
