-- ===== src/S3/Multipart/Session.antt =====
-- A whole multipart upload through the handlers: initiate, upload the parts, complete.
use dyson_fs.Base.{
  All, Bool-cases, List, Option, Text, [], arith, codes, false, if◌then◌else◌, inl, inr, is_some,
  map, none, parse_int, parse_int-nil, pos, refl, some, suc, ℕ, ◌==◌, ◌∷◌, ◌≡◌, ◌≢◌, nat_eq,
  text_equality,
}
use dyson_fs.S3.Multipart.{
  UploadedPart, Bytes, store_part, MultipartUpload, Sessions, session_at, put_session, drop_session,
  PutBackend, handle_initiate, handle_upload_part, handle_complete, quoted_sum, answer_complete,
}
use dyson_fs.S3.Multipart.Combine.{store_all, latest, assemble, in_range, combine-store_all}

session_at-put_session :
    (id other : Text) (u : MultipartUpload) (s : Sessions)
    → session_at other (put_session id u s) ≡ (if id == other then some u else session_at other s)
unfolding session_at put_session
session_at-put_session id other u [] = refl
session_at-put_session id other u ((j, v) ∷ s) = ground (arith, session_at-put_session id other u s)

session_at-drop_session :
    (id other : Text) (s : Sessions)
    → session_at other (drop_session id s) ≡ (if id == other then none else session_at other s)
unfolding session_at drop_session
session_at-drop_session id other [] = ground arith
session_at-drop_session id other ((j, v) ∷ s) = ground (arith, session_at-drop_session id other s)

-- The requests that upload parts: the text of the part number, the number less one, and the body.
pub record PartRequest : Type 0 where
  pub number : Text
  pub index : ℕ
  pub body : Bytes

abbrev pub Reads : PartRequest → Type 0
Reads r = (parse_int r.number ≡ some (pos (suc r.index)))

module _ (md5_hex : Bytes → Text) where
  unfoldable pub part_of : PartRequest → ℕ × UploadedPart
  unfolding quoted_sum
  part_of r = (suc r.index, record { content = r.body; etag = quoted_sum md5_hex r.body })

  unfoldable pub upload_all : Text → List PartRequest → Sessions → Sessions
  upload_all id [] s = s
  upload_all id (r ∷ rs) s = upload_all id rs (handle_upload_part md5_hex id r.number r.body s).0

  upload_one :
      (id : Text) (r : PartRequest) (s : Sessions) (u : MultipartUpload)
      → id ≢ []
      → Reads r
      → session_at id s ≡ some u
      → session_at id (handle_upload_part md5_hex id r.number r.body s).0
        ≡ some (record u { parts = store_part (part_of r).0 (part_of r).1 u.parts })
  unfolding handle_upload_part part_of
  upload_one id r s u named reads there =
      let part : UploadedPart = record { content = r.body; etag = quoted_sum md5_hex r.body } in
      elim (Bool-cases (r.number == [])) [
        | inl blank ↦ absurd (ground (arith, reads, parse_int-nil))
        | inr filled ↦ ground (
          arith,
          reads,
          there,
          session_at-put_session id id (record u { parts = store_part (suc r.index) part u.parts })
              s,
        )
      ]

  upload_all-session :
      (id : Text) (rs : List PartRequest) (s : Sessions) (u : MultipartUpload)
      → id ≢ []
      → All Reads rs
      → session_at id s ≡ some u
      → session_at id (upload_all id rs s)
        ≡ some (record u { parts = store_all (map part_of rs) u.parts })
  unfolding upload_all store_all
  upload_all-session id [] s u named reads there = there
  upload_all-session id (r ∷ rs) s u named reads there =
      upload_all-session id rs _ _ named reads.1 (upload_one id r s u named reads.0 there)

  module _ {B : Type 0} (backend : PutBackend B) where
    answer-backend :
        (id : Text) (p : B × Option Text) → (answer_complete md5_hex backend id p).0 ≡ p.0
    unfolding answer_complete
    answer-backend id (b, none) = refl
    answer-backend id (b, some e) = refl

    -- After initiating an upload and uploading parts whose numbers are exactly 1 to n, completing
    -- puts the parts in the order of their numbers, each as it was sent last, under the bucket and
    -- the key of the initiation, and the session is gone, whether the backend succeeds or not.
    pub handle_complete-upload_all :
        (id bucket key : Text) (rs : List PartRequest) (n : ℕ) (s : Sessions) (b : B)
        → id ≢ []
        → All Reads rs
        → ((i : ℕ) → is_some (latest i (map part_of rs)) ≡ in_range n i)
        → let start = (handle_initiate md5_hex id bucket key s).0 in
          let done = handle_complete md5_hex backend id (upload_all id rs start, b) in
          (done.0.1
            ≡ (backend.put_object bucket key
                (assemble n (map part_of rs))
                (codes "application/octet-stream")
                b).0)
          × (session_at id done.0.0 ≡ none)
    unfolding handle_complete handle_initiate
    handle_complete-upload_all id bucket key rs n s b named reads exact =
        let empty : MultipartUpload = record { bucket = bucket; key = key; parts = [] } in
        let start = put_session id empty s in
        let opened : session_at id start ≡ some empty =
          ground (arith, session_at-put_session id id empty s) in
        let there = upload_all-session id rs start empty named reads opened in
        let whole = combine-store_all (map part_of rs) n exact in
        let gone = session_at-drop_session id id (upload_all id rs start) in
        let blank : (id == []) ≡ false = ground arith in
        rw (blank, there, whole, answer-backend) (refl, ground (arith, gone))
