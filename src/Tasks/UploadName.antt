-- ===== src/Tasks/UploadName.antt =====
-- internal/service/upload_name.go: the name of an upload that comes without one.
use dyson_fs.Base.{
  Bool, List, Option-cases, Text, [], codes, has_prefix, has_prefix-append, if_both, if◌then◌else◌,
  inl, inr, is_some, none, not, refl, row_at, some, split_two, text_discrete, to_lower, trim_space,
  true, ℕ_discrete, ◌++◌, ◌==◌, ◌∷◌, ◌≡◌, nat_eq, text_equality,
}

unfoldable pub content_type_extensions : List (Text × Text)
content_type_extensions =
    (codes "image/jpeg", codes "jpg")
    ∷ (codes "image/png", codes "png")
    ∷ (codes "image/gif", codes "gif")
    ∷ (codes "image/webp", codes "webp")
    ∷ (codes "image/heic", codes "heic")
    ∷ (codes "image/heif", codes "heif")
    ∷ (codes "image/avif", codes "avif")
    ∷ (codes "image/svg+xml", codes "svg")
    ∷ (codes "video/mp4", codes "mp4")
    ∷ (codes "video/quicktime", codes "mov")
    ∷ (codes "video/webm", codes "webm")
    ∷ (codes "audio/mpeg", codes "mp3")
    ∷ (codes "audio/mp4", codes "m4a")
    ∷ (codes "audio/x-m4a", codes "m4a")
    ∷ (codes "audio/wav", codes "wav")
    ∷ (codes "audio/x-wav", codes "wav")
    ∷ (codes "audio/ogg", codes "ogg")
    ∷ (codes "application/ogg", codes "ogg")
    ∷ (codes "audio/flac", codes "flac")
    ∷ (codes "audio/x-flac", codes "flac")
    ∷ (codes "application/pdf", codes "pdf")
    ∷ (codes "application/json", codes "json")
    ∷ (codes "application/zip", codes "zip")
    ∷ (codes "application/gzip", codes "gz")
    ∷ (codes "application/x-tar", codes "tar")
    ∷ (codes "application/x-7z-compressed", codes "7z")
    ∷ (codes "application/x-rar-compressed", codes "rar")
    ∷ (codes "application/epub+zip", codes "epub")
    ∷ (codes "text/plain", codes "txt")
    ∷ (codes "text/html", codes "html")
    ∷ (codes "text/markdown", codes "md")
    ∷ []

unfoldable pub default_upload_file_name : Text → Text
default_upload_file_name content_type =
    let normalized = to_lower (trim_space (split_two b';' content_type).0) in
    let (family, kind) = split_two b'/' normalized in
    elim (row_at normalized content_type_extensions) [
      | some ext ↦ codes "upload." ++ ext
      | none ↦
          if not (is_some kind)
          then codes "upload.bin"
          else if family == codes "image"
          then codes "upload.img"
          else if family == codes "video"
          then codes "upload.video"
          else if family == codes "audio"
          then codes "upload.audio"
          else if family == codes "text"
          then codes "upload.txt"
          else codes "upload.bin"
    ]

-- A name that starts with the stem of all fallback names.
is_upload : Text → Bool
is_upload name = has_prefix name (codes "upload.")

family_name : Text → Text
family_name family =
    if family == codes "image"
    then codes "upload.img"
    else if family == codes "video"
    then codes "upload.video"
    else if family == codes "audio"
    then codes "upload.audio"
    else if family == codes "text"
    then codes "upload.txt"
    else codes "upload.bin"

is_upload-family_name : (family : Text) → is_upload (family_name family) ≡ true
unfolding is_upload family_name has_prefix ℕ_discrete
is_upload-family_name family =
    let P = λ (t : Text). is_upload t ≡ true in
    if_both P (family == codes "image") _ _ refl (
      if_both P (family == codes "video") _ _ refl (
        if_both P (family == codes "audio") _ _ refl
          (if_both P (family == codes "text") _ _ refl refl)))

-- Every upload gets a name, a stem with an extension, whatever its content type is.
pub default_upload_file_name-prefix :
    (content_type : Text)
    → has_prefix (default_upload_file_name content_type) (codes "upload.") ≡ true
unfolding default_upload_file_name has_prefix ℕ_discrete is_upload family_name
default_upload_file_name-prefix content_type =
    let normalized = to_lower (trim_space (split_two b';' content_type).0) in
    elim (Option-cases (row_at normalized content_type_extensions)) [
      | inl unknown ↦
          rw (unknown, default_upload_file_name)
            (if_both (λ (t : Text). has_prefix t (codes "upload.") ≡ true)
              (not (is_some (split_two b'/' normalized).1)) _ _ refl
              (is_upload-family_name (split_two b'/' normalized).0))
      | inr (ext, known) ↦
          rw (known, default_upload_file_name) (has_prefix-append (codes "upload.") ext)
    ]

-- A type with parameters, in upper case, and one of an unknown kind.
jpeg_name : default_upload_file_name (codes "Image/JPEG; q=1") ≡ codes "upload.jpg"
unfolding default_upload_file_name content_type_extensions row_at to_lower trim_space split_two
    text_discrete ℕ_discrete
jpeg_name = refl

image_name : default_upload_file_name (codes "image/tiff") ≡ codes "upload.img"
unfolding default_upload_file_name content_type_extensions row_at to_lower trim_space split_two
    text_discrete ℕ_discrete
image_name = refl
