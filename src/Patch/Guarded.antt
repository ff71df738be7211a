-- ===== src/Patch/Guarded.antt =====
-- What a patch may change, and when.
use dyson_fs.Base.{
  List, Option, Result, Text, codes, count_rows, err, false, length, not, ok, some, true, ℕ, ◌&&◌,
  ◌==◌, ◌≡◌, ◌⊎◌, nat_eq, text_equality,
}
use dyson_fs.Worker.Migration.{Backends, trimmed}
use dyson_fs.Patch.{PatchError, PatchFile, PatchWorld, locate, upload_failed}

module _ {S B : Type 0} (b : Backends S B) (patch : List ℕ → List ℕ → Option (List ℕ)) (now : ℕ)
    (id : Text) (patch_data : List ℕ) where
  -- The answer where the backend is reached: it has read the original, made the new content and
  -- written it under the same key; the object's row has the new size and waits for its hash.
  pub record IsPatched (f : PatchFile) (w : PatchWorld S B)
      (answer : PatchWorld S B × Result PatchError PatchFile) : Type 0 where
    pub backend : B
    pub at_key : Text
    pub original : List ℕ
    pub patched : List ℕ
    pub original_type : Text
    pub located : locate b f w ≡ ok (backend, at_key)
    pub read : b.get backend at_key w.store ≡ some (original, original_type)
    pub made : patch original patch_data ≡ some patched
    pub stored :
        answer.0.store ≡ (b.put backend at_key patched (codes "application/octet-stream") w.store).0
    pub files_stay : answer.0.files ≡ w.files
    pub outcome :
        ((answer.1 ≡ ok f)
          × ((b.put backend at_key patched (codes "application/octet-stream") w.store).1 ≡ true)
          × (count_rows
                (λ o.
                  (o.object_id == trimmed f.file_object)
                  && not ((o.size == length patched) && o.needs_rehash))
                answer.0.objects
              ≡ 0))
        ⊎ ((answer.1 ≡ err upload_failed)
            × ((b.put backend at_key patched (codes "application/octet-stream") w.store).1 ≡ false)
            × (answer.0.objects ≡ w.objects))

  -- An answer is an error that leaves everything as it was, or the patched content is written.
  abbrev pub IsGuarded :
      PatchFile → PatchWorld S B → PatchWorld S B × Result PatchError PatchFile → Type 0
  IsGuarded f w answer = ((e : PatchError) × (answer ≡ (w, err e))) ⊎ IsPatched f w answer
