-- ===== src/Worker/Rehash/Done.antt =====
-- What leaves the queue.
use dyson_fs.Base.{
  Bool, Bool-cases, List, Text, [], any_row, arith, count_rows, find_first, inl, inr, refl, some,
  true, update_rows, ℕ, ◌&&◌, ◌==◌, ◌∷◌, ◌≡◌, nat_eq, text_equality,
}
use dyson_fs.Worker.Uploads.{UploadFile, Sources, Derivatives}
use dyson_fs.Worker.Rehash.{
  RehashTables, RehashObject, Inspect, key_of_object, backs, rehashed, rehash_object,
}

unfoldable pub has_file : List UploadFile → RehashObject → Bool
has_file files o = any_row (backs o) files

some_file :
    (o : RehashObject) (files : List UploadFile)
    → any_row (backs o) files ≡ true
    → (f : UploadFile) × (find_first (backs o) files ≡ some f)
unfolding any_row find_first
some_file o [] h = absurd (ground (arith, h))
some_file o (f ∷ files) h = elim (Bool-cases (backs o f)) [
  | inl here ↦ (f, ground (arith, here))
  | inr not_here ↦
      let (g, found) = some_file o files (ground (arith, h, not_here)) in
      (g, ground (arith, not_here, found))
]

still_flagged :
    (id hash mime : Text) (now : ℕ) (l : List RehashObject)
    → count_rows
        (λ o. (o.rehash_id == id) && o.needs_rehash)
        (update_rows (λ x. x.rehash_id == id) (rehashed now hash mime) l)
      ≡ 0
unfolding count_rows update_rows rehashed
still_flagged id hash mime now [] = refl
still_flagged id hash mime now (o ∷ l) = ground (arith, still_flagged id hash mime now l)

module _ (sources : Sources) (derivatives : Derivatives) (inspect : Inspect) where
  -- An object that a live file refers to and whose bytes are read leaves the queue, whether its
  -- derivatives are made or not.
  pub rehash_object-done :
      (now : ℕ) (o : RehashObject) (db : RehashTables) (hash mime path : Text)
      → has_file db.uploads.files o ≡ true
      → inspect (key_of_object o) ≡ some (hash, mime, path)
      → count_rows
          (λ x. (x.rehash_id == o.rehash_id) && x.needs_rehash)
          (rehash_object sources derivatives inspect now o db).0.objects
        ≡ 0
  unfolding rehash_object has_file
  rehash_object-done now o db hash mime path there read =
      let (f, found) = some_file o db.uploads.files there in
      rw (found, rehash_object) (rw read (still_flagged o.rehash_id hash mime now db.objects))
