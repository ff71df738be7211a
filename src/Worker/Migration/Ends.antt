-- ===== src/Worker/Migration/Ends.antt =====
-- What a migration returns.
use dyson_fs.Base.{
  Bool-cases, List, Option-cases, Result, Result-cases, Text, [], ap, arith, count_rows,
  count_rows-le-length, err, false, find_first, find_first_sound, inl, inr, length, none, ok, refl,
  some, subst, suc, sym, update_rows, zero, ℕ, ◌<◌, ◌==◌, ◌||◌, ◌∷◌, ◌≡◌, ◌≢◌, ◌≤◌, nat_eq,
  text_equality,
}
use dyson_fs.Worker.Migration.{
  Backends, MigrationPool, MigrationFile, MigrationError, backend_from_pool_storage, in_pool, World,
  to_pool, set_pool, finish_move, copy_and_move, move_file_to_pool, is_file, content_type_of,
  MigrationParameters, is_left, move_files, find_pool, run_pool_migration, invalid_parameters,
  pool_not_found, key_of,
}

pub in_pool-to_pool :
    (pool other : Text) (f : MigrationFile) → in_pool pool (to_pool other f) ≡ (other == pool)
unfolding in_pool to_pool
in_pool-to_pool pool other f = refl

left_moved :
    (p : MigrationParameters) (pool : Text) (f : MigrationFile)
    → p.source_pool_id ≢ pool
    → is_left p (to_pool pool f) ≡ false
unfolding is_left
left_moved p pool f differ = ground (arith, differ, in_pool-to_pool p.source_pool_id pool f)

few_left :
    (p : MigrationParameters) (id pool : Text) (l : List MigrationFile)
    → p.source_pool_id ≢ pool
    → count_rows (is_left p) (set_pool id pool l) ≤ count_rows (is_left p) l
unfolding count_rows set_pool update_rows
few_left p id pool [] differ = omega arith
few_left p id pool (f ∷ l) differ =
    ground (arith, left_moved p pool f differ, few_left p id pool l differ)

pub fewer_left :
    (p : MigrationParameters) (pool : Text) (l : List MigrationFile) (m : MigrationFile)
    → p.source_pool_id ≢ pool
    → find_first (is_left p) l ≡ some m
    → count_rows (is_left p) (set_pool m.file_id pool l) < count_rows (is_left p) l
unfolding count_rows set_pool update_rows find_first is_file
fewer_left p pool [] m differ h = cc
fewer_left p pool (f ∷ l) m differ h = elim (Bool-cases (is_left p f)) [
  | inl here ↦
      let same : f ≡ m = ground (arith, h, here) in
      let ids = ap (λ (x : MigrationFile). x.file_id) same in
      ground (arith, here, ids, left_moved p pool f differ, few_left p m.file_id pool l differ)
  | inr not_here ↦
      ground (arith, h, not_here, left_moved p pool f differ, fewer_left p pool l m differ)
]

pub find_pool-named :
    (pools : List MigrationPool) (id : Text) (q : MigrationPool)
    → find_pool pools id ≡ some q
    → q.migration_pool_id ≡ id
unfolding find_pool
find_pool-named pools id q h =
    let hit = find_first_sound (λ x. x.migration_pool_id == id) pools h in ground (arith, hit)

-- The files that are left are at most all files.
rounds :
    (p : MigrationParameters) (l : List MigrationFile) → count_rows (is_left p) l < suc (length l)
rounds p l = omega (arith, count_rows-le-length (is_left p) l)

module _ {S B : Type 0} (b : Backends S B) where
  -- Every move that does not fail writes the pool of the file.
  moved_row :
      (key : Text) (f : MigrationFile) (source target : MigrationPool) (from : B) (w : World S)
      → (finish_move b key f source target from w).0.files
        ≡ set_pool f.file_id target.migration_pool_id w.files
  unfolding finish_move
  moved_row key f source target from w = ground arith

  moved_copy :
      (f : MigrationFile) (source target : MigrationPool) (from to : B) (w : World S)
      → (copy_and_move b f source target from to w).1 ≡ none
      → (copy_and_move b f source target from to w).0.files
        ≡ set_pool f.file_id target.migration_pool_id w.files
  unfolding copy_and_move
  moved_copy f source target from to w h = elim (Option-cases (b.get from (key_of f) w.store)) [
    | inl gone ↦ absurd (ground (arith, h, gone))
    | inr ((content, stored), read) ↦
        let written = b.put to (key_of f) content (content_type_of f stored) w.store in
        let row =
          moved_row (key_of f) f source target from
            (record { files = w.files; store = written.0 }) in
        elim (Bool-cases written.1) [
          | inl good ↦ rw (copy_and_move, read) (rw good row)
          | inr bad ↦ absurd (ground (arith, h, read, bad))
        ]
  ]

  moved_files :
      (f : MigrationFile) (source target : MigrationPool) (w : World S)
      → (move_file_to_pool b f source target w).1 ≡ none
      → (move_file_to_pool b f source target w).0.files
        ≡ set_pool f.file_id target.migration_pool_id w.files
  unfolding move_file_to_pool
  moved_files f source target w h =
      elim (Result-cases (backend_from_pool_storage b source.storage_config)) [
        | inl (e, bad) ↦ ground (arith, h, bad)
        | inr (from, good) ↦
            elim (Result-cases (backend_from_pool_storage b target.storage_config)) [
              | inl (e, bad) ↦ ground (arith, h, good, bad)
              | inr (to, fine) ↦ ground (arith, h, good, fine, moved_copy f source target from to w)
            ]
      ]

  move_files-returns :
      (fuel : ℕ) (p : MigrationParameters) (source target : MigrationPool) (w : World S)
      → p.source_pool_id ≢ target.migration_pool_id
      → count_rows (is_left p) w.files < fuel
      → (r : Result MigrationError ℕ) × ((move_files b fuel p source target w).1 ≡ some r)
  unfolding move_files
  move_files-returns zero p source target w differ h = absurd (omega (arith, h))
  move_files-returns (suc fuel) p source target w differ h =
      elim (Option-cases (find_first (is_left p) w.files)) [
        | inl none_left ↦ (ok 0, rw (none_left, move_files) refl)
        | inr (m, next) ↦ elim (Option-cases (move_file_to_pool b m source target w).1) [
          | inr (e, bad) ↦ (err e, rw (next, move_files) (rw bad refl))
          | inl fine ↦
              let moved = (move_file_to_pool b m source target w).0 in
              let fewer =
                subst (λ l. count_rows (is_left p) l < count_rows (is_left p) w.files)
                  (sym (moved_files m source target w fine))
                  (fewer_left p target.migration_pool_id w.files m differ next) in
              let (r, rest) =
                move_files-returns fuel p source target moved differ (omega (arith, h, fewer)) in
              elim (Result-cases r) [
                | inl (e, same) ↦ (err e, rw (next, move_files) (rw fine (rw (rest, same) refl)))
                | inr (n, same) ↦
                    (ok (suc n), rw (next, move_files) (rw fine (rw (rest, same) refl)))
              ]
        ]
      ]

-- Every migration comes to an end, completed or with an error, whatever the pools and files are and
-- whatever the object stores answer: the source pool has fewer files left after each one.
pub run_pool_migration-returns :
    {S B : Type 0} (b : Backends S B) (pools : List MigrationPool) (p : MigrationParameters)
    (w : World S)
    → (r : Result MigrationError ℕ) × ((run_pool_migration b pools p w).1 ≡ some r)
unfolding run_pool_migration
run_pool_migration-returns b pools p w =
    elim (Bool-cases (
      (p.source_pool_id == [])
      || (p.target_pool_id == [])
      || (p.source_pool_id == p.target_pool_id))) [
        | inl bad ↦ (err invalid_parameters, ground (arith, bad))
        | inr fine ↦ elim (Option-cases (find_pool pools p.source_pool_id)) [
          | inl no_source ↦ (err (pool_not_found p.source_pool_id), ground (arith, fine, no_source))
          | inr (source, at_source) ↦ elim (Option-cases (find_pool pools p.target_pool_id)) [
            | inl no_target ↦
                (err (pool_not_found p.target_pool_id), ground (arith, fine, at_source, no_target))
            | inr (target, at_target) ↦
                let differ : p.source_pool_id ≢ target.migration_pool_id = λ e.
                  ground
                    (arith, fine, e, find_pool-named pools p.target_pool_id target at_target) in
                let (r, run) =
                  move_files-returns b (suc (length w.files)) p source target w differ
                    (rounds p w.files) in
                (r, ground (arith, fine, at_source, at_target, run))
          ]
        ]
      ]
