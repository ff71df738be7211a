-- ===== src/Worker/Migration/Kept.antt =====
-- What a migration leaves of the bytes of the source pool, however it ends.
use dyson_fs.Base.{
  Bool-cases, List, Option-cases, Text, [], ap, arith, count_rows, find_first, inl, inr, length, ok,
  refl, some, subst, suc, sym, text_discrete, update_rows, zero, ℕ, ◌&&◌, ◌<◌, ◌==◌, ◌||◌, ◌∙◌, ◌∷◌,
  ◌≡◌, ◌≢◌, ◌≤◌, nat_eq, text_equality,
}
use dyson_fs.Worker.Migration.{
  Backends, MigrationPool, MigrationFile, backend_from_pool_storage, same_config, key_of, in_pool,
  has_key, World, set_pool, finish_move, copy_and_move, move_file_to_pool, MigrationParameters,
  is_left, move_files, content_type_of, find_pool, run_pool_migration,
}
use dyson_fs.Worker.Migration.Ends.{in_pool-to_pool, find_pool-named}

-- How many files of a pool have a storage key.
abbrev pub names : Text → Text → List MigrationFile → ℕ
names pool key files = count_rows (λ g. in_pool pool g && has_key key g) files

names-set_pool :
    (pool other id key : Text) (l : List MigrationFile)
    → pool ≢ other
    → names pool key (set_pool id other l) ≤ names pool key l
unfolding count_rows set_pool update_rows
names-set_pool pool other id key [] differ = omega arith
names-set_pool pool other id key (f ∷ l) differ =
    ground (arith, in_pool-to_pool pool other f, differ, names-set_pool pool other id key l differ)

module _ {S B : Type 0} (b : Backends S B) (source target : MigrationPool) (from to : B)
    (from_ok : backend_from_pool_storage b source.storage_config ≡ ok from)
    (to_ok : backend_from_pool_storage b target.storage_config ≡ ok to)
    (differ : source.migration_pool_id ≢ target.migration_pool_id)
    (put_apart : (k key : Text) (content : List ℕ) (content_type : Text) (s : S)
      → b.get from k (b.put to key content content_type s).0 ≡ b.get from k s)
    (remove_other : (k key : Text) (s : S)
      → key ≢ k
      → b.get from k (b.remove from key s).0 ≡ b.get from k s)
    (k : Text) where
  -- From one world to another: the key has no new files in the source pool, and while it has one,
  -- its bytes stay.
  record Keeps (w after : World S) : Type 0 where
    pub fewer :
        names source.migration_pool_id k after.files ≤ names source.migration_pool_id k w.files
    pub bytes :
        0 < names source.migration_pool_id k after.files
        → b.get from k after.store ≡ b.get from k w.store

  Keeps-refl : (w : World S) → Keeps w w
  Keeps-refl w = record { fewer = omega arith; bytes = λ h. refl }

  Keeps-trans : (u v w : World S) → Keeps u v → Keeps v w → Keeps u w
  Keeps-trans u v w first second = record {
    fewer = omega (arith, first.fewer, second.fewer);
    bytes = λ h. second.bytes h ∙ first.bytes (omega (arith, h, second.fewer));
  }

  finish_move-Keeps :
      (key : Text) (f : MigrationFile) (w : World S)
      → Keeps w (finish_move b key f source target from w).0
  unfolding finish_move
  finish_move-Keeps key f w =
      let fewer =
        names-set_pool source.migration_pool_id target.migration_pool_id f.file_id k w.files
          differ in
      let there =
        names source.migration_pool_id key (set_pool f.file_id target.migration_pool_id w.files) in
      elim (Bool-cases (there == 0)) [
        | inr used ↦ rw used (record { fewer = fewer; bytes = λ h. refl })
        | inl unused ↦ rw unused (record {
          fewer = fewer;
          bytes = λ h. elim (text_discrete key k) [
            | yes same ↦
                let here =
                  ap
                    (λ x.
                      names source.migration_pool_id x
                        (set_pool f.file_id target.migration_pool_id w.files))
                    same in
                absurd (ground (arith, h, here, unused))
            | no other ↦ remove_other k key w.store other
          ];
        })
      ]

  copy_and_move-Keeps :
      (f : MigrationFile) (w : World S) → Keeps w (copy_and_move b f source target from to w).0
  unfolding copy_and_move
  copy_and_move-Keeps f w = elim (Option-cases (b.get from (key_of f) w.store)) [
    | inl gone ↦ rw (copy_and_move, gone) (Keeps-refl w)
    | inr ((content, stored), read) ↦
        let written = b.put to (key_of f) content (content_type_of f stored) w.store in
        let copied : World S = record { files = w.files; store = written.0 } in
        let first : Keeps w copied = record {
          fewer = omega arith;
          bytes = λ h. put_apart k (key_of f) content (content_type_of f stored) w.store;
        } in
        elim (Bool-cases written.1) [
          | inr bad ↦ rw (copy_and_move, read) (rw bad first)
          | inl good ↦
              rw (copy_and_move, read)
                (rw good (Keeps-trans w copied _ first (finish_move-Keeps (key_of f) f copied)))
        ]
  ]

  move_file_to_pool-Keeps :
      (f : MigrationFile) (w : World S) → Keeps w (move_file_to_pool b f source target w).0
  unfolding move_file_to_pool
  move_file_to_pool-Keeps f w =
      elim (Bool-cases
        ((key_of f == []) || same_config source.storage_config target.storage_config)) [
          | inl quick ↦
              rw (move_file_to_pool, quick)
                (record {
                  fewer =
                      names-set_pool source.migration_pool_id target.migration_pool_id f.file_id k
                        w.files differ;
                  bytes = λ h. refl;
                })
          | inr slow ↦ rw (move_file_to_pool, slow, from_ok, to_ok) (copy_and_move-Keeps f w)
        ]

  move_files-Keeps :
      (fuel : ℕ) (p : MigrationParameters) (w : World S)
      → Keeps w (move_files b fuel p source target w).0
  unfolding move_files
  move_files-Keeps zero p w = Keeps-refl w
  move_files-Keeps (suc fuel) p w = elim (Option-cases (find_first (is_left p) w.files)) [
    | inl none_left ↦ rw (none_left, move_files) (Keeps-refl w)
    | inr (f, next) ↦
        let moved = move_file_to_pool b f source target w in
        let first = move_file_to_pool-Keeps f w in
        elim (Option-cases moved.1) [
          | inr (e, bad) ↦ rw (next, move_files) (rw bad first)
          | inl fine ↦
              rw (next, move_files)
                (rw fine (Keeps-trans w moved.0 _ first (move_files-Keeps fuel p moved.0)))
        ]
  ]

-- However a migration ends, and whatever fails on the way, it deletes no bytes that a file left in the
-- source pool still names: what the source storage gives for such a file's storage key is what it
-- gave before. The two pools store apart, so a writing to the target, finished or not, shows no
-- change in the source, and a deletion in the source takes only its own key away.
pub run_pool_migration-Keeps :
    {S B : Type 0} (b : Backends S B) (pools : List MigrationPool) (p : MigrationParameters)
    (w : World S) (source target : MigrationPool) (from to : B) (key : Text)
    → find_pool pools p.source_pool_id ≡ some source
    → find_pool pools p.target_pool_id ≡ some target
    → backend_from_pool_storage b source.storage_config ≡ ok from
    → backend_from_pool_storage b target.storage_config ≡ ok to
    → ((k other : Text) (content : List ℕ) (content_type : Text) (s : S)
        → b.get from k (b.put to other content content_type s).0 ≡ b.get from k s)
    → ((k other : Text) (s : S)
        → other ≢ k
        → b.get from k (b.remove from other s).0 ≡ b.get from k s)
    → 0 < names p.source_pool_id key (run_pool_migration b pools p w).0.files
    → b.get from key (run_pool_migration b pools p w).0.store ≡ b.get from key w.store
unfolding run_pool_migration
run_pool_migration-Keeps b pools p w source target from to key at_source at_target from_ok to_ok
      put_apart remove_other =
    let sources = find_pool-named pools p.source_pool_id source at_source in
    let targets = find_pool-named pools p.target_pool_id target at_target in
    elim (Bool-cases (
      (p.source_pool_id == [])
      || (p.target_pool_id == [])
      || (p.source_pool_id == p.target_pool_id))) [
        | inl bad ↦ rw (run_pool_migration, bad) (λ h. refl)
        | inr fine ↦
            let differ : source.migration_pool_id ≢ target.migration_pool_id =
              λ e. ground (arith, fine, sources, targets, e) in
            let kept =
              move_files-Keeps b source target from to from_ok to_ok differ put_apart remove_other
                key (suc (length w.files)) p w in
            rw (run_pool_migration, fine, at_source, at_target)
              (λ h. kept.bytes (
                subst
                  (λ pool.
                    0
                    < names pool key
                        (move_files b (suc (length w.files)) p source target w).0.files)
                  (sym sources) h))
      ]
