-- ===== src/Worker/Reanalysis/Drain.antt =====
-- The queue drains: no object stays in it for ever, whatever the tools do.
use dyson_fs.Base.{List, Text, [], arith, count_rows, ltb, refl, ℕ, ◌∙◌, ◌∷◌, ◌≡◌, ◌≤◌}
use dyson_fs.Worker.Reanalysis.{
  QueueObject, QueueTables, Tools, is_object, reanalyze_next, reanalyze_each,
}
use dyson_fs.Worker.Reanalysis.Rows.{all_tries}
use dyson_fs.Worker.Reanalysis.Queue.{stale, Distinct}
use dyson_fs.Worker.Reanalysis.Round.{round_tries, round_ids, round_late, round_ahead}

-- The rows written after an instant.
abbrev pub later : ℕ → List QueueObject → ℕ
later now = count_rows (λ o. ltb now o.updated_at)

module _ (tools : Tools) (now : ℕ) where
  -- Later rounds find their objects as they were read: a round changes only the rows of its id.
  pub stale-round :
      (read : QueueObject) (queue : List QueueObject) (db : QueueTables)
      → count_rows (is_object read.object_id) queue ≡ 0
      → count_rows (stale db.objects) queue ≡ 0
      → count_rows (stale (reanalyze_next tools now read db).objects) queue ≡ 0
  unfolding count_rows stale is_object
  stale-round read [] db alone h = refl
  stale-round read (o ∷ queue) db alone h =
      ground (arith, alone, h, stale-round read queue db, round_ahead tools now read db o)

  pub each_ids :
      (queue : List QueueObject) (db : QueueTables) (id : Text)
      → count_rows (is_object id) (reanalyze_each tools now queue db).objects
        ≡ count_rows (is_object id) db.objects
  unfolding reanalyze_each is_object
  each_ids [] db id = refl
  each_ids (read ∷ queue) db id =
      each_ids queue (reanalyze_next tools now read db) id
      ∙ round_ids tools now read db (is_object id) (λ o b n t. refl)

  pub each_later :
      (queue : List QueueObject) (db : QueueTables)
      → later now db.objects ≡ 0
      → later now (reanalyze_each tools now queue db).objects ≡ 0
  unfolding reanalyze_each
  each_later [] db h = h
  each_later (read ∷ queue) db h =
      each_later queue (reanalyze_next tools now read db) (round_late tools now read db h)

  pub each_tries :
      (queue : List QueueObject) (db : QueueTables)
      → Distinct queue
      → count_rows (stale db.objects) queue ≡ 0
      → all_tries (reanalyze_each tools now queue db).objects ≤ all_tries db.objects
  unfolding reanalyze_each count_rows stale is_object
  each_tries [] db distinct h = omega arith
  each_tries (read ∷ queue) db distinct h =
      let alone : count_rows (is_object read.object_id) queue ≡ 0 =
        ground (arith, distinct read.object_id) in
      let rest =
        each_tries queue (reanalyze_next tools now read db) (λ id. ground (arith, distinct id))
          (stale-round read queue db alone (ground (arith, h))) in
      ground (arith, h, rest, round_tries tools now read db)
