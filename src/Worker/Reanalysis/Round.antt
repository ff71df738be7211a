-- ===== src/Worker/Reanalysis/Round.antt =====
-- What one round of the loop does to the rows.
use dyson_fs.Base.{
  Bool, Bool-cases, List, Result-cases, Text, [], ap, arith, count_rows, false, if◌then◌else◌, inl,
  inr, ltb, ok, refl, suc, sym, text_discrete, trim_space, update_rows, ℕ, ◌+◌, ◌∙◌, ◌∷◌, ◌≡◌, ◌≢◌,
  ◌≤◌, ◌⊎◌,
}
use dyson_fs.Worker.Reanalysis.{
  QueueObject, QueueTables, Tools, is_flagged, is_live, update_objects, reanalyze_stored_object,
  clear_reanalysis, failed_once, fail_reanalysis, reanalyze_next, is_object,
}
use dyson_fs.Worker.Reanalysis.Rows.{
  tries_left, all_tries, ahead, flagged_at, fail_tries, clear_tries,
}
use dyson_fs.Worker.Reanalysis.Queue.{count_kept}

abbrev touched : ℕ → QueueObject → QueueObject
touched now o = record o { updated_at = now }

abbrev cleared : ℕ → QueueObject → QueueObject
cleared now o = record o { needs_reanalysis = false; attempts = 0; updated_at = now }

-- A row that another one replaces without a change of its queue columns.
all_tries-touched :
    (now : ℕ) (id : Text) (l : List QueueObject)
    → all_tries (update_rows (is_live id) (touched now) l) ≡ all_tries l
unfolding all_tries tries_left is_flagged update_rows
all_tries-touched now id [] = refl
all_tries-touched now id (o ∷ l) = ground (arith, all_tries-touched now id l)

late_kept :
    (now : ℕ) (id : Text) (f : QueueObject → QueueObject) (l : List QueueObject)
    → ((o : QueueObject) → (f o).updated_at ≡ now)
    → count_rows (λ o. ltb now o.updated_at) (update_rows (is_live id) f l)
      ≤ count_rows (λ o. ltb now o.updated_at) l
unfolding count_rows update_rows
late_kept now id f [] same = omega arith
late_kept now id f (o ∷ l) same = ground (arith, same o, late_kept now id f l same)

ahead_kept :
    (id : Text) (f : QueueObject → QueueObject) (other : QueueObject) (l : List QueueObject)
    → other.object_id ≢ id
    → ((o : QueueObject) → (f o).object_id ≡ o.object_id)
    → ahead other (update_rows (is_live id) f l) ≡ ahead other l
unfolding ahead count_rows update_rows is_live is_object
ahead_kept id f other [] differ same = refl
ahead_kept id f other (o ∷ l) differ same = elim (text_discrete o.object_id id) [
  | yes here ↦ ground (arith, same o, here, differ, ahead_kept id f other l differ same)
  | no there ↦ ground (arith, there, ahead_kept id f other l differ same)
]

module _ (tools : Tools) (now : ℕ) (read : QueueObject) (db : QueueTables) where
  -- The rows that the last update of a round starts from.
  abbrev Start : List QueueObject → Type 0
  Start l =
      (l ≡ db.objects)
      ⊎ (l ≡ update_rows (is_live (trim_space read.object_id)) (touched now) db.objects)

  reanalyzed :
      (after : QueueTables)
      → reanalyze_stored_object tools now read.object_id db ≡ ok after
      → Start after.objects
  unfolding reanalyze_stored_object update_objects
  reanalyzed after h =
      let same : record db {
        objects = update_rows (is_live (trim_space read.object_id)) (touched now) db.objects;
      }
          ≡ after =
        ground (arith, h) in
      inr (ap (λ (d : QueueTables). d.objects) (sym same))

  -- A round ends with the flag cleared or a try counted.
  round-cases {κ} :
      (P : List QueueObject → Type κ)
      → ((l : List QueueObject)
          → Start l
          → P (update_rows (is_live read.object_id) (cleared now) l))
      → ((l : List QueueObject)
          → Start l
          → P (update_rows (is_live read.object_id) (failed_once now read.attempts) l))
      → P (reanalyze_next tools now read db).objects
  unfolding reanalyze_next clear_reanalysis fail_reanalysis update_objects
  round-cases P clear fail =
      elim (Result-cases (reanalyze_stored_object tools now read.object_id db)) [
        | inl (missing, bad) ↦
            rw (bad, reanalyze_next)
              (elim (Bool-cases missing) [
                | inl gone ↦ rw gone (clear db.objects (inl refl))
                | inr other ↦ rw other (fail db.objects (inl refl))
              ])
        | inr (after, good) ↦
            rw (good, reanalyze_next)
              (elim (Bool-cases (tools.publish now read.object_id)) [
                | inl sent ↦ rw sent (clear after.objects (reanalyzed after good))
                | inr unsent ↦ rw unsent (fail after.objects (reanalyzed after good))
              ])
      ]

  pub round_ids :
      (p : QueueObject → Bool)
      → ((o : QueueObject) (b : Bool) (n t : ℕ)
          → p (record o { needs_reanalysis = b; attempts = n; updated_at = t }) ≡ p o)
      → count_rows p (reanalyze_next tools now read db).objects ≡ count_rows p db.objects
  unfolding failed_once
  round_ids p same =
      let start : (l : List QueueObject) → Start l → count_rows p l ≡ count_rows p db.objects =
        λ l h. elim h [
          | inl e ↦ ap (count_rows p) e
          | inr e ↦
              ap (count_rows p) e
              ∙ count_kept p (trim_space read.object_id) (touched now) db.objects
                  (λ o. same o o.needs_reanalysis o.attempts now)
        ] in
      round-cases (λ l. count_rows p l ≡ count_rows p db.objects)
        (λ l h. count_kept p read.object_id (cleared now) l (λ o. same o false 0 now) ∙ start l h)
        (λ l h.
          count_kept p read.object_id (failed_once now read.attempts) l (λ o. ground (
            arith,
            same o o.needs_reanalysis (suc read.attempts) now,
            same o false (suc read.attempts) now,
          ))
          ∙ start l h)

  same_before :
      (l : List QueueObject)
      → Start l
      → (all_tries l ≡ all_tries db.objects)
        × (ahead read l ≡ ahead read db.objects)
        × (flagged_at read l ≡ flagged_at read db.objects)
  unfolding ahead flagged_at is_flagged is_object
  same_before l h = elim h [
    | inl e ↦ (ap all_tries e, ap (ahead read) e, ap (flagged_at read) e)
    | inr e ↦
        let id = trim_space read.object_id in
        (
          ap all_tries e ∙ all_tries-touched now id db.objects,
          ap (ahead read) e ∙ count_kept _ id (touched now) db.objects (λ o. refl),
          ap (flagged_at read) e ∙ count_kept _ id (touched now) db.objects (λ o. refl),
        )
  ]

  pub round_tries :
      ahead read db.objects ≡ 0
      → all_tries (reanalyze_next tools now read db).objects
          + (if ltb 0 (flagged_at read db.objects) then 1 else 0)
        ≤ all_tries db.objects
  round_tries fresh =
      round-cases
        (λ l.
          all_tries l + (if ltb 0 (flagged_at read db.objects) then 1 else 0)
          ≤ all_tries db.objects)
        (λ l h. ground (arith, same_before l h, clear_tries now read l))
        (λ l h. ground (arith, same_before l h, fail_tries now read l, fresh))

  -- No row is written later than now.
  pub round_late :
      count_rows (λ o. ltb now o.updated_at) db.objects ≡ 0
      → count_rows (λ o. ltb now o.updated_at) (reanalyze_next tools now read db).objects ≡ 0
  unfolding failed_once
  round_late h =
      let late = count_rows (λ (o : QueueObject). ltb now o.updated_at) in
      let start : (l : List QueueObject) → Start l → late l ≤ 0 = λ l k. elim k [
        | inl e ↦ omega (arith, h, ap late e)
        | inr e ↦ omega (
          arith,
          h,
          ap late e,
          late_kept now (trim_space read.object_id) (touched now) db.objects (λ o. refl),
        )
      ] in
      round-cases (λ l. late l ≡ 0)
        (λ l k. omega (arith, start l k, late_kept now read.object_id (cleared now) l (λ o. refl)))
        (λ l k. omega (
          arith,
          start l k,
          late_kept now read.object_id (failed_once now read.attempts) l (λ o. ground arith),
        ))

  -- Rows of other ids keep their tries.
  pub round_ahead :
      (other : QueueObject)
      → other.object_id ≢ read.object_id
      → ahead other (reanalyze_next tools now read db).objects ≡ ahead other db.objects
  unfolding ahead failed_once is_object
  round_ahead other differ =
      let start : (l : List QueueObject) → Start l → ahead other l ≡ ahead other db.objects = λ l k.
        elim k [
          | inl e ↦ ap (ahead other) e
          | inr e ↦
              ap (ahead other) e
              ∙ count_kept _ (trim_space read.object_id) (touched now) db.objects (λ o. refl)
        ] in
      round-cases (λ l. ahead other l ≡ ahead other db.objects)
        (λ l k. ahead_kept read.object_id (cleared now) other l differ (λ o. refl) ∙ start l k)
        (λ l k.
          ahead_kept read.object_id (failed_once now read.attempts) other l differ
            (λ o. ground arith)
          ∙ start l k)
