-- ===== src/Worker/Reanalysis/Passes.antt =====
-- The passes over the queue.
use dyson_fs.Base.{
  Bool, List, Nil-cases, Text, [], ap, arith, count_rows, if◌then◌else◌, inl, inr, length, ltb, not,
  queue_of, queue_of-nil, queue_of-passes, refl, subst, suc, true, unmatched, unmatched-none, ℕ,
  ◌*◌, ◌+◌, ◌<◌, ◌∙◌, ◌∷◌, ◌≡◌, ◌≤◌,
}
use dyson_fs.Core.{AnalysisRegistry, any_kind}
use dyson_fs.Worker.Reanalysis.{
  QueueObject, QueueTables, Tools, queue_delay, is_flagged, is_due, reanalyze_each,
  reanalysis_queue, process_reanalysis_queue, is_object, reanalyze_next, run_passes,
}
use dyson_fs.Worker.Reanalysis.Rows.{
  all_tries, all_tries-bound, flagged_tries, tries_left, flagged_at,
}
use dyson_fs.Worker.Reanalysis.Queue.{Distinct, count-reanalysis_queue, stale, stale-none}
use dyson_fs.Worker.Reanalysis.Round.{round_tries}
use dyson_fs.Worker.Reanalysis.Drain.{later, stale-round, each_tries, each_ids, each_later}

-- Objects that wait for a pass.
abbrev pub waiting : List QueueObject → ℕ
waiting = count_rows is_flagged

-- Flagged rows whose id no flagged row has: there are none.
abbrev unseen : List QueueObject → QueueObject → Bool
unseen = unmatched is_flagged (λ o. is_object o.object_id)

unseen-none : (l : List QueueObject) → count_rows (unseen l) l ≡ 0
unfolding is_object
unseen-none = unmatched-none is_flagged (λ o. is_object o.object_id) (λ o. ground arith)

flagged_due :
    (now : ℕ) (l : List QueueObject)
    → count_rows (λ o. not (is_flagged o)) l ≤ count_rows (λ o. not (is_due now o)) l
unfolding count_rows is_due
flagged_due now [] = omega arith
flagged_due now (o ∷ l) = ground (arith, flagged_due now l)

queue-flagged :
    (now : ℕ) (l : List QueueObject)
    → count_rows (λ o. not (is_flagged o)) (reanalysis_queue now l) ≡ 0
unfolding reanalysis_queue
queue-flagged now l = omega (
  arith,
  queue_of-passes 20 (λ (o : QueueObject). o.updated_at) (is_due now) l,
  flagged_due now (queue_of 20 (λ (o : QueueObject). o.updated_at) (is_due now) l),
)

all_due :
    (now last : ℕ) (l : List QueueObject)
    → last + queue_delay < now
    → waiting l ≤ count_rows (is_due now) l + later last l
unfolding count_rows is_due
all_due now last [] h = omega arith
all_due now last (o ∷ l) h = ground (arith, h, all_due now last l h)

queue-nil :
    (now last : ℕ) (l : List QueueObject)
    → last + queue_delay < now
    → later last l ≡ 0
    → reanalysis_queue now l ≡ []
    → waiting l ≡ 0
unfolding reanalysis_queue
queue-nil now last l past early h = omega (
  arith,
  all_due now last l past,
  early,
  queue_of-nil 19 (λ (o : QueueObject). o.updated_at) (is_due now) l h,
)

first_tries :
    (tools : Tools) (now : ℕ) (read : QueueObject) (rest : List QueueObject) (db : QueueTables)
    → Distinct (read ∷ rest)
    → count_rows (stale db.objects) (read ∷ rest) ≡ 0
    → count_rows (unseen db.objects) (read ∷ rest) ≡ 0
    → count_rows (λ o. not (is_flagged o)) (read ∷ rest) ≡ 0
    → suc (all_tries (reanalyze_each tools now (read ∷ rest) db).objects) ≤ all_tries db.objects
unfolding reanalyze_each count_rows stale unmatched flagged_at is_object
first_tries tools now read rest db distinct fresh seen flagged =
    let alone : count_rows (is_object read.object_id) rest ≡ 0 =
      ground (arith, distinct read.object_id) in
    let others =
      each_tries tools now rest (reanalyze_next tools now read db)
        (λ id. ground (arith, distinct id))
        (stale-round tools now read rest db alone (ground (arith, fresh))) in
    ground (arith, fresh, seen, flagged, others, round_tries tools now read db)

-- Instants that lie further apart than the delay of the queue.
abbrev pub Spaced : ℕ → List ℕ → Type 0
Spaced last [] = Unit
Spaced last (now ∷ times) = (last + queue_delay < now) × Spaced now times

waiting_tries : (l : List QueueObject) → waiting l ≡ 0 → all_tries l ≡ 0
unfolding count_rows all_tries tries_left
waiting_tries [] h = refl
waiting_tries (o ∷ l) h = ground (arith, h, waiting_tries l)

later_less :
    (now last : ℕ) (l : List QueueObject)
    → last + queue_delay < now
    → later last l ≡ 0
    → later now l ≡ 0
unfolding count_rows
later_less now last [] past h = refl
later_less now last (o ∷ l) past h = ground (arith, past, h, later_less now last l past)

module _ (tools : Tools) (analysis : AnalysisRegistry) where
  pass_each :
      (now : ℕ) (db : QueueTables)
      → any_kind analysis ≡ true
      → process_reanalysis_queue tools analysis now db
        ≡ reanalyze_each tools now (reanalysis_queue now db.objects) db
  unfolding process_reanalysis_queue
  pass_each now db on = rw on refl

  each_none : (now : ℕ) (db : QueueTables) → reanalyze_each tools now [] db ≡ db
  unfolding reanalyze_each
  each_none now db = refl

  queue_none :
      (p : QueueObject → Bool) (now : ℕ) (db : QueueTables) (read : QueueObject)
      (rest : List QueueObject)
      → reanalysis_queue now db.objects ≡ read ∷ rest
      → count_rows p db.objects ≡ 0
      → count_rows p (read ∷ rest) ≡ 0
  queue_none p now db read rest first h =
      omega (arith, h, count-reanalysis_queue p now db.objects, ap (count_rows p) first)

  -- A pass that some object waits for uses up a try.
  pass_tries :
      (now last : ℕ) (db : QueueTables)
      → any_kind analysis ≡ true
      → last + queue_delay < now
      → Distinct db.objects
      → later last db.objects ≡ 0
      → all_tries (process_reanalysis_queue tools analysis now db).objects
          + (if ltb 0 (waiting db.objects) then 1 else 0)
        ≤ all_tries db.objects
  pass_tries now last db on past distinct early =
      rw (pass_each now db on) (elim (Nil-cases (reanalysis_queue now db.objects)) [
        | inl empty ↦
            let none_left = queue-nil now last db.objects past early empty in
            rw (empty, each_none now db) (ground (arith, none_left))
        | inr (read, rest, first) ↦
            let each_distinct : Distinct (read ∷ rest) = λ id. omega (
              arith,
              distinct id,
              count-reanalysis_queue (is_object id) now db.objects,
              ap (count_rows (is_object id)) first,
            ) in
            let less =
              first_tries tools now read rest db each_distinct
                (queue_none (stale db.objects) now db read rest first
                  (stale-none db.objects distinct))
                (queue_none (unseen db.objects) now db read rest first (unseen-none db.objects))
                (subst (λ q. count_rows (λ o. not (is_flagged o)) q ≡ 0) first
                  (queue-flagged now db.objects)) in
            rw first (ground (arith, less))
      ])

  drained :
      (times : List ℕ) (last : ℕ) (db : QueueTables)
      → any_kind analysis ≡ true
      → Spaced last times
      → Distinct db.objects
      → later last db.objects ≡ 0
      → all_tries db.objects ≤ length times
      → waiting (run_passes tools analysis times db).objects ≡ 0
  unfolding run_passes
  drained [] last db on spaced distinct early h = flagged_tries db.objects (omega (arith, h))
  drained (now ∷ times) last db on spaced distinct early h =
      let after = process_reanalysis_queue tools analysis now db in
      let less = pass_tries now last db on spaced.0 distinct early in
      let ids = λ (id : Text).
        ap (λ (d : QueueTables). count_rows (is_object id) d.objects) (pass_each now db on)
        ∙ each_ids tools now (reanalysis_queue now db.objects) db id in
      let written : later now after.objects ≡ 0 = rw (pass_each now db on) (
        each_later tools now (reanalysis_queue now db.objects) db
          (later_less now last db.objects spaced.0 early)) in
      drained times now after on spaced.1 (λ id. omega (arith, distinct id, ids id)) written
        (ground (arith, h, less, waiting_tries db.objects))

  -- The passes over the queue of the objects to analyze again, each later than the one before it by
  -- more than the delay: after three of them for every object no object waits any more, whatever
  -- the storage and the tools answer, if a kind of analysis is enabled, the ids of the objects
  -- differ, and no object was written after the instant that the first pass keeps its distance to.
  pub run_passes-waiting :
      (times : List ℕ) (last : ℕ) (db : QueueTables)
      → any_kind analysis ≡ true
      → Spaced last times
      → Distinct db.objects
      → later last db.objects ≡ 0
      → 3 * length db.objects ≤ length times
      → waiting (run_passes tools analysis times db).objects ≡ 0
  run_passes-waiting times last db on spaced distinct early h =
      drained times last db on spaced distinct early (omega (arith, h, all_tries-bound db.objects))
