-- ===== src/Worker/Reanalysis/Tests.antt =====
-- The queue at concrete inputs: an object that is never analyzed, and one that is at once.
use dyson_fs.Base.{
  List, Text, [], any_row, arith, codes, contains, count_rows, false, insert_by, keep, queue_of,
  refl, sort_by, text_discrete, to_lower, trim_space, true, update_rows, ℕ, ℕ_discrete, ◌==◌, ◌∷◌,
  ◌≡◌, nat_eq, text_equality,
}
use dyson_fs.Core.{AnalysisRegistry, enable, new_analysis_registry, any_kind}
use dyson_fs.Worker.Reanalysis.{
  QueueObject, QueueTables, Tools, is_object, is_flagged, is_due, is_live, update_objects,
  reanalyze_stored_object, clear_reanalysis, failed_once, fail_reanalysis, reanalyze_next,
  reanalyze_each, reanalysis_queue, process_reanalysis_queue, run_passes,
}
use dyson_fs.Worker.Reanalysis.Queue.{Distinct}
use dyson_fs.Worker.Reanalysis.Passes.{waiting, run_passes-waiting}

program : Unit {0}
unfolding is_object is_flagged is_due is_live update_objects reanalyze_stored_object
    clear_reanalysis failed_once fail_reanalysis reanalyze_next reanalyze_each reanalysis_queue
    process_reanalysis_queue run_passes enable any_kind new_analysis_registry update_rows count_rows
    any_row contains keep insert_by sort_by queue_of trim_space to_lower text_discrete ℕ_discrete
program = tt

abbrev flagged : Text → QueueObject
flagged id = record {
  object_id = id;
  is_deleted = false;
  needs_reanalysis = true;
  attempts = 0;
  updated_at = 5;
}

abbrev tables : QueueTables
tables = record {
  objects = flagged (codes "bad") ∷ flagged (codes "good") ∷ [];
  file_objects = codes "bad" ∷ codes "good" ∷ [];
}

abbrev tools : Tools
tools = record {
  has_pool = λ now id. true;
  refresh = λ now id. id == codes "good";
  publish = λ now id. true;
}

abbrev images : AnalysisRegistry
images = enable (codes "image") new_analysis_registry

abbrev twice_a_day : List ℕ
twice_a_day = 100 ∷ 200 ∷ 300 ∷ 400 ∷ 500 ∷ 600 ∷ []

-- After one pass the first object has one try less, and the other one is done.
first_pass : process_reanalysis_queue tools images 100 tables ≡ record tables {
  objects =
      record (flagged (codes "bad")) { attempts = 1; updated_at = 100 }
      ∷ record (flagged (codes "good")) { needs_reanalysis = false; updated_at = 100 }
      ∷ [];
}
unfolding program
first_pass = refl

differ : Distinct tables.objects
unfolding program
differ id = ground arith

run_passes-waiting_example : waiting (run_passes tools images twice_a_day tables).objects ≡ 0
unfolding program
run_passes-waiting_example =
    run_passes-waiting tools images twice_a_day 5 tables refl
      (omega arith, (omega arith, (omega arith, (omega arith, (omega arith, (omega arith, tt))))))
      differ refl (omega arith)
