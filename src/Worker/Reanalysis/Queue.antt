-- ===== src/Worker/Reanalysis/Queue.antt =====
-- Which rows the queue holds, counted by tests.
use dyson_fs.Base.{
  Bool, List, Text, [], arith, count-queue_of, count_rows, count_rows-update_rows, ltb, refl,
  update_rows, ℕ, ◌∷◌, ◌≡◌, ◌≤◌,
}
use dyson_fs.Worker.Reanalysis.{QueueObject, is_object, is_due, is_live, reanalysis_queue}
use dyson_fs.Worker.Reanalysis.Rows.{ahead}

-- A test of rows that does not look at what the queue writes counts as before.
pub count_kept :
    (p : QueueObject → Bool) (id : Text) (f : QueueObject → QueueObject)
    (objects : List QueueObject)
    → ((o : QueueObject) → p (f o) ≡ p o)
    → count_rows p (update_rows (is_live id) f objects) ≡ count_rows p objects
count_kept p id f objects same = count_rows-update_rows p (is_live id) f same objects

-- The objects of a queue are among the rows: no test passes more often on it.
pub count-reanalysis_queue :
    (p : QueueObject → Bool) (now : ℕ) (objects : List QueueObject)
    → count_rows p (reanalysis_queue now objects) ≤ count_rows p objects
unfolding reanalysis_queue
count-reanalysis_queue p now objects = count-queue_of 20 (λ o. o.updated_at) p (is_due now) objects

-- Ids differ.
abbrev pub Distinct : List QueueObject → Type 0
Distinct objects = (id : Text) → count_rows (is_object id) objects ≤ 1

-- The rows of a list that are read before other rows of their id were tried more often.
unfoldable pub stale : List QueueObject → QueueObject → Bool
stale objects o = ltb 0 (ahead o objects)

stale-tail :
    (x : QueueObject) (l m : List QueueObject)
    → count_rows (is_object x.object_id) m ≡ 0
    → count_rows (stale (x ∷ l)) m ≡ count_rows (stale l) m
unfolding stale ahead count_rows is_object
stale-tail x l [] h = refl
stale-tail x l (o ∷ m) h = ground (arith, h, stale-tail x l m)

few_ahead :
    (read : QueueObject) (l : List QueueObject)
    → ahead read l ≤ count_rows (is_object read.object_id) l
unfolding ahead count_rows
few_ahead read [] = omega arith
few_ahead read (o ∷ l) = ground (arith, few_ahead read l)

-- No row is stale against the rows that it is among.
pub stale-none : (l : List QueueObject) → Distinct l → count_rows (stale l) l ≡ 0
unfolding stale ahead count_rows is_object
stale-none [] h = refl
stale-none (x ∷ l) h =
    let alone : count_rows (is_object x.object_id) l ≡ 0 = ground (arith, h x.object_id) in
    ground (
      arith,
      alone,
      stale-tail x l l alone,
      few_ahead x l,
      stale-none l (λ id. ground (arith, h id)),
    )
