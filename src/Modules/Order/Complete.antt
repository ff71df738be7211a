-- ===== src/Modules/Order/Complete.antt =====
-- The ordering as a whole: what an accepted ordering is, and when the modules have one.
use dyson_fs.Base.{
  List, Nil-cases, Result-cases, Text, [], any_row, ap, arith, contains, count_rows, dec_lt, inl,
  inr, length, length-append, ok, put_row, refl, subst, suc, true, zero, ℕ, ◌++◌, ◌+◌, ◌<◌, ◌∙◌,
  ◌∷◌, ◌≡◌, ◌≤◌, nat_eq, text_equality,
}
use dyson_fs.Modules.{Factory, requires_of}
use dyson_fs.Modules.Cascade.{within, satisfied}
use dyson_fs.Modules.Order.{
  Edge, Kahn, zero_counts, build_edges, children, run_kahn, start_kahn, topological_order, settle,
  settle_all, advance, count_of, count_edges,
}
use dyson_fs.Modules.Order.Counts.{occurs, open_in, contains-occurs}
use dyson_fs.Modules.Order.Graph.{Built, build_edges-Built}
use dyson_fs.Modules.Order.Before.{respects, has_edge, IsGraph, Inv, advance-Inv, run_kahn-Inv}
use dyson_fs.Modules.Order.Start.{
  keys-zero_counts, count_of-zero_counts, fewer, start-Inv, fewer_same,
}

settle-order : (k : Kahn) (child : Text) → (settle k child).order ≡ k.order
unfolding settle
settle-order k child = ground arith

settle_all-order : (k : Kahn) (pending : List Text) → (settle_all k pending).order ≡ k.order
unfolding settle_all
settle_all-order k [] = refl
settle_all-order k (child ∷ pending) =
    settle_all-order (settle k child) pending ∙ settle-order k child

advance-order :
    (edges : List Edge) (k : Kahn) (id : Text) (rest : List Text)
    → (advance edges k id rest).order ≡ k.order ++ id ∷ []
unfolding advance
advance-order edges k id rest = settle_all-order _ (children edges id)

-- A module has no open entry once all its dependencies are done.
open_none :
    (edges : List Edge) (done : List Text) (x : Text)
    → ((dep : Text) → has_edge edges dep x ≡ true → contains done dep ≡ true)
    → open_in edges done x ≡ 0
unfolding open_in count_rows has_edge any_row
open_none [] done x all = refl
open_none (e ∷ edges) done x all = ground (
  arith,
  all e.0,
  contains-occurs e.0 done,
  open_none edges done x (λ dep h. all dep (ground (arith, h))),
)

module _ (fs : List Factory) (selected : List Text) where
  zero_counts-Built : Built fs selected (zero_counts selected) []
  unfolding open_in count_rows occurs children has_edge any_row
  zero_counts-Built = record {
    keyed = keys-zero_counts selected;
    agree = λ x. count_of-zero_counts x selected;
    targets = λ i c h. absurd (ground (arith, h));
    sources = λ d i h. absurd (ground (arith, h));
  }

  -- The graph of the ordering, once its first loops have run.
  build :
      (r : List (Text × ℕ) × List Edge)
      → build_edges fs selected selected (zero_counts selected) [] ≡ ok r
      → Built fs selected r.0 r.1 × IsGraph fs selected r.1
  build r h =
      let (built, grows, all) =
        build_edges-Built fs selected selected (zero_counts selected) [] r (λ x k. k)
          zero_counts-Built h in
      (built, record { targets = built.targets; entries = all })

  -- The last state of the loop.
  abbrev finished : List (Text × ℕ) → List Edge → Kahn
  finished counts edges = run_kahn (suc (length selected)) edges (start_kahn counts)

  -- The order holds no module that is not selected, and none twice.
  few :
      (edges : List Edge) (k : Kahn)
      → Inv fs selected edges [] k
      → (x : Text) → occurs x k.order ≤ occurs x selected
  few edges k inv x = ground (arith, inv.once x, inv.known x, contains-occurs x selected)

  topological_order-steps :
      (order : List Text)
      → topological_order fs selected ≡ ok order
      → (r : List (Text × ℕ) × List Edge) × (build_edges fs selected selected
            (zero_counts selected)
            []
          ≡ ok r)
        × ((finished r.0 r.1).order ≡ order)
        × (length order ≡ length selected)
  unfolding topological_order
  topological_order-steps order h =
      elim (Result-cases (build_edges fs selected selected (zero_counts selected) [])) [
        | inl (e, bad) ↦ absurd (ground (arith, h, bad))
        | inr (r, good) ↦ (r, good, ground (arith, h, good), ground (arith, h, good))
      ]

  topological_order-accepts :
      (r : List (Text × ℕ) × List Edge)
      → build_edges fs selected selected (zero_counts selected) [] ≡ ok r
      → length (finished r.0 r.1).order ≡ length selected
      → topological_order fs selected ≡ ok (finished r.0 r.1).order
  unfolding topological_order
  topological_order-accepts r good long = ground (arith, good, long)

  -- An accepted order holds the selected modules, each once, and every module stands in it behind
  -- all the modules that it requires, if the ids of the selected modules differ.
  pub topological_order-respects :
      (order : List Text)
      → ((x : Text) → occurs x selected ≤ 1)
      → topological_order fs selected ≡ ok order
      → (respects fs [] order ≡ true) × ((x : Text) → occurs x order ≡ occurs x selected)
  topological_order-respects order distinct h =
      let (r, good, last, long) = topological_order-steps order h in
      let (built, graph) = build r good in
      let end =
        run_kahn-Inv fs selected r.1 (suc (length selected)) (start_kahn r.0) graph
          (start-Inv fs selected r.1 r.0 distinct built) in
      (
        subst (λ l. respects fs [] l ≡ true) last end.before,
        λ x.
            fewer_same order selected x
              (λ y. subst (λ l. occurs y l ≤ occurs y selected) last (few r.1 _ end y)) long,
      )

  -- The rounds are enough for the loop to end with no module ready.
  run_kahn-Quiet :
      (fuel : ℕ) (edges : List Edge) (k : Kahn)
      → IsGraph fs selected edges
      → Inv fs selected edges [] k
      → length selected < fuel + length k.order
      → (run_kahn fuel edges k).ready ≡ []
  unfolding run_kahn
  run_kahn-Quiet zero edges k graph inv h =
      absurd (omega (arith, h, fewer k.order selected (few edges k inv)))
  run_kahn-Quiet (suc fuel) edges k graph inv h = elim (Nil-cases k.ready) [
    | inl empty ↦ rw (empty, run_kahn) empty
    | inr (id, rest, first) ↦
        rw (first, run_kahn)
          (run_kahn-Quiet fuel edges (advance edges k id rest) graph
            (advance-Inv fs selected edges k id rest graph first inv)
            (ground (
              arith,
              h,
              ap length (advance-order edges k id rest),
              length-append k.order (id ∷ []),
            )))
  ]

  count_edges-Total :
      (id : Text) (deps : List Text) (counts : List (Text × ℕ)) (edges : List Edge)
      → within selected deps ≡ true
      → (r : List (Text × ℕ) × List Edge) × (count_edges selected id deps counts edges ≡ ok r)
  unfolding count_edges within
  count_edges-Total id [] counts edges h = ((counts, edges), refl)
  count_edges-Total id (dep ∷ deps) counts edges h =
      let (r, good) =
        count_edges-Total id deps (put_row id (suc (count_of counts id)) counts)
          (edges ++ (dep, id) ∷ []) (ground (arith, h)) in
      (r, ground (arith, h, good))

  build_edges-Total :
      (ids : List Text) (counts : List (Text × ℕ)) (edges : List Edge)
      → satisfied fs selected ids ≡ true
      → (r : List (Text × ℕ) × List Edge) × (build_edges fs selected ids counts edges ≡ ok r)
  unfolding build_edges satisfied
  build_edges-Total [] counts edges h = ((counts, edges), refl)
  build_edges-Total (id ∷ ids) counts edges h =
      let (m, mid) = count_edges-Total id (requires_of fs id) counts edges (ground (arith, h)) in
      let (r, good) = build_edges-Total ids m.0 m.1 (ground (arith, h)) in
      (r, rw (mid, build_edges) good)

  module _ (rank : Text → ℕ) where
    -- Every selected module has a higher rank than the selected modules that it requires.
    abbrev pub Ranked : Type 0
    Ranked =
        (id dep : Text)
        → contains selected id ≡ true
        → contains selected dep ≡ true
        → contains (requires_of fs id) dep ≡ true
        → rank dep < rank id

    -- With no module ready, every selected module is done: by induction on the rank.
    all_ranked :
        (edges : List Edge) (k : Kahn) (bound : ℕ) (counts : List (Text × ℕ)) (x : Text)
        → Ranked
        → Built fs selected counts edges
        → Inv fs selected edges [] k
        → k.ready ≡ []
        → contains selected x ≡ true
        → rank x < bound
        → 0 < occurs x k.order
    unfolding occurs count_rows
    all_ranked edges k zero counts x ranked built inv quiet there h = absurd (omega (arith, h))
    all_ranked edges k (suc bound) counts x ranked built inv quiet there h =
        let closed = open_none edges k.order x (λ dep e.
          let (needs, here) = built.sources dep x e in
          (contains-occurs dep k.order).1 (
            all_ranked edges k bound counts dep ranked built inv quiet here
              (omega (arith, h, ranked x dep there here needs)))) in
        ground (arith, inv.full x there, inv.counted x, closed, ap (occurs x) quiet)

    -- Selected modules whose dependencies are selected, which have different ids and no cycle of
    -- dependencies (they have ranks that grow from a dependency to its dependents), have an order:
    -- the loop ends and the ordering is accepted.
    pub topological_order_complete :
        ((x : Text) → occurs x selected ≤ 1)
        → satisfied fs selected selected ≡ true
        → Ranked
        → (order : List Text) × (topological_order fs selected ≡ ok order)
    topological_order_complete distinct closed ranked =
        let (r, good) = build_edges-Total selected (zero_counts selected) [] closed in
        let (built, graph) = build r good in
        let start = start-Inv fs selected r.1 r.0 distinct built in
        let k = run_kahn (suc (length selected)) r.1 (start_kahn r.0) in
        let end =
          run_kahn-Inv fs selected r.1 (suc (length selected)) (start_kahn r.0) graph start in
        let quiet =
          run_kahn-Quiet (suc (length selected)) r.1 (start_kahn r.0) graph start (omega arith) in
        let more : (x : Text) → occurs x selected ≤ occurs x k.order = λ x.
          elim (dec_lt 0 (occurs x selected)) [
            | no none_there ↦ omega (arith, none_there)
            | yes there ↦ omega (
              arith,
              distinct x,
              all_ranked r.1 k (suc (rank x)) r.0 x ranked built end quiet
                  ((contains-occurs x selected).1 there) (omega arith),
            )
          ] in
        let long : length k.order ≡ length selected =
          omega (arith, fewer k.order selected (few r.1 k end), fewer selected k.order more) in
        (k.order, topological_order-accepts r good long)
