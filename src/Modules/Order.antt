-- ===== src/Modules/Order.antt =====
-- internal/module/resolve.go: the order in which the selected modules start, and Resolve as a whole.
pub mod Counts
pub mod Before
pub mod Graph
pub mod Start
pub mod Complete
use dyson_fs.Base.{
  List, Result, Text, [], contains, err, if◌then◌else◌, length, ltb, none, ok, put_row, row_at,
  some, sort_texts, suc, zero, ℕ, ◌++◌, ◌==◌, ◌∷◌, nat_eq, text_equality,
}
use dyson_fs.Modules.{
  Factory, select, ResolveError, missing_dependency, dependency_cycle, by_id, requires_of,
}

-- An entry of the map of dependents: the dependency and the module that needs it.
abbrev pub Edge : Type 0
Edge = Text × Text

-- The map `remaining`, the queue `ready` and the result so far.
pub record Kahn : Type 0 where
  pub counts : List (Text × ℕ)
  pub ready : List Text
  pub order : List Text

unfoldable pub count_of : List (Text × ℕ) → Text → ℕ
count_of counts id = elim (row_at id counts) [ none ↦ 0 | some n ↦ n ]

unfoldable pub zero_counts : List Text → List (Text × ℕ)
zero_counts [] = []
zero_counts (id ∷ ids) = (id, 0) ∷ zero_counts ids

-- The inner loop over the dependencies of one module.
unfoldable pub count_edges :
    List Text
    → Text
    → List Text
    → List (Text × ℕ)
    → List Edge
    → Result ResolveError (List (Text × ℕ) × List Edge)
count_edges selected id [] counts edges = ok (counts, edges)
count_edges selected id (dep ∷ deps) counts edges =
    let rest =
      count_edges selected id deps (put_row id (suc (count_of counts id)) counts)
        (edges ++ (dep, id) ∷ []) in
    if contains selected dep then rest else err (missing_dependency id dep)

unfoldable pub build_edges :
    List Factory
    → List Text
    → List Text
    → List (Text × ℕ)
    → List Edge
    → Result ResolveError (List (Text × ℕ) × List Edge)
build_edges fs selected [] counts edges = ok (counts, edges)
build_edges fs selected (id ∷ ids) counts edges =
    elim (count_edges selected id (requires_of fs id) counts edges) [
      | err e ↦ err e
      | ok (counts', edges') ↦ build_edges fs selected ids counts' edges'
    ]

unfoldable pub ready_ids : List (Text × ℕ) → List Text
ready_ids [] = []
ready_ids (row ∷ counts) = let rest = ready_ids counts in if row.1 == 0 then row.0 ∷ rest else rest

unfoldable pub children : List Edge → Text → List Text
children [] id = []
children (e ∷ edges) id = let rest = children edges id in if e.0 == id then e.1 ∷ rest else rest

-- The count of a child goes down by one; a count that is zero would go below zero and enqueue nothing.
unfoldable pub settle : Kahn → Text → Kahn
settle k child = elim (count_of k.counts child) [
  | zero ↦ k
  | suc n ↦
      let counted = record k { counts = put_row child n k.counts } in
      if n == 0 then record counted { ready = k.ready ++ child ∷ [] } else counted
]

unfoldable pub settle_all : Kahn → List Text → Kahn
settle_all k [] = k
settle_all k (child ∷ rest) = settle_all (settle k child) rest

-- One round: the first ready module is done.
unfoldable pub advance : List Edge → Kahn → Text → List Text → Kahn
advance edges k id rest =
    let settled =
      settle_all (record k { ready = rest; order = k.order ++ id ∷ [] }) (children edges id) in
    record settled { ready = sort_texts settled.ready }

unfoldable pub run_kahn : ℕ → List Edge → Kahn → Kahn
run_kahn zero edges k = k
run_kahn (suc fuel) edges k = elim k.ready [
  | [] ↦ k
  | id ∷ rest ↦ run_kahn fuel edges (advance edges k id rest)
]

unfoldable pub waiting : List (Text × ℕ) → List Text
waiting [] = []
waiting (row ∷ counts) = let rest = waiting counts in if ltb 0 row.1 then row.0 ∷ rest else rest

unfoldable pub start_kahn : List (Text × ℕ) → Kahn
start_kahn counts = record { counts = counts; ready = sort_texts (ready_ids counts); order = [] }

unfoldable pub topological_order : List Factory → List Text → Result ResolveError (List Text)
topological_order fs selected = elim (build_edges fs selected selected (zero_counts selected) []) [
  | err e ↦ err e
  | ok (counts, edges) ↦
      let k = run_kahn (suc (length selected)) edges (start_kahn counts) in
      if length k.order == length selected
      then ok k.order
      else err (dependency_cycle (sort_texts (waiting k.counts)))
]

-- The factories, the enabled modules, and the pairs of module and dependency of the warnings.
pub record Resolution : Type 0 where
  pub factories : List Factory
  pub enabled : List Text
  pub warnings : List (Text × Text)

unfoldable pub factories_of : List Factory → List Text → List Factory
factories_of fs [] = []
factories_of fs (id ∷ ids) =
    let rest = factories_of fs ids in elim (by_id fs id) [ none ↦ rest | some f ↦ f ∷ rest ]

unfoldable pub resolve : List Factory → List Text → List Text → Result ResolveError Resolution
resolve fs enabled disabled = elim (select fs enabled disabled) [
  | err e ↦ err e
  | ok r ↦ elim (topological_order fs r.left) [
    | err e ↦ err e
    | ok order ↦
        ok (record { factories = factories_of fs order; enabled = r.left; warnings = r.dropped })
  ]
]
