-- ===== src/Modules/Order/Before.antt =====
-- The order puts every module behind its dependencies.
use dyson_fs.Base.{
  Bool, List, Nil-cases, Text, [], any_row, ap, append-nil, append_assoc, arith, contains,
  count_rows, inl, inr, put_row, refl, sort_texts, suc, text_discrete, true, zero, ℕ, ℕ_discrete,
  ◌&&◌, ◌++◌, ◌+◌, ◌<◌, ◌==◌, ◌∙◌, ◌∷◌, ◌≡◌, ◌≢◌, ◌≤◌, nat_eq, text_equality,
}
use dyson_fs.Modules.{Factory, requires_of}
use dyson_fs.Modules.Cascade.{within}
use dyson_fs.Modules.Order.{Kahn, settle, Edge, count_of, children, settle_all, advance, run_kahn}
use dyson_fs.Modules.Order.Counts.{
  occurs, open_in, occurs-append, count_of-put_row, contains-occurs, occurs-sort_texts,
  open_in-done,
}

-- Every module of a list stands behind its dependencies, which may also be done before the list.
unfoldable pub respects : List Factory → List Text → List Text → Bool
respects fs done [] = true
respects fs done (id ∷ ids) = within done (requires_of fs id) && respects fs (done ++ id ∷ []) ids

respects-append :
    (fs : List Factory) (done l : List Text) (id : Text)
    → respects fs done l ≡ true
    → within (done ++ l) (requires_of fs id) ≡ true
    → respects fs done (l ++ id ∷ []) ≡ true
unfolding respects
respects-append fs done [] id h k = ground (arith, k, append-nil done)
respects-append fs done (x ∷ l) id h k = ground (
  arith,
  h,
  respects-append fs (done ++ x ∷ []) l id,
  ap (λ t. within t (requires_of fs id)) (append_assoc done (x ∷ []) l),
  k,
)

settle-last :
    (child : Text) (k : Kahn) (n : ℕ)
    → count_of k.counts child ≡ suc n
    → n ≡ 0
    → settle k child
      ≡ record { counts = put_row child 0 k.counts; ready = k.ready ++ child ∷ []; order = k.order }
unfolding settle
settle-last child k n h last = ground (arith, h, last)

settle-more :
    (child : Text) (k : Kahn) (n : ℕ)
    → count_of k.counts child ≡ suc n
    → n ≢ 0
    → settle k child ≡ record k { counts = put_row child n k.counts }
unfolding settle
settle-more child k n h more = ground (arith, h, more)

-- The entries that the modules of a list need.
unfoldable pub has_edge : List Edge → Text → Text → Bool
has_edge edges dep id = any_row (λ e. (e.0 == dep) && (e.1 == id)) edges

module _ (fs : List Factory) (selected : List Text) (edges : List Edge) where
  -- The entries stand between selected modules and hold every dependency of a selected module.
  pub record IsGraph : Type 0 where
    pub targets :
        (id child : Text) → 0 < occurs child (children edges id) → contains selected child ≡ true
    pub entries :
        (id dep : Text)
        → contains selected id ≡ true
        → contains (requires_of fs id) dep ≡ true
        → has_edge edges dep id ≡ true

  -- The state of the loop while the children in the list are still to settle.
  pub record Inv (pending : List Text) (k : Kahn) : Type 0 where
    pub counted : (x : Text) → count_of k.counts x ≡ open_in edges k.order x + occurs x pending
    pub once : (x : Text) → occurs x k.ready + occurs x k.order ≤ 1
    pub settled : (x : Text) → 0 < occurs x k.ready + occurs x k.order → count_of k.counts x ≡ 0
    pub known : (x : Text) → 0 < occurs x k.ready + occurs x k.order → contains selected x ≡ true
    pub full :
        (x : Text)
        → contains selected x ≡ true
        → count_of k.counts x ≡ 0
        → 0 < occurs x k.ready + occurs x k.order
    pub before : respects fs [] k.order ≡ true

  -- The count of a child that is still to settle is not zero.
  child_count :
      (pending : List Text) (child : Text) (k : Kahn)
      → Inv (child ∷ pending) k
      → count_of k.counts child ≡ suc (open_in edges k.order child + occurs child pending)
  unfolding occurs count_rows
  child_count pending child k inv = ground (arith, inv.counted child)

  settle_last :
      (pending : List Text) (child : Text) (k : Kahn)
      → contains selected child ≡ true
      → count_of k.counts child ≡ 1
      → Inv (child ∷ pending) k
      → Inv pending (record {
        counts = put_row child 0 k.counts;
        ready = k.ready ++ child ∷ [];
        order = k.order;
      })
  unfolding occurs count_rows
  settle_last pending child k inside one inv = record {
    counted = λ x. ground (arith, count_of-put_row x child 0 k.counts, inv.counted x, one);
    once =
        λ x. ground (arith, occurs-append x k.ready (child ∷ []), inv.once x, inv.settled x, one);
    settled = λ x h. ground (
      arith,
      occurs-append x k.ready (child ∷ []),
      count_of-put_row x child 0 k.counts,
      inv.settled x,
      h,
    );
    known = λ x h. ground (arith, occurs-append x k.ready (child ∷ []), inv.known x, h, inside);
    full = λ x here none_left. ground (
      arith,
      occurs-append x k.ready (child ∷ []),
      count_of-put_row x child 0 k.counts,
      inv.full x,
      here,
      none_left,
    );
    before = inv.before;
  }

  settle_more :
      (pending : List Text) (child : Text) (k : Kahn) (n : ℕ)
      → n ≢ 0
      → count_of k.counts child ≡ suc n
      → Inv (child ∷ pending) k
      → Inv pending (record k { counts = put_row child n k.counts })
  unfolding occurs count_rows
  settle_more pending child k n left more inv = record {
    counted = λ x. ground (arith, count_of-put_row x child n k.counts, inv.counted x, more);
    once = inv.once;
    settled = λ x h. ground (arith, count_of-put_row x child n k.counts, inv.settled x, h, more);
    known = inv.known;
    full = λ x here none_left.
        ground (arith, count_of-put_row x child n k.counts, inv.full x, here, none_left, left);
    before = inv.before;
  }

  settle-Inv :
      (pending : List Text) (child : Text) (k : Kahn)
      → contains selected child ≡ true
      → Inv (child ∷ pending) k
      → Inv pending (settle k child)
  unfolding settle
  settle-Inv pending child k inside inv =
      let n = open_in edges k.order child + occurs child pending in
      let count = child_count pending child k inv in
      elim (ℕ_discrete n 0) [
        | yes last ↦
            rw (settle-last child k n count last)
              (settle_last pending child k inside (count ∙ ap suc last) inv)
        | no more ↦
            rw (settle-more child k n count more) (settle_more pending child k n more count inv)
      ]

  settle_all-Inv :
      (pending : List Text) (k : Kahn)
      → ((child : Text) → 0 < occurs child pending → contains selected child ≡ true)
      → Inv pending k
      → Inv [] (settle_all k pending)
  unfolding settle_all occurs count_rows
  settle_all-Inv [] k inside inv = inv
  settle_all-Inv (child ∷ pending) k inside inv =
      settle_all-Inv pending (settle k child) (λ c h. inside c (ground (arith, h)))
        (settle-Inv pending child k (inside child (ground arith)) inv)

  -- With no entry open, every dependency of a module is done.
  all_done :
      (es : List Edge) (order : List Text) (id dep : Text)
      → open_in es order id ≡ 0
      → has_edge es dep id ≡ true
      → contains order dep ≡ true
  unfolding open_in count_rows has_edge any_row
  all_done [] order id dep h k = absurd (ground arith)
  all_done (e ∷ es) order id dep h k = elim (text_discrete e.0 dep) [
    | yes same ↦
        let here = ap (λ y. occurs y order) same in
        ground (arith, here, h, k, contains-occurs dep order, all_done es order id dep)
    | no other ↦ ground (arith, other, h, k, all_done es order id dep)
  ]

  done_within :
      (order deps : List Text)
      → ((dep : Text) → contains deps dep ≡ true → contains order dep ≡ true)
      → within order deps ≡ true
  unfolding within contains
  done_within order [] all = refl
  done_within order (dep ∷ deps) all =
      ground (arith, all dep, done_within order deps (λ x h. all x (ground (arith, h))))

  pop-Inv :
      (k : Kahn) (id : Text) (rest : List Text)
      → IsGraph
      → k.ready ≡ id ∷ rest
      → Inv [] k
      → Inv (children edges id) (record k { ready = rest; order = k.order ++ id ∷ [] })
  unfolding occurs count_rows
  pop-Inv k id rest graph first inv =
      let split : (x : Text) → occurs x k.ready ≡ occurs x (id ∷ rest) = λ x. ap (occurs x) first in
      let fresh : occurs id k.order ≡ 0 = ground (arith, split id, inv.once id) in
      let ready_now : 0 < occurs id k.ready + occurs id k.order = ground (arith, split id) in
      let closed : open_in edges k.order id ≡ 0 =
        ground (arith, inv.counted id, inv.settled id ready_now) in
      record {
        counted = λ x. ground (arith, inv.counted x, open_in-done edges k.order id x fresh);
        once = λ x. ground (arith, inv.once x, split x, occurs-append x k.order (id ∷ []));
        settled =
            λ x h. ground (arith, inv.settled x, split x, occurs-append x k.order (id ∷ []), h);
        known = λ x h. ground (arith, inv.known x, split x, occurs-append x k.order (id ∷ []), h);
        full = λ x here zero_left.
            ground (arith, inv.full x here zero_left, split x, occurs-append x k.order (id ∷ []));
        before = respects-append fs [] k.order id inv.before (
            done_within k.order (requires_of fs id) (λ dep h.
              all_done edges k.order id dep closed
                (graph.entries id dep (inv.known id ready_now) h)));
      }

  sorted : {k : Kahn} → Inv [] k → Inv [] (record k { ready = sort_texts k.ready })
  sorted {k} inv = record {
    counted = inv.counted;
    once = λ x. rw (occurs-sort_texts x k.ready) (inv.once x);
    settled = λ x h. inv.settled x (ground (arith, h, occurs-sort_texts x k.ready));
    known = λ x h. inv.known x (ground (arith, h, occurs-sort_texts x k.ready));
    full = λ x here zero_left. rw (occurs-sort_texts x k.ready) (inv.full x here zero_left);
    before = inv.before;
  }

  pub advance-Inv :
      (k : Kahn) (id : Text) (rest : List Text)
      → IsGraph
      → k.ready ≡ id ∷ rest
      → Inv [] k
      → Inv [] (advance edges k id rest)
  unfolding advance
  advance-Inv k id rest graph first inv =
      sorted (
        settle_all-Inv (children edges id) _ (graph.targets id) (pop-Inv k id rest graph first inv))

  pub run_kahn-Inv : (fuel : ℕ) (k : Kahn) → IsGraph → Inv [] k → Inv [] (run_kahn fuel edges k)
  unfolding run_kahn
  run_kahn-Inv zero k graph inv = inv
  run_kahn-Inv (suc fuel) k graph inv = elim (Nil-cases k.ready) [
    | inl empty ↦ rw (empty, run_kahn) inv
    | inr (id, rest, first) ↦
        rw (first, run_kahn)
          (run_kahn-Inv fuel (advance edges k id rest) graph
            (advance-Inv k id rest graph first inv))
  ]
