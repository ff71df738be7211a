-- ===== src/Modules/Order/Graph.antt =====
-- The counters and entries that the first loops of the ordering build.
use dyson_fs.Base.{
  Bool-cases, List, Result-cases, Text, [], any_row, arith, contains, count_rows, inl, inr, ok,
  ok_inj, put_row, refl, subst, suc, sym, text_discrete, true, ℕ, ◌++◌, ◌+◌, ◌<◌, ◌||◌, ◌∙◌, ◌∷◌,
  ◌≡◌, nat_eq, text_equality,
}
use dyson_fs.Modules.{Factory, requires_of}
use dyson_fs.Modules.Order.{Edge, count_of, count_edges, children, build_edges}
use dyson_fs.Modules.Order.Counts.{occurs, open_in, count_of-put_row}
use dyson_fs.Modules.Order.Before.{has_edge}

open_in-append :
    (s t : List Edge) (x : Text) → open_in (s ++ t) [] x ≡ open_in s [] x + open_in t [] x
unfolding open_in count_rows
open_in-append [] t x = omega arith
open_in-append (e ∷ s) t x = ground (arith, open_in-append s t x)

has_edge-append :
    (s t : List Edge) (dep id : Text)
    → has_edge (s ++ t) dep id ≡ (has_edge s dep id || has_edge t dep id)
unfolding has_edge any_row
has_edge-append [] t dep id = refl
has_edge-append (e ∷ s) t dep id = ground (arith, has_edge-append s t dep id)

children-append :
    (s t : List Edge) (id x : Text)
    → occurs x (children (s ++ t) id) ≡ occurs x (children s id) + occurs x (children t id)
unfolding children occurs count_rows
children-append [] t id x = omega arith
children-append (e ∷ s) t id x = ground (arith, children-append s t id x)

unfoldable pub keys : List (Text × ℕ) → List Text
keys [] = []
keys (row ∷ counts) = row.0 ∷ keys counts

keys-put_row :
    (id : Text) (n : ℕ) (counts : List (Text × ℕ))
    → contains (keys counts) id ≡ true
    → keys (put_row id n counts) ≡ keys counts
unfolding keys put_row contains
keys-put_row id n [] h = absurd (ground arith)
keys-put_row id n (row ∷ counts) h = elim (text_discrete row.0 id) [
  | yes same ↦ ground (arith, same)
  | no other ↦ ground (arith, h, other, keys-put_row id n counts)
]

module _ (fs : List Factory) (selected : List Text) where
  -- The counters are those of the selected modules and agree with the entries, which lead from
  -- their selected dependencies to them.
  pub record Built (counts : List (Text × ℕ)) (edges : List Edge) : Type 0 where
    pub keyed : keys counts ≡ selected
    pub agree : (x : Text) → count_of counts x ≡ open_in edges [] x
    pub targets :
        (id child : Text) → 0 < occurs child (children edges id) → contains selected child ≡ true
    pub sources :
        (dep id : Text)
        → has_edge edges dep id ≡ true
        → (contains (requires_of fs id) dep ≡ true) × (contains selected dep ≡ true)

  one_source :
      (id dep : Text) (edges : List Edge) (d i : Text)
      → contains (requires_of fs id) dep ≡ true
      → contains selected dep ≡ true
      → (has_edge edges d i ≡ true
          → (contains (requires_of fs i) d ≡ true) × (contains selected d ≡ true))
      → has_edge (edges ++ (dep, id) ∷ []) d i ≡ true
      → (contains (requires_of fs i) d ≡ true) × (contains selected d ≡ true)
  unfolding has_edge any_row
  one_source id dep edges d i needs there old h = elim (Bool-cases (has_edge edges d i)) [
    | inl earlier ↦ old earlier
    | inr fresh ↦
        let split = has_edge-append edges ((dep, id) ∷ []) d i in
        let same_dep : dep ≡ d = ground (arith, split, h, fresh) in
        let same_id : id ≡ i = ground (arith, split, h, fresh) in
        (
          subst (λ y. contains (requires_of fs y) d ≡ true) same_id
              (subst (λ y. contains (requires_of fs id) y ≡ true) same_dep needs),
          subst (λ y. contains selected y ≡ true) same_dep there,
        )
  ]

  one_more :
      (id dep : Text) (counts : List (Text × ℕ)) (edges : List Edge)
      → contains selected id ≡ true
      → contains (requires_of fs id) dep ≡ true
      → contains selected dep ≡ true
      → Built counts edges
      → Built (put_row id (suc (count_of counts id)) counts) (edges ++ (dep, id) ∷ [])
  unfolding open_in count_rows occurs children
  one_more id dep counts edges inside needs there built = record {
    keyed = keys-put_row id (suc (count_of counts id)) counts (rw built.keyed inside) ∙ built.keyed;
    sources = λ d i h. one_source id dep edges d i needs there (built.sources d i) h;
    agree = λ x. ground (
      arith,
      count_of-put_row x id (suc (count_of counts id)) counts,
      built.agree x,
      open_in-append edges ((dep, id) ∷ []) x,
    );
    targets = λ i c h.
        ground (arith, built.targets i c, children-append edges ((dep, id) ∷ []) i c, inside, h);
  }

  abbrev pub Grows : List Edge → List Edge → Type 0
  Grows s t = (dep id : Text) → has_edge s dep id ≡ true → has_edge t dep id ≡ true

  has_one : (dep id : Text) (edges : List Edge) → has_edge (edges ++ (dep, id) ∷ []) dep id ≡ true
  unfolding has_edge any_row
  has_one dep id edges = ground (arith, has_edge-append edges ((dep, id) ∷ []) dep id)

  count_edges-Built :
      (id : Text) (deps : List Text) (counts : List (Text × ℕ)) (edges : List Edge)
      (r : List (Text × ℕ) × List Edge)
      → contains selected id ≡ true
      → ((dep : Text) → contains deps dep ≡ true → contains (requires_of fs id) dep ≡ true)
      → Built counts edges
      → count_edges selected id deps counts edges ≡ ok r
      → Built r.0 r.1
        × Grows edges r.1
        × ((dep : Text) → contains deps dep ≡ true → has_edge r.1 dep id ≡ true)
  unfolding count_edges contains
  count_edges-Built id [] counts edges r inside listed built h =
      subst
        (λ p.
          Built p.0 p.1
          × Grows edges p.1
          × ((dep : Text) → contains [] dep ≡ true → has_edge p.1 dep id ≡ true))
        (ok_inj h) (built, λ dep i k. k, λ dep k. absurd (ground arith))
  count_edges-Built id (dep ∷ deps) counts edges r inside listed built h =
      elim (Bool-cases (contains selected dep)) [
        | inr absent ↦ absurd (ground (arith, h, absent))
        | inl there ↦
            let more = edges ++ (dep, id) ∷ [] in
            let (built', grows, rest) =
              count_edges-Built id deps (put_row id (suc (count_of counts id)) counts) more r inside
                (λ d k. listed d (ground (arith, k)))
                (one_more id dep counts edges inside (listed dep (ground arith)) there built)
                (ground (arith, h, there)) in
            (
              built',
              λ d i k. grows d i (ground (arith, k, has_edge-append edges ((dep, id) ∷ []) d i)),
              λ d k. elim (text_discrete dep d) [
                | yes same ↦
                    subst (λ y. has_edge r.1 y id ≡ true) same (grows dep id (has_one dep id edges))
                | no other ↦ rest d (ground (arith, k, other))
              ],
            )
      ]

  pub build_edges-Built :
      (ids : List Text) (counts : List (Text × ℕ)) (edges : List Edge)
      (r : List (Text × ℕ) × List Edge)
      → ((id : Text) → contains ids id ≡ true → contains selected id ≡ true)
      → Built counts edges
      → build_edges fs selected ids counts edges ≡ ok r
      → Built r.0 r.1
        × Grows edges r.1
        × ((id dep : Text)
            → contains ids id ≡ true
            → contains (requires_of fs id) dep ≡ true
            → has_edge r.1 dep id ≡ true)
  unfolding build_edges contains
  build_edges-Built [] counts edges r inside built h =
      subst
        (λ p.
          Built p.0 p.1
          × Grows edges p.1
          × ((id dep : Text)
              → contains [] id ≡ true
              → contains (requires_of fs id) dep ≡ true
              → has_edge p.1 dep id ≡ true))
        (ok_inj h) (built, λ dep i k. k, λ i dep k. absurd (ground arith))
  build_edges-Built (id ∷ ids) counts edges r inside built h =
      elim (Result-cases (count_edges selected id (requires_of fs id) counts edges)) [
        | inl (e, bad) ↦ absurd (ground (arith, h, bad))
        | inr (m, mid) ↦
            let (built', grows, mine) =
              count_edges-Built id (requires_of fs id) counts edges m (inside id (ground arith))
                (λ d k. k) built mid in
            let (built'', grows', rest) =
              build_edges-Built ids m.0 m.1 r (λ x k. inside x (ground (arith, k))) built'
                (ground (arith, h, mid)) in
            (
              built'',
              λ d i k. grows' d i (grows d i k),
              λ i d k needs. elim (text_discrete id i) [
                | yes same ↦ grows' d i (
                    subst (λ y. has_edge m.1 d y ≡ true) same
                      (mine d (subst (λ y. contains (requires_of fs y) d ≡ true) (sym same) needs)))
                | no other ↦ rest i d (ground (arith, k, other)) needs
              ],
            )
      ]
