-- ===== src/Modules/Resolve.antt =====
-- internal/module/resolve.go: Resolve from the configuration to the ordered factories.
use dyson_fs.Base.{
  Bool, List, Result-cases, Text, [], ap, arith, contains, count_rows, find_first, if◌then◌else◌,
  inl, inr, keep, length, none, ok, ok_inj, refl, some, subst, suc, text_discrete, true, zero, ℕ,
  ◌+◌, ◌<◌, ◌∷◌, ◌≡◌, ◌≤◌, nat_eq, text_equality,
}
use dyson_fs.Modules.{
  Factory, by_id, check_ids, remove, seeded, ids_of, disable, Swept, sweep, cascade, select,
  ResolveError,
}
use dyson_fs.Modules.Cascade.{satisfied}
use dyson_fs.Modules.Selection.{select-steps, select-satisfied}
use dyson_fs.Modules.Order.{factories_of, topological_order, Resolution, resolve}
use dyson_fs.Modules.Order.Counts.{occurs}
use dyson_fs.Modules.Order.Before.{respects}
use dyson_fs.Modules.Order.Complete.{topological_order-respects, Ranked, topological_order_complete}

check_ids-distinct :
    (fs : List Factory) (seen : List Text) (x : Text)
    → check_ids fs seen ≡ none
    → occurs x (ids_of fs) + (if contains seen x then 1 else 0) ≤ 1
unfolding check_ids ids_of occurs count_rows contains
check_ids-distinct [] seen x h = ground arith
check_ids-distinct (f ∷ fs) seen x h =
    ground (arith, h, check_ids-distinct fs (f.factory_id ∷ seen) x)

occurs-keep :
    (p : Factory → Bool) (fs : List Factory) (x : Text)
    → occurs x (ids_of (keep p fs)) ≤ occurs x (ids_of fs)
unfolding keep ids_of occurs count_rows
occurs-keep p [] x = omega arith
occurs-keep p (f ∷ fs) x = ground (arith, occurs-keep p fs x)

occurs-remove : (id x : Text) (l : List Text) → occurs x (remove id l) ≤ occurs x l
unfolding remove keep occurs count_rows
occurs-remove id x [] = omega arith
occurs-remove id x (y ∷ l) = ground (arith, occurs-remove id x l)

occurs-disable :
    (fs : List Factory) (off selected r : List Text) (x : Text)
    → disable fs off selected ≡ ok r
    → occurs x r ≤ occurs x selected
unfolding disable
occurs-disable fs [] selected r x h = ground (arith, ap (occurs x) (ok_inj h))
occurs-disable fs (id ∷ off) selected r x h =
    ground (arith, h, occurs-remove id x selected, occurs-disable fs off (remove id selected) r x)

occurs-sweep :
    (fs : List Factory) (ids selected : List Text) (x : Text)
    → occurs x (sweep fs ids selected).left ≤ occurs x selected
unfolding sweep
occurs-sweep fs [] selected x = omega arith
occurs-sweep fs (id ∷ ids) selected x = ground (
  arith,
  occurs-remove id x selected,
  occurs-sweep fs ids selected x,
  occurs-sweep fs ids (remove id selected) x,
)

occurs-cascade :
    (fuel : ℕ) (fs : List Factory) (selected : List Text) (x : Text)
    → occurs x (cascade fuel fs selected).left ≤ occurs x selected
unfolding cascade
occurs-cascade zero fs selected x = omega arith
occurs-cascade (suc fuel) fs selected x = ground (
  arith,
  occurs-sweep fs selected selected x,
  occurs-cascade fuel fs (sweep fs selected selected).left x,
)

-- An accepted selection holds ids of the factories, none twice.
select-distinct :
    (fs : List Factory) (enabled disabled : List Text) (r : Swept) (x : Text)
    → select fs enabled disabled ≡ ok r
    → (occurs x r.left ≤ occurs x (ids_of fs)) × (occurs x (ids_of fs) ≤ 1)
select-distinct fs enabled disabled r x h =
    let (off, first, selected, off_ok, fine, on, seeds, done, same) =
      select-steps fs enabled disabled r h in
    (
      ground (
        arith,
        occurs-cascade (suc (length selected)) fs selected x,
        ap (λ (s : Swept). occurs x s.left) same,
        occurs-disable fs off first selected x done,
        ap (occurs x) seeds,
        occurs-keep (seeded on) fs x,
      ),
      ground (arith, check_ids-distinct fs [] x fine),
    )

by_id-there :
    (fs : List Factory) (id : Text)
    → 0 < occurs id (ids_of fs)
    → (f : Factory) × (by_id fs id ≡ some f) × (f.factory_id ≡ id)
unfolding by_id find_first ids_of occurs count_rows
by_id-there [] id h = absurd (omega (arith, h))
by_id-there (f ∷ fs) id h = elim (text_discrete f.factory_id id) [
  | yes same ↦ (f, ground (arith, same), same)
  | no other ↦
      let (g, found, named) = by_id-there fs id (ground (arith, h, other)) in
      (g, ground (arith, other, found), named)
]

ids_of-factories_of :
    (fs : List Factory) (order : List Text)
    → ((x : Text) → 0 < occurs x order → 0 < occurs x (ids_of fs))
    → ids_of (factories_of fs order) ≡ order
unfolding factories_of ids_of occurs count_rows
ids_of-factories_of fs [] h = refl
ids_of-factories_of fs (id ∷ order) h =
    let (f, found, named) = by_id-there fs id (h id (ground arith)) in
    let rest = ids_of-factories_of fs order (λ x k. h x (ground (arith, k))) in
    rw (found, factories_of, named, rest) refl

resolve-steps :
    (fs : List Factory) (enabled disabled : List Text) (res : Resolution)
    → resolve fs enabled disabled ≡ ok res
    → (r : Swept) × (order : List Text) × (select fs enabled disabled ≡ ok r)
      × (topological_order fs r.left ≡ ok order)
      × (record { factories = factories_of fs order; enabled = r.left; warnings = r.dropped } ≡ res)
unfolding resolve
resolve-steps fs enabled disabled res h = elim (Result-cases (select fs enabled disabled)) [
  | inl (e, bad) ↦ absurd (ground (arith, h, bad))
  | inr (r, chosen) ↦ elim (Result-cases (topological_order fs r.left)) [
    | inl (e, bad) ↦ absurd (ground (arith, h, chosen, bad))
    | inr (order, sorted) ↦
        (r, order, chosen, sorted, ok_inj {E = ResolveError} (ground (arith, h, chosen, sorted)))
  ]
]

-- Resolve, when it accepts a configuration, returns the factories of the enabled modules, each
-- once and no others, in an order in which every module stands behind all the modules that it
-- requires, so that all of those are enabled too.
pub resolve-respects :
    (fs : List Factory) (enabled disabled : List Text) (res : Resolution)
    → resolve fs enabled disabled ≡ ok res
    → (respects fs [] (ids_of res.factories) ≡ true)
      × ((x : Text) → occurs x (ids_of res.factories) ≡ occurs x res.enabled)
      × ((x : Text) → occurs x res.enabled ≤ 1)
      × (satisfied fs res.enabled res.enabled ≡ true)
resolve-respects fs enabled disabled res h =
    let (r, order, chosen, sorted, same) = resolve-steps fs enabled disabled res h in
    let few = λ (x : Text). select-distinct fs enabled disabled r x chosen in
    let distinct : (x : Text) → occurs x r.left ≤ 1 = λ x. omega (arith, few x) in
    let (behind, all) = topological_order-respects fs r.left order distinct sorted in
    let listed = ids_of-factories_of fs order (λ x k. omega (arith, k, all x, few x)) in
    subst
      (λ (res : Resolution).
        (respects fs [] (ids_of res.factories) ≡ true)
        × ((x : Text) → occurs x (ids_of res.factories) ≡ occurs x res.enabled)
        × ((x : Text) → occurs x res.enabled ≤ 1)
        × (satisfied fs res.enabled res.enabled ≡ true))
      same
      (
        rw listed behind,
        λ x. rw listed (all x),
        distinct,
        select-satisfied fs enabled disabled r chosen,
      )

-- Resolve accepts every configuration whose selection it accepts, when the dependencies among the
-- selected modules have no cycle (their ranks grow from a dependency to its dependents): the loop
-- of the ordering ends, the modules that it enables are those of the selection.
pub resolve_complete :
    (fs : List Factory) (enabled disabled : List Text) (r : Swept) (rank : Text → ℕ)
    → select fs enabled disabled ≡ ok r
    → Ranked fs r.left rank
    → (res : Resolution) × (resolve fs enabled disabled ≡ ok res) × (res.enabled ≡ r.left)
unfolding resolve
resolve_complete fs enabled disabled r rank chosen ranked =
    let (order, sorted) =
      topological_order_complete fs r.left rank
        (λ x. omega (arith, select-distinct fs enabled disabled r x chosen))
        (select-satisfied fs enabled disabled r chosen) ranked in
    (
      record { factories = factories_of fs order; enabled = r.left; warnings = r.dropped },
      ground (arith, chosen, sorted),
      refl,
    )
