-- ===== src/Modules/Cascade.antt =====
-- What the cascade leaves selected: the largest set of modules whose dependencies are all in it.
use dyson_fs.Base.{
  Bool, List, Option-cases, Text, [], ap, arith, contains, false, inl, inr, keep, length, none, not,
  refl, some, subst, suc, text_discrete, true, zero, ℕ, ℕ_discrete, ◌&&◌, ◌<◌, ◌==◌, ◌∷◌, ◌≡◌, ◌≢◌,
  ◌≤◌, nat_eq, text_equality,
}
use dyson_fs.Modules.{Factory, sweep, requires_of, remove, missing, cascade}

-- Every listed id is selected.
unfoldable pub within : List Text → List Text → Bool
within selected [] = true
within selected (id ∷ ids) = contains selected id && within selected ids

-- Every dependency of the listed modules is selected.
unfoldable pub satisfied : List Factory → List Text → List Text → Bool
satisfied fs selected [] = true
satisfied fs selected (id ∷ ids) = within selected (requires_of fs id) && satisfied fs selected ids

-- Every id of the first list is in the second one.
unfoldable pub Sub : List Text → List Text → Type 0
Sub t selected = (x : Text) → contains t x ≡ true → contains selected x ≡ true

pub contains-remove :
    (id x : Text) (l : List Text) → contains (remove id l) x ≡ (contains l x && not (x == id))
unfolding remove keep contains
contains-remove id x [] = refl
contains-remove id x (y ∷ l) = ground (arith, contains-remove id x l)

length-remove : (id : Text) (l : List Text) → length (remove id l) ≤ length l
unfolding remove keep
length-remove id [] = omega arith
length-remove id (y ∷ l) = ground (arith, length-remove id l)

length-remove_member :
    (id : Text) (l : List Text) → contains l id ≡ true → length (remove id l) < length l
unfolding remove keep contains
length-remove_member id [] h = absurd (ground arith)
length-remove_member id (y ∷ l) h = ground (arith, length-remove id l, length-remove_member id l)

missing-none :
    (selected deps : List Text) → missing selected deps ≡ none → within selected deps ≡ true
unfolding missing within
missing-none selected [] h = refl
missing-none selected (dep ∷ deps) h = ground (arith, missing-none selected deps)

missing-some :
    (selected deps : List Text) (dep : Text)
    → missing selected deps ≡ some dep
    → within selected deps ≡ false
unfolding missing within
missing-some selected [] dep h = cc
missing-some selected (d ∷ deps) dep h = ground (arith, missing-some selected deps dep)

within_mono :
    (small large : List Text) (ids : List Text)
    → Sub small large
    → within small ids ≡ true
    → within large ids ≡ true
unfolding within Sub
within_mono small large [] sub h = refl
within_mono small large (id ∷ ids) sub h = ground (arith, sub id, within_mono small large ids sub)

-- A round that drops nothing leaves the selection as it was, with its dependencies satisfied.
sweep-quiet :
    (fs : List Factory) (ids selected : List Text)
    → length (sweep fs ids selected).dropped ≡ 0
    → ((sweep fs ids selected).left ≡ selected) × (satisfied fs selected ids ≡ true)
unfolding sweep satisfied
sweep-quiet fs [] selected h = ground arith
sweep-quiet fs (id ∷ ids) selected h =
    ground (arith, missing-none selected (requires_of fs id), sweep-quiet fs ids selected)

sweep-sub :
    (fs : List Factory) (ids selected : List Text) (x : Text)
    → contains (sweep fs ids selected).left x ≡ true
    → contains selected x ≡ true
unfolding sweep
sweep-sub fs [] selected x h = h
sweep-sub fs (id ∷ ids) selected x h = ground (
  arith,
  contains-remove id x selected,
  sweep-sub fs ids selected x,
  sweep-sub fs ids (remove id selected) x,
)

sweep-length :
    (fs : List Factory) (ids selected : List Text)
    → length (sweep fs ids selected).left ≤ length selected
unfolding sweep
sweep-length fs [] selected = omega arith
sweep-length fs (id ∷ ids) selected = ground (
  arith,
  length-remove id selected,
  sweep-length fs ids selected,
  sweep-length fs ids (remove id selected),
)

sweep-shorter :
    (fs : List Factory) (ids selected : List Text)
    → within selected ids ≡ true
    → 0 < length (sweep fs ids selected).dropped
    → length (sweep fs ids selected).left < length selected
unfolding sweep within
sweep-shorter fs [] selected inside h = absurd (omega arith)
sweep-shorter fs (id ∷ ids) selected inside h = ground (
  arith,
  length-remove_member id selected,
  sweep-length fs ids (remove id selected),
  sweep-shorter fs ids selected,
)

satisfied-at :
    (fs : List Factory) (t ids : List Text) (id : Text)
    → satisfied fs t ids ≡ true
    → contains ids id ≡ true
    → within t (requires_of fs id) ≡ true
unfolding satisfied contains
satisfied-at fs t [] id h k = absurd (ground arith)
satisfied-at fs t (x ∷ ids) id h k = elim (text_discrete x id) [
  | yes same ↦ ground (arith, ap (λ y. within t (requires_of fs y)) same)
  | no other ↦ ground (arith, satisfied-at fs t ids id)
]

within_self : (ids selected : List Text) → Sub ids selected → within selected ids ≡ true
unfolding within Sub contains
within_self [] selected h = refl
within_self (id ∷ ids) selected h =
    ground (arith, h id, within_self ids selected (λ x k. h x (ground arith)))

removed-Sub :
    (fs : List Factory) (t selected : List Text) (id dep : Text)
    → satisfied fs t t ≡ true
    → Sub t selected
    → missing selected (requires_of fs id) ≡ some dep
    → Sub t (remove id selected)
unfolding Sub
removed-Sub fs t selected id dep closed sub gap x h = elim (text_discrete x id) [
  | yes same ↦
      let all =
        within_mono t selected (requires_of fs id) sub
          (satisfied-at fs t t id closed (subst (λ y. contains t y ≡ true) same h)) in
      absurd (ground (arith, all, missing-some selected (requires_of fs id) dep gap))
  | no other ↦ ground (arith, contains-remove id x selected, sub x h)
]

sweep-Sub :
    (fs : List Factory) (t ids selected : List Text)
    → satisfied fs t t ≡ true
    → Sub t selected
    → Sub t (sweep fs ids selected).left
unfolding sweep Sub
sweep-Sub fs t [] selected closed sub = sub
sweep-Sub fs t (id ∷ ids) selected closed sub =
    elim (Option-cases (missing selected (requires_of fs id))) [
      | inl met ↦ rw (met, sweep) (sweep-Sub fs t ids selected closed sub)
      | inr (dep, gap) ↦
          rw (gap, sweep)
            (sweep-Sub fs t ids (remove id selected) closed
              (removed-Sub fs t selected id dep closed sub gap))
    ]

Sub-refl : (t : List Text) → Sub t t
unfolding Sub
Sub-refl t x h = h

cascade-done :
    (fs : List Factory) (t selected : List Text)
    → Sub t selected
    → Sub t (cascade 0 fs selected).left
unfolding cascade
cascade-done fs t selected sub = sub

cascade-start :
    (fs : List Factory) (selected : List Text) (x : Text)
    → contains (cascade 0 fs selected).left x ≡ true
    → contains selected x ≡ true
unfolding cascade
cascade-start fs selected x h = h

cascade-quiet :
    (fuel : ℕ) (fs : List Factory) (selected : List Text)
    → length (sweep fs selected selected).dropped ≡ 0
    → (cascade (suc fuel) fs selected).left ≡ selected
unfolding cascade
cascade-quiet fuel fs selected h = ground (arith, sweep-quiet fs selected selected h)

cascade-busy :
    (fuel : ℕ) (fs : List Factory) (selected : List Text)
    → length (sweep fs selected selected).dropped ≢ 0
    → (cascade (suc fuel) fs selected).left
      ≡ (cascade fuel fs (sweep fs selected selected).left).left
unfolding cascade
cascade-busy fuel fs selected h = ground arith

-- With more rounds than selected modules the cascade ends with a selection that is closed: every
-- dependency of every module in it is selected too, whatever the first selection was.
pub cascade-satisfied :
    (fuel : ℕ) (fs : List Factory) (selected : List Text)
    → length selected < fuel
    → satisfied fs (cascade fuel fs selected).left (cascade fuel fs selected).left ≡ true
cascade-satisfied zero fs selected h = absurd (omega arith)
cascade-satisfied (suc fuel) fs selected h =
    elim (ℕ_discrete (length (sweep fs selected selected).dropped) 0) [
      | yes quiet ↦
          rw (cascade-quiet fuel fs selected quiet) (sweep-quiet fs selected selected quiet).1
      | no busy ↦ rw (cascade-busy fuel fs selected busy) (
          cascade-satisfied fuel fs (sweep fs selected selected).left (
            omega (
              arith,
              h,
              sweep-shorter fs selected selected (within_self selected selected (Sub-refl selected))
                  (omega (arith, busy)),
            )))
    ]

-- The cascade drops no more than it must: a set of selected modules whose dependencies are all in
-- the set stays selected, in whatever order the list holds the selected modules and for every
-- number of rounds.
pub cascade-largest :
    (fuel : ℕ) (fs : List Factory) (t selected : List Text)
    → satisfied fs t t ≡ true
    → Sub t selected
    → Sub t (cascade fuel fs selected).left
cascade-largest zero fs t selected closed sub = cascade-done fs t selected sub
cascade-largest (suc fuel) fs t selected closed sub =
    elim (ℕ_discrete (length (sweep fs selected selected).dropped) 0) [
      | yes quiet ↦ rw (cascade-quiet fuel fs selected quiet) sub
      | no busy ↦ rw (cascade-busy fuel fs selected busy) (
          cascade-largest fuel fs t (sweep fs selected selected).left closed
            (sweep-Sub fs t selected selected closed sub))
    ]

pub cascade-Sub :
    (fuel : ℕ) (fs : List Factory) (selected : List Text) (x : Text)
    → contains (cascade fuel fs selected).left x ≡ true
    → contains selected x ≡ true
cascade-Sub zero fs selected x h = cascade-start fs selected x h
cascade-Sub (suc fuel) fs selected x h =
    elim (ℕ_discrete (length (sweep fs selected selected).dropped) 0) [
      | yes quiet ↦ subst (λ l. contains l x ≡ true) (cascade-quiet fuel fs selected quiet) h
      | no busy ↦ sweep-sub fs selected selected x (
          cascade-Sub fuel fs (sweep fs selected selected).left x
            (subst (λ l. contains l x ≡ true) (cascade-busy fuel fs selected busy) h))
    ]
