-- ===== src/Modules/Selection.antt =====
-- What a configuration selects.
use dyson_fs.Base.{
  List, Option-cases, Result-cases, Text, [], ap, arith, contains, false, inl, inr, keep, length,
  none, ok, refl, subst, suc, sym, text_discrete, true, ◌∷◌, ◌≡◌, nat_eq, text_equality,
}
use dyson_fs.Modules.{
  Factory, select, is_required, disable, Swept, remove, check_ids, normalize, seeded, ids_of,
  cascade,
}
use dyson_fs.Modules.Cascade.{satisfied, contains-remove, cascade-satisfied, cascade-Sub}

disable-sub :
    (fs : List Factory) (off selected r : List Text) (id : Text)
    → disable fs off selected ≡ ok r
    → contains r id ≡ true
    → contains selected id ≡ true
unfolding disable
disable-sub fs [] selected r id h k = ground arith
disable-sub fs (x ∷ off) selected r id h k =
    ground (arith, disable-sub fs off (remove x selected) r id, contains-remove x id selected)

disable-gone :
    (fs : List Factory) (off selected r : List Text) (id : Text)
    → disable fs off selected ≡ ok r
    → contains off id ≡ true
    → (is_required fs id ≡ false) × (contains r id ≡ false)
unfolding disable contains
disable-gone fs [] selected r id h k = absurd (ground arith)
disable-gone fs (x ∷ off) selected r id h k = elim (text_discrete x id) [
  | yes same ↦
      let gone : contains (remove x selected) id ≡ false =
        ground (arith, contains-remove x id selected, sym same) in
      ground (arith, gone, disable-sub fs off (remove x selected) r id, ap (is_required fs) same)
  | no other ↦ ground (arith, disable-gone fs off (remove x selected) r id)
]

-- The list of disabled modules and the selection that an accepted configuration leads to.
pub select-steps :
    (fs : List Factory) (enabled disabled : List Text) (r : Swept)
    → select fs enabled disabled ≡ ok r
    → (off : List Text) × (first : List Text) × (selected : List Text) × (normalize fs disabled []
        ≡ ok off)
      × (check_ids fs [] ≡ none)
      × (on : List Text) × (first ≡ ids_of (keep (seeded on) fs))
      × (disable fs off first ≡ ok selected)
      × (cascade (suc (length selected)) fs selected ≡ r)
unfolding select
select-steps fs enabled disabled r h = elim (Option-cases (check_ids fs [])) [
  | inr (e, bad) ↦ absurd (ground arith)
  | inl fine ↦ elim (Result-cases (normalize fs enabled [])) [
    | inl (e, bad) ↦ absurd (ground arith)
    | inr (on, on_ok) ↦ elim (Result-cases (normalize fs disabled [])) [
      | inl (e, bad) ↦ absurd (ground arith)
      | inr (off, off_ok) ↦ elim (Result-cases (disable fs off (ids_of (keep (seeded on) fs)))) [
        | inl (e, bad) ↦ absurd (ground arith)
        | inr (selected, done) ↦ (
          off,
          ids_of (keep (seeded on) fs),
          selected,
          off_ok,
          fine,
          on,
          refl,
          done,
          ground arith,
        )
      ]
    ]
  ]
]

-- A configuration that is accepted selects modules whose dependencies are selected too.
pub select-satisfied :
    (fs : List Factory) (enabled disabled : List Text) (r : Swept)
    → select fs enabled disabled ≡ ok r
    → satisfied fs r.left r.left ≡ true
select-satisfied fs enabled disabled r h =
    let (off, first, selected, off_ok, fine, on, seeds, done, same) =
      select-steps fs enabled disabled r h in
    subst (λ x. satisfied fs x.left x.left ≡ true) same
      (cascade-satisfied (suc (length selected)) fs selected (omega arith))

-- A module whose id is among the normalized disabled ids of an accepted configuration is not a
-- required one and is not selected.
pub select-disabled :
    (fs : List Factory) (enabled disabled off : List Text) (r : Swept) (id : Text)
    → select fs enabled disabled ≡ ok r
    → normalize fs disabled [] ≡ ok off
    → contains off id ≡ true
    → (is_required fs id ≡ false) × (contains r.left id ≡ false)
select-disabled fs enabled disabled off r id h named k =
    let (off', first, selected, off_ok, fine, on, seeds, done, same) =
      select-steps fs enabled disabled r h in
    let gone = disable-gone fs off' first selected id done (ground (arith, named, off_ok, k)) in
    let sub = cascade-Sub (suc (length selected)) fs selected id in
    (gone.0, subst (λ x. contains x.left id ≡ false) same (ground (arith, gone.1, sub)))
