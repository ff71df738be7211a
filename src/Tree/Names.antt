-- ===== src/Tree/Names.antt =====
-- The normalization of a list of ids.
use dyson_fs.Base.{
  Bool, List, Text, [], ap, arith, contains, false, if◌then◌else◌, inl, inr, subst, sym,
  text_discrete, trim_space, trim_space-trim_space, true, ◌==◌, ◌||◌, ◌↔◌, ◌∙◌, ◌∷◌, ◌≡◌, ◌≢◌, ◌⊎◌,
  nat_eq, text_equality,
}
use dyson_fs.Tree.{normalize_ids}

contains_here : (id x : Text) (l : List Text) → id ≡ x → contains (id ∷ l) x ≡ true
unfolding contains
contains_here id x l h = ground (arith, h)

contains_other : (id x : Text) (l : List Text) → id ≢ x → contains (id ∷ l) x ≡ contains l x
unfolding contains
contains_other id x l h = ground (arith, h)

-- The id that stands first after a step of the loop, or the rest of the list.
step_cases :
    (skip : Bool) (id x : Text) (rest more : List Text)
    → contains (if skip then rest else id ∷ more) x ≡ true
    → (contains rest x ≡ true) ⊎ ((skip ≡ false) × ((id ≡ x) ⊎ (contains more x ≡ true)))
unfolding contains
step_cases true id x rest more h = inl h
step_cases false id x rest more h = ground (arith, h)

step_first :
    (skip : Bool) (id x : Text) (rest more : List Text)
    → skip ≡ false
    → id ≡ x
    → contains (if skip then rest else id ∷ more) x ≡ true
step_first skip id x rest more fresh same = rw fresh (contains_here id x more same)

pub contains_nil : (x : Text) → contains [] x ≡ true → ⊥
unfolding contains
contains_nil x h = absurd (ground arith)

step_keeps :
    (skip : Bool) (id x : Text) (rest more : List Text)
    → contains rest x ≡ true
    → contains more x ≡ true
    → contains (if skip then rest else id ∷ more) x ≡ true
unfolding contains
step_keeps true id x rest more h k = h
step_keeps false id x rest more h k = ground (arith, k)

unfoldable pub skips : List Text → Text → Bool
skips seen id = (id == []) || contains seen id

pub skips-false :
    (seen : List Text) (id : Text)
    → (skips seen id ≡ false) ↔ (((id == []) ≡ false) × (contains seen id ≡ false))
unfolding skips
skips-false seen id = ground arith

contains_tail : (id x : Text) (l : List Text) → contains (id ∷ l) x ≡ false → contains l x ≡ false
unfolding contains
contains_tail id x l h = ground arith

-- Normalized ids are trimmed, not empty, and not among those seen before.
pub normalize_ids-clean :
    (seen raw : List Text) (x : Text)
    → contains (normalize_ids seen raw) x ≡ true
    → (trim_space x ≡ x) × (skips seen x ≡ false)
unfolding normalize_ids skips
normalize_ids-clean seen [] x h = absurd (contains_nil x h)
normalize_ids-clean seen (r ∷ raw) x h =
    elim (step_cases (skips seen (trim_space r)) (trim_space r) x (normalize_ids seen raw)
      (normalize_ids (trim_space r ∷ seen) raw) h) [
        | inl k ↦ normalize_ids-clean seen raw x k
        | inr (fresh, inl same) ↦ (
          subst (λ y. trim_space y ≡ y) same (trim_space-trim_space r),
          subst (λ y. skips seen y ≡ false) same fresh,
        )
        | inr (fresh, inr k) ↦
            let later = normalize_ids-clean (trim_space r ∷ seen) raw x k in
            let parts = (skips-false (trim_space r ∷ seen) x).0 later.1 in
            (later.0, (skips-false seen x).1 (parts.0, contains_tail (trim_space r) x seen parts.1))
      ]

pub normalize_ids-keeps :
    (seen ids : List Text) (x : Text)
    → trim_space x ≡ x
    → skips seen x ≡ false
    → contains ids x ≡ true
    → contains (normalize_ids seen ids) x ≡ true
unfolding normalize_ids skips
normalize_ids-keeps seen [] x fixed fresh h = absurd (contains_nil x h)
normalize_ids-keeps seen (r ∷ ids) x fixed fresh h = elim (text_discrete (trim_space r) x) [
  | yes same ↦
      let kept : skips seen (trim_space r) ≡ false =
        subst (λ y. skips seen y ≡ false) (sym same) fresh in
      step_first (skips seen (trim_space r)) (trim_space r) x (normalize_ids seen ids)
        (normalize_ids (trim_space r ∷ seen) ids) kept same
  | no other ↦
      let differs : r ≢ x = λ e. other (ap trim_space e ∙ fixed) in
      let inside = sym (contains_other r x ids differs) ∙ h in
      let parts = (skips-false seen x).0 fresh in
      step_keeps (skips seen (trim_space r)) (trim_space r) x (normalize_ids seen ids)
        (normalize_ids (trim_space r ∷ seen) ids)
        (normalize_ids-keeps seen ids x fixed fresh inside)
        (normalize_ids-keeps (trim_space r ∷ seen) ids x fixed
          ((skips-false (trim_space r ∷ seen) x).1
            (parts.0, contains_other (trim_space r) x seen other ∙ parts.1))
          inside)
]
