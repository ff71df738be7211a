-- ===== src/S3/Signing/Request/Sorting.antt =====
-- The canonical query does not depend on the order in which Go visits the map of the parsed query.
use mathlib.Core.List.{Perm, foldr}
use mathlib.Core.List.Perm
use dyson_fs.Base.{
  Bool-cases, List, Text, [], ap, arith, codes, false, inl, inr, map, refl, sym, text_leb_antisymm,
  text_leb_total, text_leb_trans, true, ◌++◌, ◌∙◌, ◌∷◌, ◌≡◌,
}
use dyson_fs.S3.Signing.Request.{
  pair_leb, insert_pair, sort_pairs, join, encode_pair, canonical_pairs,
}

pair_leb_total : (p q : Text × Text) → pair_leb p q ≡ false → pair_leb q p ≡ true
unfolding pair_leb
pair_leb_total p q h = ground (arith, h, text_leb_total p.0 q.0, text_leb_total p.1 q.1)

pair_leb_antisymm : (p q : Text × Text) → pair_leb p q ≡ true → pair_leb q p ≡ true → p ≡ q
unfolding pair_leb
pair_leb_antisymm p q h k =
    let firsts : p.0 ≡ q.0 = ground (arith, h, k, text_leb_antisymm p.0 q.0) in
    let seconds : p.1 ≡ q.1 = ground (arith, h, k, firsts, text_leb_antisymm p.1 q.1) in
    λ i. (firsts i, seconds i)

pair_leb_trans :
    (p q r : Text × Text) → pair_leb p q ≡ true → pair_leb q r ≡ true → pair_leb p r ≡ true
unfolding pair_leb
pair_leb_trans p q r h k =
    ground (
      arith,
      h,
      k,
      text_leb_trans p.0 q.0 r.0,
      text_leb_trans p.1 q.1 r.1,
      text_leb_antisymm p.0 q.0,
    )

-- Two insertions commute, where the first pair is strictly before the second one.
insert_before :
    (p q : Text × Text) (l : List (Text × Text))
    → pair_leb p q ≡ true
    → pair_leb q p ≡ false
    → insert_pair p (insert_pair q l) ≡ insert_pair q (insert_pair p l)
unfolding insert_pair
insert_before p q [] less more = ground (arith, less, more)
insert_before p q (r ∷ l) less more = ground (
  arith,
  less,
  more,
  insert_before p q l less more,
  pair_leb_trans p q r,
  pair_leb_trans q r p,
  pair_leb_total p r,
  pair_leb_total q r,
)

-- Insertions commute.
insert_pair-insert_pair :
    (p q : Text × Text) (l : List (Text × Text))
    → insert_pair p (insert_pair q l) ≡ insert_pair q (insert_pair p l)
insert_pair-insert_pair p q l = elim (Bool-cases (pair_leb p q)) [
  | inr more ↦ sym (insert_before q p l (pair_leb_total p q more) more)
  | inl less ↦ elim (Bool-cases (pair_leb q p)) [
    | inr more ↦ insert_before p q l less more
    | inl back ↦
        let same = pair_leb_antisymm p q less back in
        ap (λ x. insert_pair x (insert_pair q l)) same
        ∙ ap (λ x. insert_pair q (insert_pair x l)) (sym same)
  ]
]

sort_pairs-foldr : (l : List (Text × Text)) → sort_pairs l ≡ foldr insert_pair [] l
unfolding sort_pairs
sort_pairs-foldr [] = refl
sort_pairs-foldr (p ∷ l) = ap (insert_pair p) (sort_pairs-foldr l)

pairs-IsSet : IsSet (List (Text × Text))
pairs-IsSet = hlevel

sort_pairs_perm : (l m : List (Text × Text)) → Perm l m → sort_pairs l ≡ sort_pairs m
sort_pairs_perm l m reordered =
    sort_pairs-foldr l
    ∙ Perm.foldr-eq pairs-IsSet insert_pair insert_pair-insert_pair reordered []
    ∙ sym (sort_pairs-foldr m)

-- The canonical query of a request depends on the pairs of its query only, not on the order in which
-- the map that url.ParseQuery returns is visited: two orders of the same pairs give one text.
pub canonical_pairs_perm :
    (l m : List (Text × Text)) → Perm l m → canonical_pairs l ≡ canonical_pairs m
unfolding canonical_pairs
canonical_pairs_perm l m reordered =
    ap (λ pairs. join (codes "&") (map (λ p. p.0 ++ codes "=" ++ p.1) pairs))
      (sort_pairs_perm (map encode_pair l) (map encode_pair m) (Perm.map encode_pair reordered))
