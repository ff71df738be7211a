-- ===== src/S3/Multipart/Combine.antt =====
-- The object that completing a multipart upload stores.

use dyson_fs.Base.{
  Bool, Bool-cases, List, Option, Option-cases, [], ap, append-nil, append_assoc, arith, if_both,
  if◌then◌else◌, inl, inr, is_some, leb, length, none, refl, some, suc, sym, zero, ℕ, ◌&&◌, ◌++◌,
  ◌+◌, ◌<◌, ◌==◌, ◌∙◌, ◌∷◌, ◌≡◌, nat_eq, text_equality,
}
use dyson_fs.S3.Multipart.{UploadedPart, Bytes, Parts, part_at, store_part, combine, combine_from}

-- A sequence of uploads, in the order in which they arrive; a part may be sent again.
abbrev pub Uploads : Type 0
Uploads = List (ℕ × UploadedPart)

unfoldable pub store_all : Uploads → Parts → Parts
store_all [] ps = ps
store_all ((i, p) ∷ us) ps = store_all us (store_part i p ps)

-- The last upload of a part.
unfoldable pub latest : ℕ → Uploads → Option UploadedPart
latest i [] = none
latest i ((j, p) ∷ us) = elim (latest i us) [
  | some q ↦ some q
  | none ↦ if j == i then some p else none
]

abbrev pub content_of : Option UploadedPart → Bytes
content_of none = []
content_of (some p) = p.content

-- The last uploads of `n` parts from part `i`, one after the other.
abbrev pub assemble_from : ℕ → ℕ → Uploads → Bytes
assemble_from zero i us = []
assemble_from (suc n) i us = content_of (latest i us) ++ assemble_from n (i + 1) us

unfoldable pub assemble : ℕ → Uploads → Bytes
assemble n us = assemble_from n 1 us

Distinct : Parts → Type 0
Distinct [] = Unit
Distinct ((j, p) ∷ ps) = (part_at j ps ≡ none) × Distinct ps

remove : ℕ → Parts → Parts
remove k [] = []
remove k ((j, p) ∷ ps) = if j == k then ps else (j, p) ∷ remove k ps

part_at-store_part :
    (i j : ℕ) (p : UploadedPart) (ps : Parts)
    → part_at j (store_part i p ps) ≡ (if i == j then some p else part_at j ps)
unfolding part_at store_part
part_at-store_part i j p [] = refl
part_at-store_part i j p ((k, q) ∷ ps) = ground (arith, part_at-store_part i j p ps)

store_part-Distinct :
    (i : ℕ) (p : UploadedPart) (ps : Parts) → Distinct ps → Distinct (store_part i p ps)
unfolding store_part Distinct part_at
store_part-Distinct i p [] d = (refl, tt)
store_part-Distinct i p ((k, q) ∷ ps) d = elim (Bool-cases (k == i)) [
  | inl same ↦ rw (same, store_part) (ground (arith, d.0), d.1)
  | inr other ↦
      rw (other, store_part)
        (ground (arith, d.0, part_at-store_part i k p ps), store_part-Distinct i p ps d.1)
]

part_at-remove :
    (k i : ℕ) (ps : Parts)
    → Distinct ps
    → part_at i (remove k ps) ≡ (if k == i then none else part_at i ps)
unfolding part_at remove Distinct
part_at-remove k i [] d = ground arith
part_at-remove k i ((j, p) ∷ ps) d = ground (arith, d.0, part_at-remove k i ps d.1)

remove-Distinct : (k : ℕ) (ps : Parts) → Distinct ps → Distinct (remove k ps)
unfolding remove Distinct
remove-Distinct k [] d = tt
remove-Distinct k ((j, p) ∷ ps) d =
    if_both Distinct (j == k) _ _ d.1
      (ground (arith, d.0, part_at-remove k j ps d.1), remove-Distinct k ps d.1)

length-remove :
    (k : ℕ) (ps : Parts) (p : UploadedPart)
    → part_at k ps ≡ some p
    → length ps ≡ suc (length (remove k ps))
unfolding part_at remove
length-remove k [] p h = cc
length-remove k ((j, q) ∷ ps) p h = ground (arith, length-remove k ps p)

abbrev pub in_range : ℕ → ℕ → Bool
in_range n i = leb 1 i && leb i n

-- Distinct part numbers that are exactly 1 to n are n in number.
length_of_range :
    (n : ℕ) (ps : Parts)
    → Distinct ps
    → ((i : ℕ) → is_some (part_at i ps) ≡ in_range n i)
    → length ps ≡ n
unfolding Distinct part_at
length_of_range zero [] d h = refl
length_of_range zero ((j, p) ∷ ps) d h = absurd (ground (arith, h j))
length_of_range (suc n) ps d h = elim (Option-cases (part_at (suc n) ps)) [
  | inl missing ↦ absurd (ground (arith, h (suc n)))
  | inr (p, there) ↦
      length-remove (suc n) ps p there
      ∙ ap suc (
          length_of_range n (remove (suc n) ps) (remove-Distinct (suc n) ps d)
            (λ i. ground (arith, h i, part_at-remove (suc n) i ps d)))
]

part_at-store_all :
    (i : ℕ) (us : Uploads) (ps : Parts)
    → part_at i (store_all us ps) ≡ elim (latest i us) [ some q ↦ some q | none ↦ part_at i ps ]
unfolding store_all latest
part_at-store_all i [] ps = refl
part_at-store_all i ((j, p) ∷ us) ps =
    ground (arith, part_at-store_all i us (store_part j p ps), part_at-store_part j i p ps)

store_all-Distinct : (us : Uploads) (ps : Parts) → Distinct ps → Distinct (store_all us ps)
unfolding store_all
store_all-Distinct [] ps d = d
store_all-Distinct ((i, p) ∷ us) ps d = store_all-Distinct us _ (store_part-Distinct i p ps d)

combine_from-assemble :
    (n i : ℕ) (us : Uploads) (ps : Parts) (acc : Bytes)
    → ((j : ℕ) → part_at j ps ≡ latest j us)
    → combine_from n i ps acc ≡ acc ++ assemble_from n i us
unfolding combine_from
combine_from-assemble zero i us ps acc same = sym (append-nil acc)
combine_from-assemble (suc n) i us ps acc same = elim (Option-cases (latest i us)) [
  | inl missing ↦
      rw (same i, missing, combine_from) (combine_from-assemble n (i + 1) us ps acc same)
  | inr (p, there) ↦
      rw (same i, there, combine_from)
        (combine_from-assemble n (i + 1) us ps (acc ++ p.content) same
          ∙ append_assoc acc p.content _)
]

part_at-latest : (i : ℕ) (us : Uploads) → part_at i (store_all us []) ≡ latest i us
unfolding part_at
part_at-latest i us = ground (arith, part_at-store_all i us [])

-- If the numbers of the uploaded parts are exactly 1 to n, in any order and with repetitions,
-- completing stores the last upload of part 1, then that of part 2, and so on to part n.
pub combine-store_all :
    (us : Uploads) (n : ℕ)
    → ((i : ℕ) → is_some (latest i us) ≡ in_range n i)
    → combine (store_all us []) ≡ assemble n us
unfolding combine assemble
combine-store_all us n exact =
    let ps = store_all us [] in
    let same = λ (j : ℕ). part_at-latest j us in
    let count : length ps ≡ n =
      length_of_range n ps (store_all-Distinct us [] (unfold Distinct in tt))
        (λ i. rw (same i) (exact i)) in
    rw count (combine_from-assemble n 1 us ps [] same)

combine_from-same :
    (n i : ℕ) (ps qs : Parts) (acc : Bytes)
    → ((j : ℕ) → j < i + n → part_at j ps ≡ part_at j qs)
    → combine_from n i ps acc ≡ combine_from n i qs acc
unfolding combine_from
combine_from-same zero i ps qs acc same = refl
combine_from-same (suc n) i ps qs acc same =
    let rest : (j : ℕ) → j < i + 1 + n → part_at j ps ≡ part_at j qs =
      λ j h. same j (omega arith) in
    elim (Option-cases (part_at i qs)) [
      | inl missing ↦
          rw (same i (omega arith), missing, combine_from)
            (combine_from-same n (i + 1) ps qs acc rest)
      | inr (p, there) ↦
          rw (same i (omega arith), there, combine_from)
            (combine_from-same n (i + 1) ps qs (acc ++ p.content) rest)
    ]

length-store_part :
    (i : ℕ) (p q : UploadedPart) (ps : Parts)
    → length (store_part i p ps) ≡ length (store_part i q ps)
unfolding store_part
length-store_part i p q [] = refl
length-store_part i p q ((j, r) ∷ ps) = ground (arith, length-store_part i p q ps)

-- The content of a part whose number is above the number of parts has no part in the object.
pub combine-gap :
    (i : ℕ) (p q : UploadedPart) (ps : Parts)
    → length (store_part i p ps) < i
    → combine (store_part i p ps) ≡ combine (store_part i q ps)
unfolding combine
combine-gap i p q ps beyond =
    let (ps', qs) : Parts × Parts = (store_part i p ps, store_part i q ps) in
    let same : (j : ℕ) → j < 1 + length ps' → part_at j ps' ≡ part_at j qs =
      λ j h. ground (arith, part_at-store_part i j p ps, part_at-store_part i j q ps) in
    rw (← length-store_part i p q ps) (combine_from-same (length ps') 1 ps' qs [] same)
