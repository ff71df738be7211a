-- ===== src/Tree/Moves.antt =====
-- Moves keep the tree of the live files free of cycles.
use dyson_fs.Base.{
  All, Bool, Bool-cases, List, Nil-cases, Option, Text, [], ap, arith, contains, false,
  if◌then◌else◌, inl, inr, keep, length, none, refl, some, subst, suc, true, update_rows, ℕ, ◌+◌,
  ◌<◌, ◌∷◌, ◌≡◌, nat_eq, text_equality,
}
use dyson_fs.Tree.{
  FileRow, parent_in, joins, move_row, is_target, normalize_ids, row_ids, named_in, move_batch,
  descend, descendant_ids, resolve_parent, reaches,
}
use dyson_fs.Tree.Names.{normalize_ids-clean, normalize_ids-keeps}
use dyson_fs.Tree.Descendants.{
  Closed, kept_ids, descend_mono, descendant_ids-query, descendant_ids-Closed,
}

-- A rank that grows from every live file's parent to the file.
unfoldable pub Ranked : (Text → ℕ) → List FileRow → Type 0
Ranked rank =
    All
      (λ row. row.is_deleted ≡ false → (p : Text) → row.parent ≡ some p → rank p < rank row.row_id)

-- Without a cycle: following the parents of live files always ends.
unfoldable pub HasNoCycle : List FileRow → Type 0
unfolding Ranked
HasNoCycle rows = (rank : Text → ℕ) × Ranked rank rows

-- What is below the moved files gets ranks above the new parent's.
lifted : List Text → ℕ → (Text → ℕ) → Text → ℕ
lifted below by rank x = if contains below x then suc (rank x + by) else rank x

unfoldable pub target_rank : (Text → ℕ) → Option Text → ℕ
target_rank rank none = 0
target_rank rank (some p) = rank p

unfoldable pub Outside : List Text → Option Text → Type 0
Outside below none = Unit
Outside below (some p) = contains below p ≡ false

-- The rank grows towards the row, if the row is live.
Above : (Text → ℕ) → FileRow → Type 0
Above rank row =
    row.is_deleted ≡ false → (p : Text) → row.parent ≡ some p → rank p < rank row.row_id

parent_in-some :
    (below : List Text) (row : FileRow) (p : Text)
    → row.parent ≡ some p
    → parent_in below row ≡ contains below p
unfolding parent_in
parent_in-some below row p h = rw (parent_in, h) refl

stays-Above :
    (below : List Text) (by : ℕ) (rank : Text → ℕ) (row : FileRow)
    → joins false below row ≡ false
    → Above rank row
    → Above (lifted below by rank) row
unfolding lifted joins Above
stays-Above below by rank row closed ranked live p h =
    let parent : parent_in below row ≡ contains below p = parent_in-some below row p h in
    ground (arith, closed, ranked live p h, parent)

target_above :
    (below : List Text) (rank : Text → ℕ) (row : FileRow) (t p : Text)
    → contains below t ≡ false
    → contains below row.row_id ≡ true
    → some t ≡ some p
    → lifted below (rank t) rank p < lifted below (rank t) rank row.row_id
unfolding lifted
target_above below rank row t p out inside h =
    let same : t ≡ p = ground arith in
    subst (λ x. lifted below (rank t) rank x < lifted below (rank t) rank row.row_id) same
      (rw (lifted, out, inside) (omega arith))

moves-Above :
    (below : List Text) (target : Option Text) (indexed : Option Bool) (rank : Text → ℕ)
    (row : FileRow)
    → Outside below target
    → contains below row.row_id ≡ true
    → Above (lifted below (target_rank rank target) rank) (move_row target indexed row)
unfolding lifted move_row Outside target_rank Above
moves-Above below none none rank row out inside live p h = absurd (ground arith)
moves-Above below none (some i) rank row out inside live p h = absurd (ground arith)
moves-Above below (some t) none rank row out inside live p h =
    target_above below rank row t p out inside h
moves-Above below (some t) (some i) rank row out inside live p h =
    target_above below rank row t p out inside h

moved_Ranked :
    (ids below : List Text) (target : Option Text) (indexed : Option Bool) (rank : Text → ℕ)
    (rows : List FileRow)
    → Outside below target
    → All (λ row. is_target ids row ≡ true → contains below row.row_id ≡ true) rows
    → Closed false below rows
    → Ranked rank rows
    → Ranked
        (lifted below (target_rank rank target) rank)
        (update_rows (is_target ids) (move_row target indexed) rows)
unfolding Ranked Closed update_rows Above
moved_Ranked ids below target indexed rank [] out covers closed ranked = tt
moved_Ranked ids below target indexed rank (row ∷ rows) out covers closed ranked =
    let rest = moved_Ranked ids below target indexed rank rows out covers.1 closed.1 ranked.1 in
    elim (Bool-cases (is_target ids row)) [
      | inl hit ↦ rw hit (moves-Above below target indexed rank row out (covers.0 hit), rest)
      | inr miss ↦
          rw miss (stays-Above below (target_rank rank target) rank row closed.0 ranked.0, rest)
    ]

All-map :
    (P Q : FileRow → Type 0) (rows : List FileRow)
    → ((row : FileRow) → P row → Q row)
    → All P rows
    → All Q rows
All-map P Q [] f h = tt
All-map P Q (row ∷ rows) f h = (f row h.0, All-map P Q rows f h.1)

-- The live rows that a move updates are among those that the query finds.
covered :
    (ids start below : List Text) (rows : List FileRow)
    → ((x : Text) → contains ids x ≡ true → contains start x ≡ true)
    → ((x : Text)
        → contains (row_ids (keep (named_in start) rows)) x ≡ true
        → contains below x ≡ true)
    → All (λ row. is_target ids row ≡ true → contains below row.row_id ≡ true) rows
unfolding is_target named_in
covered ids start below rows sub found =
    All-map (λ row. named_in start row ≡ true → contains below row.row_id ≡ true)
      (λ row. is_target ids row ≡ true → contains below row.row_id ≡ true) rows
      (λ row h hit. h (sub row.row_id (ground arith))) (kept_ids (named_in start) rows below found)

not_reached :
    (rows : List FileRow) (ids : List Text) (target : Option Text)
    → reaches rows ids target ≡ false
    → Outside (descendant_ids false rows ids) target
unfolding reaches Outside
not_reached rows ids none h = tt
not_reached rows ids (some p) h = h

move_batch-empty :
    (raw : List Text) (parent : Option Text) (indexed : Option Bool) (rows moved : List FileRow)
    → normalize_ids [] raw ≡ []
    → move_batch raw parent indexed rows ≡ some moved
    → rows ≡ moved
unfolding move_batch
move_batch-empty raw parent indexed rows moved empty h = ground (arith, ap length empty)

move_batch-steps :
    (raw : List Text) (parent : Option Text) (indexed : Option Bool) (rows moved : List FileRow)
    (x : Text) (ids : List Text)
    → normalize_ids [] raw ≡ x ∷ ids
    → move_batch raw parent indexed rows ≡ some moved
    → (reaches rows (normalize_ids [] raw) (resolve_parent parent) ≡ false)
      × (update_rows
            (is_target (normalize_ids [] raw))
            (move_row (resolve_parent parent) indexed)
            rows
          ≡ moved)
unfolding move_batch
move_batch-steps raw parent indexed rows moved x ids full h = ground (arith, ap length full)

length_some : (x : Text) (l : List Text) → contains l x ≡ true → (b : ℕ) × (length l ≡ suc b)
unfolding contains
length_some x [] h = absurd (ground arith)
length_some x (y ∷ l) h = (length l, refl)

-- Normalizing twice leaves an id if normalizing once does.
still_some :
    (raw : List Text) (x : Text) (ids : List Text)
    → normalize_ids [] raw ≡ x ∷ ids
    → (b : ℕ) × (length (normalize_ids [] (normalize_ids [] raw)) ≡ suc b)
unfolding contains
still_some raw x ids full =
    let here : contains (normalize_ids [] raw) x ≡ true = rw full (ground arith) in
    let clean = normalize_ids-clean [] raw x here in
    length_some x (normalize_ids [] (normalize_ids [] raw))
      (normalize_ids-keeps [] (normalize_ids [] raw) x clean.0 clean.1 here)

moved_rows :
    (raw : List Text) (target : Option Text) (indexed : Option Bool) (rows : List FileRow)
    (rank : Text → ℕ) (b : ℕ)
    → length (normalize_ids [] (normalize_ids [] raw)) ≡ suc b
    → reaches rows (normalize_ids [] raw) target ≡ false
    → Ranked rank rows
    → HasNoCycle (update_rows (is_target (normalize_ids [] raw)) (move_row target indexed) rows)
unfolding HasNoCycle
moved_rows raw target indexed rows rank b some_ids free ranked =
    let ids = normalize_ids [] raw in
    let start = row_ids (keep (named_in (normalize_ids [] ids)) rows) in
    let below = descend (suc (length rows)) false rows start in
    let query = descendant_ids-query false rows ids b some_ids in
    let out = subst (λ l. Outside l target) query (not_reached rows ids target free) in
    (
      lifted below (target_rank rank target) rank,
      moved_Ranked ids below target indexed rank rows out
          (covered ids (normalize_ids [] ids) below rows
            (λ x h.
              let clean = normalize_ids-clean [] raw x h in
              normalize_ids-keeps [] ids x clean.0 clean.1 h)
            (λ x h. descend_mono (suc (length rows)) false rows start x h))
          (subst (λ l. Closed false l rows) query (descendant_ids-Closed false rows ids b some_ids))
          ranked,
    )

-- Without a cycle among the live files there is none after a batch of moves either: a new parent is
-- refused if it is one of the moved files or below one of them.
pub move_batch-HasNoCycle :
    (raw : List Text) (parent : Option Text) (indexed : Option Bool) (rows moved : List FileRow)
    → HasNoCycle rows
    → move_batch raw parent indexed rows ≡ some moved
    → HasNoCycle moved
unfolding HasNoCycle
move_batch-HasNoCycle raw parent indexed rows moved (rank, ranked) h =
    elim (Nil-cases (normalize_ids [] raw)) [
      | inl empty ↦
          subst HasNoCycle (move_batch-empty raw parent indexed rows moved empty h) (rank, ranked)
      | inr (x, ids, full) ↦
          let (free, same) = move_batch-steps raw parent indexed rows moved x ids full h in
          let (b, some_ids) = still_some raw x ids full in
          subst HasNoCycle same
            (moved_rows raw (resolve_parent parent) indexed rows rank b some_ids free ranked)
    ]
