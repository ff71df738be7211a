-- ===== src/Media/Memory/Invariant.antt =====
-- The byte budget, the eviction order and what can be read after a write.
use dyson_fs.Base.{
  List, Nil-cases, Option-cases, Text, [], ap, arith, dec_lt, false, find_first, if_both,
  if◌then◌else◌, inl, inr, leb, length, ltb, none, refl, some, subst, suc, sym, zero, ℕ, ◌+◌, ◌-◌,
  ◌<◌, ◌==◌, ◌∙◌, ◌∷◌, ◌≡◌, ◌≤◌, nat_eq, text_equality,
}
use dyson_fs.Media.Memory.{
  MemEntry, MemoryCache, entry_of, without, remove_element, put, last_entry, back, evict, place,
  grow,
}

abbrev pub total : List MemEntry → ℕ
total [] = 0
total (e ∷ l) = length e.content + total l

abbrev pub DistinctKeys : List MemEntry → Type 0
DistinctKeys [] = Unit
DistinctKeys (e ∷ l) = (entry_of e.key l ≡ none) × DistinctKeys l

-- The entries in use fill the recorded size, no key occurs twice, and the budget is kept.
pub record IsSound (c : MemoryCache) : Type 0 where
  pub sized : c.size ≡ total c.lru
  pub distinct : DistinctKeys c.lru
  pub bounded : c.size ≤ c.max_bytes

-- The most recent entries that fit a budget: the longest prefix within it.
unfoldable pub fit : ℕ → List MemEntry → List MemEntry
fit budget [] = []
fit budget (e ∷ l) =
    let rest = fit (budget - length e.content) l in
    if leb (length e.content) budget then e ∷ rest else []

init : MemEntry → List MemEntry → List MemEntry
init e [] = []
init e (f ∷ l) = e ∷ init f l

pub entry_of-without :
    (k j : Text) (l : List MemEntry)
    → DistinctKeys l
    → entry_of j (without k l) ≡ (if k == j then none else entry_of j l)
unfolding entry_of without find_first
entry_of-without k j [] d = ground arith
entry_of-without k j (e ∷ l) d = ground (arith, d.0, entry_of-without k j l d.1)

pub without-DistinctKeys :
    (k : Text) (l : List MemEntry) → DistinctKeys l → DistinctKeys (without k l)
unfolding without
without-DistinctKeys k [] d = tt
without-DistinctKeys k (e ∷ l) d =
    if_both DistinctKeys (e.key == k) _ _ d.1
      (ground (arith, d.0, entry_of-without k e.key l d.1), without-DistinctKeys k l d.1)

pub total-without :
    (k : Text) (l : List MemEntry) (e : MemEntry)
    → entry_of k l ≡ some e
    → total (without k l) + length e.content ≡ total l
unfolding entry_of without find_first
total-without k [] e h = cc
total-without k (f ∷ l) e h = ground (arith, total-without k l e)

-- Removing the last element by its key takes it from the end.
without_last :
    (e : MemEntry) (l : List MemEntry)
    → DistinctKeys (e ∷ l)
    → (without (last_entry e l).key (e ∷ l) ≡ init e l)
      × (entry_of (last_entry e l).key (e ∷ l) ≡ some (last_entry e l))
unfolding without init last_entry entry_of find_first
without_last e [] d = (ground arith, ground arith)
without_last e (f ∷ l) d =
    (ground (arith, without_last f l d.1, d.0), ground (arith, without_last f l d.1, d.0))

total-init :
    (e : MemEntry) (l : List MemEntry)
    → total (init e l) + length (last_entry e l).content ≡ total (e ∷ l)
unfolding init last_entry
total-init e [] = omega arith
total-init e (f ∷ l) = omega (arith, total-init f l)

fit_all : (b : ℕ) (l : List MemEntry) → total l ≤ b → fit b l ≡ l
unfolding fit
fit_all b [] h = refl
fit_all b (e ∷ l) h = ground (arith, fit_all (b - length e.content) l)

fit-init :
    (b : ℕ) (e : MemEntry) (l : List MemEntry)
    → b < total (e ∷ l)
    → fit b (e ∷ l) ≡ fit b (init e l)
unfolding fit init
fit-init b e [] h = ground arith
fit-init b e (f ∷ l) h = ground (arith, fit-init (b - length e.content) f l)

pub total-fit : (b : ℕ) (l : List MemEntry) → total (fit b l) ≤ b
unfolding fit
total-fit b [] = omega arith
total-fit b (e ∷ l) = ground (arith, total-fit (b - length e.content) l)

length-init : (e : MemEntry) (l : List MemEntry) → length (init e l) ≡ length l
unfolding init
length-init e [] = refl
length-init e (f ∷ l) = ap suc (length-init f l)

entry_of-init :
    (k : Text) (e : MemEntry) (l : List MemEntry)
    → entry_of k (e ∷ l) ≡ none
    → entry_of k (init e l) ≡ none
unfolding init entry_of find_first
entry_of-init k e [] h = refl
entry_of-init k e (f ∷ l) h = ground (arith, entry_of-init k f l)

init-DistinctKeys :
    (e : MemEntry) (l : List MemEntry) → DistinctKeys (e ∷ l) → DistinctKeys (init e l)
unfolding init
init-DistinctKeys e [] d = tt
init-DistinctKeys e (f ∷ l) d = (entry_of-init e.key f l d.0, init-DistinctKeys f l d.1)

entry_of-fit :
    (b : ℕ) (k : Text) (l : List MemEntry) → entry_of k l ≡ none → entry_of k (fit b l) ≡ none
unfolding fit entry_of find_first
entry_of-fit b k [] h = refl
entry_of-fit b k (e ∷ l) h = ground (arith, entry_of-fit (b - length e.content) k l)

pub fit-DistinctKeys : (b : ℕ) (l : List MemEntry) → DistinctKeys l → DistinctKeys (fit b l)
unfolding fit
fit-DistinctKeys b [] d = tt
fit-DistinctKeys b (e ∷ l) d =
    if_both DistinctKeys (leb (length e.content) b) _ _
      (
        entry_of-fit (b - length e.content) e.key l d.0,
        fit-DistinctKeys (b - length e.content) l d.1,
      )
      tt

-- The second cache holds what fits of the first one, with the size it has.
Fitted : MemoryCache → MemoryCache → Type 0
Fitted c d =
    (d.lru ≡ fit c.max_bytes c.lru)
    × (d.size ≡ total (fit c.max_bytes c.lru))
    × (d.max_bytes ≡ c.max_bytes)
    × (d.ttl ≡ c.ttl)

evict_done : (fuel : ℕ) (c : MemoryCache) → c.size ≤ c.max_bytes → evict (suc fuel) c ≡ c
unfolding evict
evict_done fuel c h = elim (Option-cases (back c.lru)) [
  | inl empty ↦ ground arith
  | inr (oldest, there) ↦ ground arith
]

evict_more :
    (fuel : ℕ) (c : MemoryCache) (oldest : MemEntry)
    → back c.lru ≡ some oldest
    → c.max_bytes < c.size
    → evict (suc fuel) c ≡ evict fuel (remove_element oldest c)
unfolding evict
evict_more fuel c oldest full h = ground arith

back-full : (e : MemEntry) (l r : List MemEntry) → r ≡ e ∷ l → back r ≡ some (last_entry e l)
unfolding back
back-full e l r h = ground arith

-- The fields of a cache after the removal of its last element.
removed :
    (c : MemoryCache) (e : MemEntry) (l : List MemEntry)
    → c.lru ≡ e ∷ l
    → DistinctKeys c.lru
    → c.size ≡ total c.lru
    → ((remove_element (last_entry e l) c).lru ≡ init e l)
      × ((remove_element (last_entry e l) c).size ≡ total (init e l))
unfolding remove_element
removed c e l h d s =
    let facts = without_last e l (subst DistinctKeys h d) in
    (rw (h, facts.0) refl, rw (s, h) (omega (arith, total-init e l)))

evict-Fitted :
    (fuel : ℕ) (c : MemoryCache)
    → DistinctKeys c.lru
    → c.size ≡ total c.lru
    → length c.lru < fuel
    → Fitted c (evict fuel c)
unfolding Fitted remove_element
evict-Fitted zero c d s h = absurd (omega arith)
evict-Fitted (suc fuel) c d s h = elim (dec_lt c.max_bytes c.size) [
  | no small ↦
      rw (evict_done fuel c (omega arith), fit_all c.max_bytes c.lru (omega arith))
        (refl, s, refl, refl)
  | yes large ↦ elim (Nil-cases c.lru) [
    | inl empty ↦ absurd (ground arith)
    | inr (e, l, full) ↦
        let gone = removed c e l full d s in
        let rest =
          evict-Fitted fuel (remove_element (last_entry e l) c)
            (rw gone.0 (init-DistinctKeys e l (subst DistinctKeys full d))) (rw gone.0 gone.1)
            (rw gone.0 (rw (length-init e l) (ground arith))) in
        let same : fit c.max_bytes (remove_element (last_entry e l) c).lru ≡ fit c.max_bytes c.lru =
          rw (gone.0, full)
            (sym (
              fit-init c.max_bytes e l (subst (λ x. c.max_bytes < x) (s ∙ ap total full) large))) in
        rw (evict_more fuel c (last_entry e l) (back-full e l c.lru full) large)
          (rest.0 ∙ same, rest.1 ∙ ap total same, rest.2, rest.3)
  ]
]

abbrev pub fresh_entry : ℕ → Text → List ℕ → MemEntry
fresh_entry now key content = record { key = key; content = content; mod_time = now }

without_absent : (key : Text) (l : List MemEntry) → entry_of key l ≡ none → without key l ≡ l
unfolding without entry_of find_first
without_absent key [] h = refl
without_absent key (e ∷ l) h = ground (arith, without_absent key l)

grown :
    (now : ℕ) (key : Text) (content : List ℕ) (c : MemoryCache)
    → c.size ≡ total c.lru
    → ((grow now key content c).lru ≡ fresh_entry now key content ∷ without key c.lru)
      × ((grow now key content c).size ≡ length content + total (without key c.lru))
      × ((grow now key content c).max_bytes ≡ c.max_bytes)
      × ((grow now key content c).ttl ≡ c.ttl)
unfolding grow place
grown now key content c sized = elim (Option-cases (entry_of key c.lru)) [
  | inl absent ↦
      let same = without_absent key c.lru absent in
      (ground (arith, same), ground (arith, same), ground arith, ground arith)
  | inr (e, there) ↦
      let sum = total-without key c.lru e there in
      (ground arith, ground (arith, sum), ground arith, ground arith)
]

put-Fitted :
    (now : ℕ) (key : Text) (content : List ℕ) (c : MemoryCache)
    → IsSound c
    → length content ≤ c.max_bytes
    → Fitted (grow now key content c) (put now key content c)
unfolding put
put-Fitted now key content c sound small =
    let facts = grown now key content c sound.sized in
    let room : ltb c.max_bytes (length content) ≡ false = ground arith in
    rw room (
      evict-Fitted (length (grow now key content c).lru + 1) (grow now key content c)
        (rw facts.0 (
          ground (arith, entry_of-without key key c.lru sound.distinct),
          without-DistinctKeys key c.lru sound.distinct,
        ))
        (rw facts.0 facts.1) (omega arith))

-- Writing content that fits the budget into a sound cache leaves the longest run of most recent
-- entries within the byte budget, the new entry first and its key's earlier entry gone.
pub put-fit :
    (now : ℕ) (key : Text) (content : List ℕ) (c : MemoryCache)
    → IsSound c
    → length content ≤ c.max_bytes
    → (put now key content c).lru
      ≡ fit c.max_bytes (fresh_entry now key content ∷ without key c.lru)
unfolding Fitted
put-fit now key content c sound small =
    let facts = grown now key content c sound.sized in
    let done = put-Fitted now key content c sound small in done.0 ∙ rw (facts.0, facts.2) refl

pub put-size :
    (now : ℕ) (key : Text) (content : List ℕ) (c : MemoryCache)
    → IsSound c
    → length content ≤ c.max_bytes
    → (put now key content c).size
      ≡ total (fit c.max_bytes (fresh_entry now key content ∷ without key c.lru))
unfolding Fitted
put-size now key content c sound small =
    let facts = grown now key content c sound.sized in
    let done = put-Fitted now key content c sound small in done.1 ∙ rw (facts.0, facts.2) refl

pub put-settings :
    (now : ℕ) (key : Text) (content : List ℕ) (c : MemoryCache)
    → IsSound c
    → length content ≤ c.max_bytes
    → ((put now key content c).max_bytes ≡ c.max_bytes) × ((put now key content c).ttl ≡ c.ttl)
unfolding Fitted
put-settings now key content c sound small =
    let facts = grown now key content c sound.sized in
    let done = put-Fitted now key content c sound small in (done.2 ∙ facts.2, done.3 ∙ facts.3)

pub put_oversized :
    (now : ℕ) (key : Text) (content : List ℕ) (c : MemoryCache)
    → c.max_bytes < length content
    → put now key content c ≡ c
unfolding put
put_oversized now key content c large = ground arith
