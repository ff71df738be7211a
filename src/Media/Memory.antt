-- ===== src/Media/Memory.antt =====
-- internal/media/cache.go: the in-process LRU cache. The list of container/list holds the entries,
-- most recently used first, and the map finds the element of a key: a lookup by key in the list.
-- A call takes the instant at which it runs; contents are counted in bytes.
pub mod Invariant
pub mod Reads
mod Tests
use dyson_fs.Base.{
  List, Option, Text, [], find_first, if◌then◌else◌, length, ltb, none, some, suc, zero, ℕ, ◌&&◌,
  ◌+◌, ◌-◌, ◌==◌, ◌∷◌, nat_eq, text_equality,
}

abbrev pub Bytes : Type 0
Bytes = List ℕ

pub record MemEntry : Type 0 where
  pub key : Text
  pub content : Bytes
  pub mod_time : ℕ

-- `size` is an int64 that the operations add to and subtract from.
pub record MemoryCache : Type 0 where
  pub max_bytes : ℕ
  pub ttl : ℕ
  pub lru : List MemEntry
  pub size : ℕ

unfoldable pub new_memory_cache : ℕ → ℕ → MemoryCache
new_memory_cache max_bytes ttl = record { max_bytes = max_bytes; ttl = ttl; lru = []; size = 0 }

unfoldable pub entry_of : Text → List MemEntry → Option MemEntry
entry_of key = find_first (λ e. e.key == key)

-- Removing the element of a key from the list.
unfoldable pub without : Text → List MemEntry → List MemEntry
without key [] = []
without key (e ∷ l) = if e.key == key then l else e ∷ without key l

unfoldable pub remove_element : MemEntry → MemoryCache → MemoryCache
remove_element e c = record c { lru = without e.key c.lru; size = c.size - length e.content }

unfoldable pub get : ℕ → Text → MemoryCache → MemoryCache × Option Bytes
get now key c = elim (entry_of key c.lru) [
  | none ↦ (c, none)
  | some e ↦
      if ltb 0 c.ttl && ltb c.ttl (now - e.mod_time)
      then (remove_element e c, none)
      else (record c { lru = record e { mod_time = now } ∷ without key c.lru }, some e.content)
]

last_entry : MemEntry → List MemEntry → MemEntry
last_entry e [] = e
last_entry e (f ∷ l) = last_entry f l

back : List MemEntry → Option MemEntry
unfolding last_entry
back [] = none
back (e ∷ l) = some (last_entry e l)

-- The loop of Put, with one round for each element of the list at most.
evict : ℕ → MemoryCache → MemoryCache
unfolding back
evict zero c = c
evict (suc fuel) c = elim (back c.lru) [
  | none ↦ c
  | some oldest ↦
      let rest = evict fuel (remove_element oldest c) in if ltb c.max_bytes c.size then rest else c
]

-- The branch of Put on whether the key is there, before the size grows.
place : ℕ → Text → Bytes → MemoryCache → MemoryCache
place now key content c =
    let fresh : MemEntry = record { key = key; content = content; mod_time = now } in
    elim (entry_of key c.lru) [
      | none ↦ record c { lru = fresh ∷ c.lru }
      | some e ↦ record c { lru = fresh ∷ without key c.lru; size = c.size - length e.content }
    ]

grow : ℕ → Text → Bytes → MemoryCache → MemoryCache
unfolding place
grow now key content c =
    let placed = place now key content c in record placed { size = placed.size + length content }

unfoldable pub put : ℕ → Text → Bytes → MemoryCache → MemoryCache
unfolding evict grow
put now key content c =
    let grown = grow now key content c in
    if ltb c.max_bytes (length content) then c else evict (length grown.lru + 1) grown
