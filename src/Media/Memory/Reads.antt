-- ===== src/Media/Memory/Reads.antt =====
-- Soundness of the memory cache through its operations, and what a read after a write returns.
use dyson_fs.Base.{
  Bool, List, Option, Option-cases, Text, arith, dec_lt, false, find_first, find_first_sound,
  if◌then◌else◌, inl, inr, length, ltb, none, refl, some, true, ℕ, ◌&&◌, ◌-◌, ◌==◌, ◌∷◌, ◌≡◌, ◌≤◌,
  nat_eq, text_equality,
}
use dyson_fs.Media.Memory.{
  MemoryCache, get, put, without, Bytes, MemEntry, entry_of, remove_element,
}
use dyson_fs.Media.Memory.Invariant.{
  IsSound, put-fit, entry_of-without, without-DistinctKeys, total-fit, fit-DistinctKeys,
  fresh_entry, put-size, put-settings, put_oversized, fit, total-without,
}

-- A write keeps a cache sound: the recorded size is what its entries fill, no key occurs twice and
-- the size stays within the byte budget, whatever had to be evicted.
pub put-IsSound :
    (now : ℕ) (key : Text) (content : List ℕ) (c : MemoryCache)
    → IsSound c
    → IsSound (put now key content c)
put-IsSound now key content c sound = elim (dec_lt c.max_bytes (length content)) [
  | yes large ↦ rw (put_oversized now key content c large) sound
  | no small ↦
      let lru = put-fit now key content c sound (omega arith) in
      let size = put-size now key content c sound (omega arith) in
      let budget = (put-settings now key content c sound (omega arith)).0 in
      record {
        sized = rw (lru, size) refl;
        distinct = rw lru (
            fit-DistinctKeys c.max_bytes (fresh_entry now key content ∷ without key c.lru) (
              ground (arith, entry_of-without key key c.lru sound.distinct),
              without-DistinctKeys key c.lru sound.distinct,
            ));
        bounded =
            rw (size, budget)
              (total-fit c.max_bytes (fresh_entry now key content ∷ without key c.lru));
      }
]

key_found : (key : Text) (l : List MemEntry) (e : MemEntry) → entry_of key l ≡ some e → e.key ≡ key
unfolding entry_of
key_found key l e h = let found = find_first_sound (λ x. x.key == key) l h in ground (arith, found)

removed_entry :
    (key : Text) (c : MemoryCache) (e : MemEntry)
    → IsSound c
    → entry_of key c.lru ≡ some e
    → IsSound (remove_element e c)
unfolding remove_element entry_of
removed_entry key c e sound there =
    let named = key_found key c.lru e there in
    let sum = total-without key c.lru e there in
    rw named (record {
      sized = omega (arith, sum, sound.sized);
      distinct = without-DistinctKeys key c.lru sound.distinct;
      bounded = omega (arith, sum, sound.bounded);
    })

refreshed_entry :
    (now : ℕ) (key : Text) (c : MemoryCache) (e : MemEntry)
    → IsSound c
    → entry_of key c.lru ≡ some e
    → IsSound (record c { lru = record e { mod_time = now } ∷ without key c.lru })
unfolding entry_of
refreshed_entry now key c e sound there =
    let named = key_found key c.lru e there in
    let sum = total-without key c.lru e there in
    record {
      sized = omega (arith, sum, sound.sized);
      distinct = rw named (
        ground (arith, entry_of-without key key c.lru sound.distinct),
        without-DistinctKeys key c.lru sound.distinct,
      );
      bounded = sound.bounded;
    }

read_one :
    (now : ℕ) (key : Text) (c : MemoryCache) (e : MemEntry) (expired : Bool)
    → IsSound c
    → entry_of key c.lru ≡ some e
    → IsSound
        (if◌then◌else◌ {A = MemoryCache × Option Bytes} expired
          (remove_element e c, none)
          (record c { lru = record e { mod_time = now } ∷ without key c.lru }, some e.content)).0
read_one now key c e true sound there = removed_entry key c e sound there
read_one now key c e false sound there = refreshed_entry now key c e sound there

-- A read keeps a cache sound, whether it finds the entry, drops it as expired or finds nothing.
pub get-IsSound : (now : ℕ) (key : Text) (c : MemoryCache) → IsSound c → IsSound (get now key c).0
unfolding get
get-IsSound now key c sound = elim (Option-cases (entry_of key c.lru)) [
  | inl absent ↦ rw (absent, get) sound
  | inr (e, there) ↦
      rw (there, get)
        (read_one now key c e (ltb 0 c.ttl && ltb c.ttl (now - e.mod_time)) sound there)
]

lru_first :
    (now : ℕ) (key : Text) (content : Bytes) (older : List MemEntry) (b : ℕ) (l : List MemEntry)
    → length content ≤ b
    → l ≡ fit b (fresh_entry now key content ∷ older)
    → entry_of key l ≡ some (fresh_entry now key content)
unfolding entry_of find_first fit
lru_first now key content older b l small h = rw h (ground arith)

-- Reading the key that was just written to a sound cache returns the content if it is within the
-- byte budget, until the time to live has passed; a time to live of zero never passes.
pub get-put :
    (now later : ℕ) (key : Text) (content : List ℕ) (c : MemoryCache)
    → IsSound c
    → length content ≤ c.max_bytes
    → (get later key (put now key content c)).1
      ≡ (if ltb 0 c.ttl && ltb c.ttl (later - now) then none else some content)
unfolding get
get-put now later key content c sound small =
    let lru = put-fit now key content c sound small in
    let settings = put-settings now key content c sound small in
    let first : entry_of key (put now key content c).lru ≡ some (fresh_entry now key content) =
      lru_first now key content (without key c.lru) c.max_bytes (put now key content c).lru small
        lru in
    rw (first, get) (ground (arith, settings.1))
