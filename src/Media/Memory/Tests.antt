-- ===== src/Media/Memory/Tests.antt =====
-- The memory cache at concrete inputs: a budget of 10 bytes and two entries, the older one first.
use dyson_fs.Base.{
  List, [], arith, codes, find_first, if◌then◌else◌, ltb, map, none, refl, some, text_discrete, ℕ,
  ℕ_discrete, ◌&&◌, ◌-◌, ◌∷◌, ◌≡◌,
}
use dyson_fs.Media.Memory.{
  MemoryCache, get, put, new_memory_cache, entry_of, without, remove_element, last_entry, back,
  evict, place, grow,
}
use dyson_fs.Media.Memory.Reads.{get-put}
use dyson_fs.Media.Memory.Invariant.{IsSound, fit, fresh_entry, put-fit}

program : Unit {0}
unfolding put get entry_of without find_first text_discrete ℕ_discrete remove_element evict place
    grow back last_entry new_memory_cache fit
program = tt

abbrev two_entries : MemoryCache
two_entries = record {
  max_bytes = 10;
  ttl = 60;
  lru =
      record { key = codes "b"; content = 5 ∷ 6 ∷ 7 ∷ 8 ∷ []; mod_time = 2 }
      ∷ record { key = codes "a"; content = 1 ∷ 2 ∷ 3 ∷ 4 ∷ []; mod_time = 1 }
      ∷ [];
  size = 8;
}

two_entries-IsSound : IsSound two_entries
unfolding program
two_entries-IsSound = record { sized = refl; distinct = (refl, (refl, tt)); bounded = omega arith }

abbrev fresh_content : List ℕ
fresh_content = 9 ∷ 9 ∷ 9 ∷ 9 ∷ []

-- The older entry makes room for the new one.
evicted :
    map (λ e. e.key) (put 3 (codes "c") fresh_content two_entries).lru ≡ codes "c" ∷ codes "b" ∷ []
unfolding program
evicted = refl

put-fit_example :
    (put 3 (codes "c") fresh_content two_entries).lru
    ≡ fit 10 (fresh_entry 3 (codes "c") fresh_content ∷ without (codes "c") two_entries.lru)
put-fit_example = put-fit 3 (codes "c") fresh_content two_entries two_entries-IsSound (omega arith)

get-put_example :
    (get 63 (codes "c") (put 3 (codes "c") fresh_content two_entries)).1
    ≡ (if ltb 0 60 && ltb 60 (63 - 3) then none else some fresh_content)
get-put_example =
    get-put 3 63 (codes "c") fresh_content two_entries two_entries-IsSound (omega arith)
