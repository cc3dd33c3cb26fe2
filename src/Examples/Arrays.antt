-- ===== src/Examples/Arrays.antt =====
-- Runs of src/HBTrie/chunk.c and src/HBTrie/bs_array.c.
use wave_db.Base.{
  ℕ, ◌≡◌, ◌≤◌, ◌<◌, refl, true, false, Option, none, some, [], ◌∷◌, arith, if◌then◌else◌, is_eq,
  is_lt, length,
}
use wave_db.Chunk
use wave_db.Chunk.{Chunk}
use wave_db.Chunk.Order.{lexicographic}
use wave_db.BsArray.{BsArray, cmp_at, search, find, insert}
use wave_db.BsArray.Entry.{BnodeEntry, entry_cmp, set_key}
use wave_db.BsArray.Search.{IsBelow, search_bound}
use wave_db.BsArray.Sorted.{IsSorted, IsSorted-IsPartitioned, set_key-IsKeyed, scan}
use wave_db.BsArray.Find.{find-scan}
use wave_db.BsArray.Changes.{insert-IsSorted}

abbrev low : Option Chunk
low = some (1 ∷ [])

abbrev middle : Option Chunk
middle = some (1 ∷ 2 ∷ [])

abbrev high : Option Chunk
high = some (3 ∷ [])

abbrev blank : BnodeEntry ℕ
blank = record { key_data = []; key_len = 0; key = none; payload = 0 }

abbrev entry : Chunk → ℕ → BnodeEntry ℕ
entry key payload = set_key (record blank { payload = payload }) (some key)

-- The keys are 1, 1 2 and 3.
abbrev held : BsArray ℕ
held = record { entries = entry (1 ∷ []) 10 ∷ entry (3 ∷ []) 30 ∷ []; capacity = 2 }

held-IsSorted : IsSorted held.entries
unfolding set_key lexicographic
held-IsSorted = (
  set_key-IsKeyed (record blank { payload = 10 }) (1 ∷ []) (omega arith),
  (refl, tt),
  (set_key-IsKeyed (record blank { payload = 30 }) (3 ∷ []) (omega arith), tt, tt),
)

search_bound_example :
    (search held.entries middle ≤ length held.entries)
    × ((i : ℕ) → i < search held.entries middle → IsBelow held.entries middle i)
    × ((i : ℕ)
        → search held.entries middle ≤ i
        → i < length held.entries
        → is_lt (cmp_at held.entries i middle) ≡ false)
search_bound_example =
    search_bound held.entries middle
      (IsSorted-IsPartitioned held.entries (1 ∷ 2 ∷ []) held-IsSorted)

find-scan_example : (find held (3 ∷ [])).0 ≡ scan held.entries (3 ∷ [])
find-scan_example = find-scan held (3 ∷ []) held-IsSorted

abbrev with_middle : BsArray ℕ
with_middle = record {
  entries = entry (1 ∷ []) 10 ∷ entry (1 ∷ 2 ∷ []) 20 ∷ entry (3 ∷ []) 30 ∷ [];
  capacity = 4;
}

insert-IsSorted_example :
    IsSorted with_middle.entries
    × ((k : Chunk)
        → scan with_middle.entries k ≡ (
            if is_eq (lexicographic (1 ∷ 2 ∷ []) k)
            then some (entry (1 ∷ 2 ∷ []) 20)
            else scan held.entries k))
unfolding set_key lexicographic insert search entry_cmp Chunk.inline_key_compare
insert-IsSorted_example =
    insert-IsSorted true held with_middle (entry (1 ∷ 2 ∷ []) 20) held-IsSorted
      (set_key-IsKeyed (record blank { payload = 20 }) (1 ∷ 2 ∷ []) (omega arith)) refl refl

abbrev without_low : BsArray ℕ
without_low = record { entries = entry (3 ∷ []) 30 ∷ []; capacity = 2 }
