-- ===== src/BsArray.antt =====
-- src/HBTrie/bs_array.c: the sorted array of a node's entries. How src/HBTrie/bnode.c keeps an
-- entry's key is in `BsArray.Entry`.
pub mod Entry
pub mod Search
pub mod Sorted
pub mod Find
pub mod Changes
pub mod Removal
use wave_db.Base.{
  ℕ, zero, suc, ◌+◌, ◌-◌, ◌*◌, ◌/◌, Ordering, Bool, true, false, Option, none, some, List, [], ◌∷◌,
  ◌++◌, ltb, leb, ◌==◌, if◌then◌else◌, length, take, drop, get_elem?, is_lt, is_eq,
}
use wave_db.Chunk
use wave_db.Chunk.{Chunk}
use wave_db.BsArray.Entry.{BnodeEntry, entry_cmp, get_key}

-- `bs_array_t`; `count` is the length of `entries`.
pub record BsArray {ℓ} (V : Type ℓ) : Type ℓ where
  pub entries : List (BnodeEntry V)
  pub capacity : ℕ

-- `bs_array_create`; `bs_array_init` is the case 0.
unfoldable pub create {ℓ} : (V : Type ℓ) → ℕ → BsArray V
create V initial_capacity = record { entries = []; capacity = initial_capacity }

module _ {ℓ} {V : Type ℓ} where
  -- `bs_array_entry_cmp(&arr->entries[i], key)`; the code reads only within `count`.
  abbrev pub cmp_at : List (BnodeEntry V) → ℕ → Option Chunk → Ordering
  cmp_at [] i key = Ordering.eq
  cmp_at (e ∷ entries) zero key = entry_cmp e key
  cmp_at (e ∷ entries) (suc i) key = cmp_at entries i key

  -- The loop of `bs_array_search`, which halves `hi - lo`; `hi - lo` rounds are enough.
  unfoldable pub search_loop : ℕ → List (BnodeEntry V) → Option Chunk → ℕ → ℕ → ℕ
  search_loop zero entries key lo hi = lo
  search_loop (suc fuel) entries key lo hi =
      let mid = lo + (hi - lo) / 2 in
      let right = search_loop fuel entries key (mid + 1) hi in
      let left = search_loop fuel entries key lo mid in
      let next = if is_lt (cmp_at entries mid key) then right else left in
      if ltb lo hi then next else lo

  -- `bs_array_search`
  unfoldable pub search : List (BnodeEntry V) → Option Chunk → ℕ
  unfolding search_loop
  search entries key = search_loop (length entries) entries key 0 (length entries)

  -- `bs_array_find` for a non-NULL array and key: the entry, and `*out_index`.
  unfoldable pub find : BsArray V → Chunk → Option (BnodeEntry V) × ℕ
  find arr key =
      let index = search arr.entries (some key) in
      (
        if ltb index (length arr.entries)
            then if is_eq (cmp_at arr.entries index (some key))
              then get_elem? arr.entries index
              else none
            else none,
        index,
      )

  -- `bs_array_insert` for non-NULL arguments. The flag says whether `realloc` has memory; `none`
  -- is -1, which leaves the array as it was.
  unfoldable pub insert : Bool → BsArray V → BnodeEntry V → Option (BsArray V)
  insert realloc_ok arr entry =
      let index = search arr.entries (get_key entry) in
      let placed = take index arr.entries ++ (entry ∷ drop index arr.entries) in
      let grown = if arr.capacity == 0 then 8 else arr.capacity * 2 in
      if leb arr.capacity (length arr.entries)
      then if realloc_ok then some (record { entries = placed; capacity = grown }) else none
      else some (record arr { entries = placed })

  -- `bs_array_remove_at`, with the entry that it returns.
  unfoldable pub remove_at : BsArray V → ℕ → Option (BnodeEntry V) × BsArray V
  remove_at arr index =
      if ltb index (length arr.entries)
      then (
        get_elem? arr.entries index,
        record arr { entries = take index arr.entries ++ drop (index + 1) arr.entries },
      )
      else (none, arr)

  -- `bs_array_find_first`
  unfoldable pub find_first : BsArray V → Chunk → Option (BnodeEntry V)
  unfolding find
  find_first arr key =
      let (found, index) = find arr key in
      elim found [ some e ↦ some e | none ↦ get_elem? arr.entries index ]

  -- The loop of `bs_array_find_last` over the entries behind `index`, and the last that matched.
  last_match : BnodeEntry V → List (BnodeEntry V) → Chunk → BnodeEntry V
  last_match e [] key = e
  last_match e (next ∷ entries) key =
      let rest = last_match next entries key in
      if is_eq (entry_cmp next (some key)) then rest else e

  -- `bs_array_find_last`
  unfoldable pub find_last : BsArray V → Chunk → Option (BnodeEntry V)
  unfolding find last_match
  find_last arr key =
      let (found, index) = find arr key in
      elim found [
        | some e ↦ some (last_match e (drop (index + 1) arr.entries) key)
        | none ↦ if ltb 0 index then get_elem? arr.entries (index - 1) else none
      ]
