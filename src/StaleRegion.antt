-- ===== src/StaleRegion.antt =====
-- src/Storage/stale_region.c: the stale byte ranges of the page file, kept sorted and merged.
pub mod Spaced
pub mod Merge
pub mod Place
pub mod Branch
pub mod Add
pub mod Codec
use wave_db.Base.{
  ℕ, zero, suc, ◌+◌, ◌-◌, ◌*◌, ◌/◌, ◌%◌, ◌^◌, Option, none, some, List, [], ◌∷◌, ◌++◌, ltb, leb,
  ◌==◌, if◌then◌else◌, length, take, drop, get_or,
}

-- `stale_region_t`
pub record StaleRegion : Type 0 where
  pub offset : ℕ
  pub length : ℕ

-- `stale_region_mgr_t`; `count` is the length of `regions`.
pub record StaleRegionMgr : Type 0 where
  pub regions : List StaleRegion
  pub capacity : ℕ
  pub total_stale_bytes : ℕ

abbrev pub initial_capacity : ℕ
initial_capacity = 16

-- `stale_region_mgr_create`
abbrev pub create : StaleRegionMgr
create = record { regions = []; capacity = initial_capacity; total_stale_bytes = 0 }

-- `offset + length` in `uint64_t`.
abbrev pub region_end : StaleRegion → ℕ
region_end r = (r.offset + r.length) % 2 ^ 64

-- `ensure_capacity`; SIZE_MAX / 2 is 2 ^ 63 - 1.
unfoldable pub ensure_capacity : ℕ → ℕ → ℕ
ensure_capacity count capacity =
    if ltb count capacity
    then capacity
    else if ltb (2 ^ 63 - 1) capacity
    then capacity
    else capacity * 2

-- The first loop of `stale_region_add`: how many regions end before `new_start`.
pub left_loop : List StaleRegion → ℕ → ℕ
left_loop [] new_start = 0
left_loop (r ∷ regions) new_start =
    let more = suc (left_loop regions new_start) in if ltb (region_end r) new_start then more else 0

-- The second loop, over the regions from `left` on: how many of them start by `new_end`.
pub right_loop : List StaleRegion → ℕ → ℕ
right_loop [] new_end = 0
right_loop (r ∷ regions) new_end =
    let more = suc (right_loop regions new_end) in if leb r.offset new_end then more else 0

-- `mgr->total_stale_bytes -= regions[i].length`, for each region of the list.
pub subtract_loop : ℕ → List StaleRegion → ℕ
subtract_loop total [] = total
subtract_loop total (r ∷ regions) = subtract_loop ((total + 2 ^ 64 - r.length) % 2 ^ 64) regions

-- What stands beyond the end of the array is not read.
abbrev no_region : StaleRegion
no_region = record { offset = 0; length = 0 }

-- The branch of `stale_region_add` that merges the regions from `left` up to `right`.
unfoldable pub merge : StaleRegionMgr → ℕ → ℕ → ℕ → ℕ → StaleRegionMgr
unfolding subtract_loop
merge mgr left right new_start new_end =
    let first = get_or mgr.regions left no_region in
    let last = get_or mgr.regions (right - 1) no_region in
    let merged_start = if ltb new_start first.offset then new_start else first.offset in
    let merged_end = if ltb (region_end last) new_end then new_end else region_end last in
    let merged_length = (merged_end + 2 ^ 64 - merged_start) % 2 ^ 64 in
    let rest = subtract_loop mgr.total_stale_bytes (take (right - left) (drop left mgr.regions)) in
    record mgr {
      regions =
          take left mgr.regions
          ++ (record { offset = merged_start; length = merged_length } ∷ drop right mgr.regions);
      total_stale_bytes = (rest + merged_length) % 2 ^ 64;
    }

-- The branch that inserts a region at `left`.
unfoldable pub insert : StaleRegionMgr → ℕ → ℕ → ℕ → StaleRegionMgr
unfolding ensure_capacity
insert mgr left offset length_ = record {
  regions =
      take left mgr.regions
      ++ (record { offset = offset; length = length_ } ∷ drop left mgr.regions);
  capacity = ensure_capacity (length mgr.regions) mgr.capacity;
  total_stale_bytes = (mgr.total_stale_bytes + length_) % 2 ^ 64;
}

-- `stale_region_add` on a non-NULL manager.
unfoldable pub add : StaleRegionMgr → ℕ → ℕ → StaleRegionMgr
unfolding left_loop right_loop merge insert
add mgr offset length_ =
    let new_end = (offset + length_) % 2 ^ 64 in
    let left = left_loop mgr.regions offset in
    let right = left + right_loop (drop left mgr.regions) new_end in
    if length_ == 0
    then mgr
    else if ltb new_end offset
    then mgr
    else if left == right
    then insert mgr left offset length_
    else merge mgr left right offset new_end

-- `stale_region_clear`
unfoldable pub clear : StaleRegionMgr → StaleRegionMgr
clear mgr = record mgr { regions = []; total_stale_bytes = 0 }

-- The two loops of `stale_region_get_reusable`: the regions of at least `threshold_bytes`.
unfoldable pub reusable_loop : List StaleRegion → ℕ → List StaleRegion
reusable_loop [] threshold_bytes = []
reusable_loop (r ∷ regions) threshold_bytes =
    let rest = reusable_loop regions threshold_bytes in
    if leb threshold_bytes r.length then r ∷ rest else rest

-- `stale_region_get_reusable`. The threshold `(uint64_t)(file_size * threshold_ratio)` is a product
-- in `double` and comes as an argument; the empty list is the NULL result.
unfoldable pub get_reusable : StaleRegionMgr → ℕ → ℕ → List StaleRegion
unfolding reusable_loop
get_reusable mgr file_size threshold_bytes =
    if file_size == 0 then [] else reusable_loop mgr.regions threshold_bytes
