-- ===== src/StaleRegion/Add.antt =====
-- `stale_region_add` keeps the manager valid and adds exactly the given bytes.
use wave_db.Base.{
  ℕ, ◌+◌, ◌%◌, ◌^◌, ◌≤◌, ◌<◌, ◌≡◌, refl, sym, false, List, [], ◌∷◌, ◌||◌, arith, ltb, length,
  length-drop, drop, ◌==◌,
}
use wave_db.StaleRegion.{StaleRegion, StaleRegionMgr, left_loop, right_loop, add}
use wave_db.StaleRegion.Spaced.{IsSpaced, within, covers, sum, sum-lt, count_bound}
use wave_db.StaleRegion.Place.{spliced-place, place_sound}
use wave_db.StaleRegion.Branch.{branch, branch-regions, branch_total, branch-if, branch-capacity}

-- The regions are sorted, apart and not empty, the total is theirs, and the array has room.
pub record IsValid (mgr : StaleRegionMgr) : Type 0 where
  pub spaced : IsSpaced 0 mgr.regions
  pub total : mgr.total_stale_bytes ≡ sum mgr.regions
  pub room : length mgr.regions ≤ mgr.capacity
  pub some_room : 0 < mgr.capacity

-- The two branches keep a valid manager valid and cover the new bytes as well.
branch_sound :
    (mgr : StaleRegionMgr) (offset length_ : ℕ)
    → IsValid mgr
    → 0 < length_
    → offset + length_ < 2 ^ 64
    → (left n : ℕ) → left ≡ left_loop mgr.regions offset
    → n ≡ right_loop (drop left mgr.regions) (offset + length_)
    → IsSpaced 0 (branch mgr left n offset length_).regions
      × ((b : ℕ)
          → covers (branch mgr left n offset length_).regions b
            ≡ (within offset (offset + length_) b || covers mgr.regions b))
branch_sound mgr offset length_ v some_bytes fits left n l r =
    rw
      (
        branch-regions mgr left n offset length_,
        r,
        l,
        spliced-place mgr.regions new offset (offset + length_),
      )
      (place_sound 0 mgr.regions new offset (offset + length_) v.spaced (omega arith) (omega arith)
        fits refl refl)
  where
    new : StaleRegion
    new = record { offset = offset; length = length_ }

-- `add` is one of the branches, where it changes anything.
add-branch :
    (mgr : StaleRegionMgr) (offset length_ : ℕ)
    → 0 < length_
    → offset + length_ < 2 ^ 64
    → add mgr offset length_
      ≡ branch mgr
          (left_loop mgr.regions offset)
          (right_loop (drop (left_loop mgr.regions offset) mgr.regions) (offset + length_))
          offset
          length_
unfolding add
add-branch mgr offset length_ some_bytes fits =
    let small : (offset + length_) % 2 ^ 64 ≡ offset + length_ = omega arith in
    let proper : (length_ == 0) ≡ false = ground arith in
    let forward : ltb (offset + length_) offset ≡ false = ground arith in
    rw (small, proper, forward)
      (sym (
        branch-if mgr (left_loop mgr.regions offset)
          (right_loop (drop (left_loop mgr.regions offset) mgr.regions) (offset + length_)) offset
          length_))

branch-IsValid :
    (mgr : StaleRegionMgr) (offset length_ : ℕ)
    → IsValid mgr
    → (left n : ℕ) → left + n ≤ length mgr.regions
    → IsSpaced 0 (branch mgr left n offset length_).regions
    → IsValid (branch mgr left n offset length_)
branch-IsValid mgr offset length_ v left n inside sp =
    let few : length (branch mgr left n offset length_).regions ≤ 2 ^ 63 =
      omega (arith, count_bound 0 (branch mgr left n offset length_).regions sp (omega arith)) in
    let (room, some_room) =
      branch-capacity mgr left n offset length_ inside few v.room v.some_room in
    record {
      spaced = sp;
      total =
          branch_total mgr left n offset length_ v.total (sum-lt mgr.regions v.spaced)
            (sum-lt _ sp);
      room = room;
      some_room = some_room;
    }

left_loop-le-length : (xs : List StaleRegion) (s : ℕ) → left_loop xs s ≤ length xs
unfolding left_loop
left_loop-le-length [] s = omega arith
left_loop-le-length (r ∷ xs) s = ground (arith, left_loop-le-length xs s)

right_loop-le-length : (xs : List StaleRegion) (e : ℕ) → right_loop xs e ≤ length xs
unfolding right_loop
right_loop-le-length [] e = omega arith
right_loop-le-length (r ∷ xs) e = ground (arith, right_loop-le-length xs e)

loops_inside :
    (xs : List StaleRegion) (s e : ℕ)
    → left_loop xs s + right_loop (drop (left_loop xs s) xs) e ≤ length xs
loops_inside xs s e = omega (
  arith,
  left_loop-le-length xs s,
  right_loop-le-length (drop (left_loop xs s) xs) e,
  length-drop (left_loop xs s) xs,
)

-- Adding a non-empty range that ends within 64 bits keeps the manager valid, and the bytes that it
-- covers afterwards are those of the range and those that it covered before.
pub add_sound :
    (mgr : StaleRegionMgr) (offset length_ : ℕ)
    → IsValid mgr
    → 0 < length_
    → offset + length_ < 2 ^ 64
    → IsValid (add mgr offset length_)
      × ((b : ℕ)
          → covers (add mgr offset length_).regions b
            ≡ (within offset (offset + length_) b || covers mgr.regions b))
add_sound mgr offset length_ v some_bytes fits =
    let (sp, same) = branch_sound mgr offset length_ v some_bytes fits _ _ refl refl in
    rw (add-branch mgr offset length_ some_bytes fits) (
      branch-IsValid mgr offset length_ v _ _ (loops_inside mgr.regions offset (offset + length_))
          sp,
      same,
    )
