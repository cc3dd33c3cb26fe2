-- ===== src/StaleRegion/Branch.antt =====
-- The two branches of `stale_region_add` as one function of the counts of its loops: the list,
-- the total and the room that they leave.
use wave_db.Base.{
  ℕ, zero, suc, ◌+◌, ◌-◌, ◌%◌, ◌^◌, ◌≤◌, ◌<◌, ◌≡◌, ◌∙◌, refl, sym, ap, List, [], ◌∷◌, ◌++◌, arith,
  length, length-append, length-take, length-drop, min, take, drop, get_or, ◌==◌, if◌then◌else◌,
}
use wave_db.StaleRegion.{
  StaleRegion, StaleRegionMgr, subtract_loop, no_region, merge, insert, ensure_capacity,
}
use wave_db.StaleRegion.Spaced.{sum, sum-append, sum-take-drop, subtract_loop-sum}
use wave_db.StaleRegion.Place.{spliced, joined_to}

-- The manager after the branch for `n` merged regions from `left` on.
pub branch : StaleRegionMgr → ℕ → ℕ → ℕ → ℕ → StaleRegionMgr
branch mgr left zero offset length_ = insert mgr left offset length_
branch mgr left (suc n) offset length_ = merge mgr left (left + suc n) offset (offset + length_)

pub branch-regions :
    (mgr : StaleRegionMgr) (left n offset length_ : ℕ)
    → (branch mgr left n offset length_).regions
      ≡ spliced mgr.regions
          (record { offset = offset; length = length_ })
          offset
          (offset + length_)
          left
          n
unfolding branch spliced insert merge
branch-regions mgr left zero offset length_ = refl
branch-regions mgr left (suc n) offset length_ =
    let e : left + suc n ≡ suc (left + n) = omega arith in
    let f : suc (left + n) - 1 ≡ left + n = omega arith in rw (e, f)

drop_nil : (n : ℕ) → drop {A = StaleRegion} n [] ≡ []
drop_nil zero = refl
drop_nil (suc n) = refl

drop-drop : (l n : ℕ) (xs : List StaleRegion) → drop n (drop l xs) ≡ drop (l + n) xs
drop-drop zero n xs = let e : 0 + n ≡ n = omega arith in rw e
drop-drop (suc l) n [] = drop_nil n ∙ sym (drop_nil (suc l + n))
drop-drop (suc l) n (x ∷ xs) =
    let e : suc l + n ≡ suc (l + n) = omega arith in rw e (drop-drop l n xs)

sum_parts :
    (l n : ℕ) (xs : List StaleRegion)
    → sum (take l xs) + (sum (take n (drop l xs)) + sum (drop (l + n) xs)) ≡ sum xs
sum_parts l n xs =
    omega (arith, sum-take-drop l xs, sum-take-drop n (drop l xs), ap sum (drop-drop l n xs))

sum-splice :
    (l k : ℕ) (x : StaleRegion) (xs : List StaleRegion)
    → sum (take l xs ++ (x ∷ drop k xs)) ≡ sum (take l xs) + (x.length + sum (drop k xs))
sum-splice l k x xs = sum-append (take l xs) (x ∷ drop k xs)

merge_total :
    (xs : List StaleRegion) (l n : ℕ) (x : StaleRegion) (total : ℕ)
    → total ≡ sum xs
    → sum xs < 2 ^ 64
    → sum (take l xs ++ (x ∷ drop (l + n) xs)) < 2 ^ 64
    → (subtract_loop total (take (l + n - l) (drop l xs)) + x.length) % 2 ^ 64
      ≡ sum (take l xs ++ (x ∷ drop (l + n) xs))
merge_total xs l n x total t small h =
    let e : l + n - l ≡ n = omega arith in
    rw e (
      omega (
        arith,
        sum_parts l n xs,
        sum-splice l (l + n) x xs,
        subtract_loop-sum total (take n (drop l xs)) (omega arith)
            (omega (arith, sum_parts l n xs)),
      ))

-- The total after a branch is that of the regions after it, if these are fewer than 2 ^ 64 bytes.
pub branch_total :
    (mgr : StaleRegionMgr) (left n offset length_ : ℕ)
    → mgr.total_stale_bytes ≡ sum mgr.regions
    → sum mgr.regions < 2 ^ 64
    → sum (branch mgr left n offset length_).regions < 2 ^ 64
    → (branch mgr left n offset length_).total_stale_bytes
      ≡ sum (branch mgr left n offset length_).regions
unfolding branch insert merge
branch_total mgr left zero offset length_ total small h =
    let x : StaleRegion = record { offset = offset; length = length_ } in
    omega (arith, sum-splice left left x mgr.regions, sum-take-drop left mgr.regions)
branch_total mgr left (suc n) offset length_ total small h =
    merge_total mgr.regions left (suc n) _ mgr.total_stale_bytes total small h

pub branch-if :
    (mgr : StaleRegionMgr) (left n offset length_ : ℕ)
    → branch mgr left n offset length_ ≡ (
        if left == left + n
        then insert mgr left offset length_
        else merge mgr left (left + n) offset (offset + length_))
unfolding branch
branch-if mgr left zero offset length_ = ground arith
branch-if mgr left (suc n) offset length_ = ground arith

length-splice :
    (l k : ℕ) (x : StaleRegion) (xs : List StaleRegion)
    → length (take l xs ++ (x ∷ drop k xs)) ≡ min l (length xs) + suc (length xs - k)
length-splice l k x xs =
    omega (arith, length-append (take l xs) (x ∷ drop k xs), length-take l xs, length-drop k xs)

-- `ensure_capacity` makes room for one more region, for as many as can be spaced.
ensure_capacity_room :
    (after count capacity l : ℕ)
    → after ≡ min l count + suc (count - l)
    → after ≤ 2 ^ 63
    → count ≤ capacity
    → 0 < capacity
    → (after ≤ ensure_capacity count capacity) × (0 < ensure_capacity count capacity)
unfolding ensure_capacity
ensure_capacity_room after count capacity l e few room some_room = ground arith

pub branch-capacity :
    (mgr : StaleRegionMgr) (left n offset length_ : ℕ)
    → left + n ≤ length mgr.regions
    → length (branch mgr left n offset length_).regions ≤ 2 ^ 63
    → length mgr.regions ≤ mgr.capacity
    → 0 < mgr.capacity
    → (length (branch mgr left n offset length_).regions
        ≤ (branch mgr left n offset length_).capacity)
      × (0 < (branch mgr left n offset length_).capacity)
unfolding branch insert merge
branch-capacity mgr left zero offset length_ inside few room some_room =
    ensure_capacity_room _ (length mgr.regions) mgr.capacity left
      (length-splice left left (record { offset = offset; length = length_ }) mgr.regions) few room
      some_room
branch-capacity mgr left (suc n) offset length_ inside few room some_room = (
  omega (
    arith,
    length-splice left (left + suc n)
        (joined_to (get_or mgr.regions left no_region)
          (get_or mgr.regions (left + suc n - 1) no_region) offset (offset + length_))
        mgr.regions,
  ),
  some_room,
)
