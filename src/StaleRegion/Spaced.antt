-- ===== src/StaleRegion/Spaced.antt =====
-- Sorted regions with a gap between each two, and the bytes that they cover.
use wave_db.Base.{
  ℕ, zero, suc, ◌+◌, ◌-◌, ◌*◌, ◌%◌, ◌^◌, ◌≤◌, ◌<◌, ◌≡◌, Bool, false, List, [], ◌∷◌, ◌++◌, ◌&&◌,
  ◌||◌, arith, ltb, leb, length, take, drop,
}
use wave_db.StaleRegion.{StaleRegion, subtract_loop}

-- The regions start at or past `lo`, are not empty, end within 64 bits, and do not touch.
abbrev pub IsSpaced : ℕ → List StaleRegion → Type 0
IsSpaced lo [] = Unit {0}
IsSpaced lo (r ∷ regions) =
    (lo ≤ r.offset)
    × (0 < r.length)
    × (r.offset + r.length < 2 ^ 64)
    × IsSpaced (r.offset + r.length + 1) regions

-- Whether a region holds the byte, and whether one of the regions does.
abbrev pub within : ℕ → ℕ → ℕ → Bool
within first past byte = leb first byte && ltb byte past

abbrev pub covers : List StaleRegion → ℕ → Bool
covers [] byte = false
covers (r ∷ regions) byte = within r.offset (r.offset + r.length) byte || covers regions byte

abbrev pub sum : List StaleRegion → ℕ
sum [] = 0
sum (r ∷ regions) = r.length + sum regions

pub sum-append : (xs ys : List StaleRegion) → sum (xs ++ ys) ≡ sum xs + sum ys
sum-append [] ys = omega arith
sum-append (r ∷ xs) ys = omega (arith, sum-append xs ys)

pub sum-take-drop : (n : ℕ) (xs : List StaleRegion) → sum (take n xs) + sum (drop n xs) ≡ sum xs
sum-take-drop zero xs = omega arith
sum-take-drop (suc n) [] = omega arith
sum-take-drop (suc n) (r ∷ xs) = omega (arith, sum-take-drop n xs)

-- Spaced regions hold fewer than 2 ^ 64 bytes in all, and are at most 2 ^ 63.
pub sum_bound :
    (lo : ℕ) (xs : List StaleRegion) → IsSpaced lo xs → lo ≤ 2 ^ 64 → lo + sum xs ≤ 2 ^ 64
sum_bound lo [] s h = omega arith
sum_bound lo (r ∷ xs) s h = omega (arith, sum_bound (r.offset + r.length + 1) xs s.3 (omega arith))

pub sum-lt : (xs : List StaleRegion) → IsSpaced 0 xs → sum xs < 2 ^ 64
sum-lt [] s = omega arith
sum-lt (r ∷ xs) s = omega (arith, sum_bound (r.offset + r.length + 1) xs s.3 (omega arith))

pub count_bound :
    (lo : ℕ) (xs : List StaleRegion)
    → IsSpaced lo xs
    → lo ≤ 2 ^ 64
    → lo + 2 * length xs ≤ 2 ^ 64 + 1
count_bound lo [] s h = omega arith
count_bound lo (r ∷ xs) s h =
    omega (arith, count_bound (r.offset + r.length + 1) xs s.3 (omega arith))

pub subtract_loop-sum :
    (total : ℕ) (xs : List StaleRegion)
    → total < 2 ^ 64
    → sum xs ≤ total
    → subtract_loop total xs ≡ total - sum xs
unfolding subtract_loop
subtract_loop-sum total [] h k = omega arith
subtract_loop-sum total (r ∷ xs) h k =
    omega (
      arith,
      subtract_loop-sum ((total + 2 ^ 64 - r.length) % 2 ^ 64) xs (omega arith) (omega arith),
    )

pub IsSpaced-weaken :
    (lo lo' : ℕ) (xs : List StaleRegion) → lo' ≤ lo → IsSpaced lo xs → IsSpaced lo' xs
IsSpaced-weaken lo lo' [] h s = tt
IsSpaced-weaken lo lo' (r ∷ xs) h s = (omega arith, s.1, s.2, s.3)
