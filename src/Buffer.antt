-- ===== src/Buffer.antt =====
-- src/Buffer/buffer.c: byte buffers, as the lists of their bytes. Allocation succeeds, and the
-- reference counts are left out.
pub mod Laws
use wave_db.Base.{
  ℕ, ◌+◌, ◌-◌, Ordering, Option, none, some, List, [], ◌∷◌, ◌++◌, map, ◌==◌, ltb, if◌then◌else◌,
  length, take, drop, replicate,
}
use Prim.Native.Nat.{bit_and, bit_or, bit_xor}

-- `buffer_create`
abbrev pub create : ℕ → List ℕ
create size = replicate size 0

-- `buffer_create_from_pointer_copy` and `buffer_create_from_existing_memory`, for at least `size`
-- readable bytes.
unfoldable pub create_from_pointer_copy : List ℕ → ℕ → List ℕ
create_from_pointer_copy bytes size = take size bytes

-- `buffer_copy_from_pointer`
unfoldable pub copy_from_pointer : List ℕ → List ℕ → ℕ → List ℕ
copy_from_pointer buf bytes size =
    if ltb size (length buf) then take size bytes ++ drop size buf else take (length buf) bytes

-- `buffer_concat`: two copies into a zeroed buffer, which they fill.
unfoldable pub concat : List ℕ → List ℕ → List ℕ
concat buf1 buf2 = buf1 ++ buf2

-- `buffer_slice`
unfoldable pub slice : List ℕ → ℕ → ℕ → Option (List ℕ)
unfolding create_from_pointer_copy
slice buf start end =
    if ltb end start
    then none
    else if ltb (length buf) end
    then none
    else if ltb (length buf) start
    then none
    else some (create_from_pointer_copy (drop start buf) (end - start))

-- The two loops of `buffer_xor`, `buffer_or` and `buffer_and`: both buffers' bytes, then those of
-- the longer one against 0.
pub combine_loop : (ℕ → ℕ → ℕ) → List ℕ → List ℕ → List ℕ
combine_loop op [] buf2 = map (λ v. op v 0) buf2
combine_loop op (x ∷ buf1) [] = map (λ v. op v 0) (x ∷ buf1)
combine_loop op (x ∷ buf1) (y ∷ buf2) = op x y ∷ combine_loop op buf1 buf2

unfoldable pub xor : List ℕ → List ℕ → List ℕ
xor buf1 buf2 = combine_loop bit_xor buf1 buf2

unfoldable pub or : List ℕ → List ℕ → List ℕ
or buf1 buf2 = combine_loop bit_or buf1 buf2

unfoldable pub and : List ℕ → List ℕ → List ℕ
and buf1 buf2 = combine_loop bit_and buf1 buf2

-- `buffer_not`, on bytes.
unfoldable pub not : List ℕ → List ℕ
not buf = map (λ v. 255 - v) buf

-- The loop of `buffer_compare`: it runs on past a difference.
pub compare_loop : ℕ → ℕ → List ℕ → List ℕ → ℕ × ℕ
compare_loop a b [] buf2 = (a, b)
compare_loop a b (val1 ∷ buf1) [] = (a, b)
compare_loop a b (val1 ∷ buf1) (val2 ∷ buf2) =
    compare_loop (if val1 == val2 then a else val1) (if val1 == val2 then b else val2) buf1 buf2

-- `a > b`, `b > a` or neither.
abbrev pub sign : ℕ × ℕ → Ordering
sign (a, b) = if ltb b a then Ordering.gt else if ltb a b then Ordering.lt else Ordering.eq

unfoldable pub compare : List ℕ → List ℕ → Ordering
unfolding compare_loop
compare buf1 buf2 = sign (compare_loop (length buf1) (length buf2) buf1 buf2)
