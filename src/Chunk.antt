-- ===== src/Chunk.antt =====
-- src/HBTrie/chunk.c: chunks, and the comparisons of chunks and inline keys. A pointer is `none`
-- where it is NULL; the reference count is not part of the value.
pub mod Order
use wave_db.Base.{
  ℕ, Ordering, Option, none, some, List, [], ◌∷◌, ◌++◌, ltb, if◌then◌else◌, length, replicate, take,
  ◌-◌, min,
}

-- `chunk_t`: `size` bytes.
abbrev pub Chunk : Type 0
Chunk = List ℕ

-- The sign of `memcmp(a, b, n)`, as the C standard defines it: that of the first bytes that
-- differ, compared as `unsigned char`. The lists hold at least `n` bytes.
unfoldable pub memcmp : List ℕ → List ℕ → ℕ → Ordering
memcmp a b ℕ.zero = Ordering.eq
memcmp [] b (ℕ.suc n) = Ordering.eq
memcmp (x ∷ a) [] (ℕ.suc n) = Ordering.eq
memcmp (x ∷ a) (y ∷ b) (ℕ.suc n) =
    if ltb x y then Ordering.lt else if ltb y x then Ordering.gt else memcmp a b n

-- `cmp != 0 ? cmp : rest`
abbrev pub or_else : Ordering → Ordering → Ordering
or_else Ordering.lt rest = Ordering.lt
or_else Ordering.gt rest = Ordering.gt
or_else Ordering.eq rest = rest

unfoldable pub compare_sizes : ℕ → ℕ → Ordering
compare_sizes size_a size_b =
    if ltb size_a size_b
    then Ordering.lt
    else if ltb size_b size_a
    then Ordering.gt
    else Ordering.eq

-- The common body of the three comparisons: the bytes up to the shorter size, then the sizes.
unfoldable pub compare_bytes : List ℕ → List ℕ → Ordering
unfolding memcmp compare_sizes
compare_bytes a b =
    let min_size = if ltb (length a) (length b) then length a else length b in
    or_else (memcmp a b min_size) (compare_sizes (length a) (length b))

-- The NULL tests in front of each comparison.
abbrev compare_pointers : Option (List ℕ) → Option (List ℕ) → Ordering
compare_pointers none none = Ordering.eq
compare_pointers none (some b) = Ordering.lt
compare_pointers (some a) none = Ordering.gt
compare_pointers (some a) (some b) = compare_bytes a b

-- `chunk_compare`
unfoldable pub compare : Option Chunk → Option Chunk → Ordering
unfolding compare_bytes
compare a b = compare_pointers a b

-- `inline_key_compare`: the first `key_len` bytes of `key_data` against a chunk.
unfoldable pub inline_key_compare : Option (List ℕ) → ℕ → Option Chunk → Ordering
unfolding compare_bytes
inline_key_compare none key_len chunk = compare_pointers none chunk
inline_key_compare (some key_data) key_len chunk =
    compare_pointers (some (take key_len key_data)) chunk

-- `inline_key_compare_direct`
unfoldable pub inline_key_compare_direct : Option (List ℕ) → ℕ → Option (List ℕ) → ℕ → Ordering
unfolding inline_key_compare
inline_key_compare_direct a_data a_len none b_len = inline_key_compare a_data a_len none
inline_key_compare_direct a_data a_len (some b_data) b_len =
    inline_key_compare a_data a_len (some (take b_len b_data))

-- `chunk_create`: no chunk of size 0; without data the bytes are zero. The data holds at least
-- `chunk_size` bytes.
unfoldable pub create : Option (List ℕ) → ℕ → Option Chunk
create bytes ℕ.zero = none
create none (ℕ.suc n) = some (replicate (ℕ.suc n) 0)
create (some bytes) (ℕ.suc n) = some (take (ℕ.suc n) bytes)

-- `chunk_create_from_buffer`: at most the buffer's bytes, the rest zero.
unfoldable pub create_from_buffer : Option (List ℕ) → ℕ → Option Chunk
create_from_buffer buf ℕ.zero = none
create_from_buffer none (ℕ.suc n) = some (replicate (ℕ.suc n) 0)
create_from_buffer (some buf) (ℕ.suc n) =
    let copy_len = if ltb (length buf) (ℕ.suc n) then length buf else ℕ.suc n in
    some (take copy_len buf ++ replicate (ℕ.suc n - copy_len) 0)

-- `chunk_create_empty`
unfoldable pub create_empty : ℕ → Option Chunk
create_empty ℕ.zero = none
create_empty (ℕ.suc n) = some (replicate (ℕ.suc n) 0)
