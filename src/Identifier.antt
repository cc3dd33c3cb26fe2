-- ===== src/Identifier.antt =====
-- src/HBTrie/identifier.c and identifier.h: a part of a key's path, or a value, cut into chunks of
-- one size. Buffers are lists of bytes; allocation succeeds, and reference counts are left out.
pub mod Chunking
pub mod Ordered
pub mod Sized
use wave_db.Base.{
  ℕ, zero, suc, ◌+◌, ◌-◌, ◌*◌, ◌/◌, ◌%◌, Ordering, Option, none, some, List, [], ◌∷◌, ◌++◌, ◌==◌,
  ltb, if◌then◌else◌, length, take, drop, replicate, get_elem?,
}
use wave_db.Chunk
use wave_db.Chunk.{Chunk, or_else}

pub record Identifier : Type 0 where
  pub chunks : List Chunk
  pub size : ℕ
  pub chunk_size : ℕ

abbrev pub default_chunk_size : ℕ
default_chunk_size = 4

unfoldable pub calc_nchunk : ℕ → ℕ → ℕ
calc_nchunk size chunk_size = if size == 0 then 1 else (size - 1) / chunk_size + 1

unfoldable pub calc_last_chunk_size : ℕ → ℕ → ℕ
calc_last_chunk_size size chunk_size =
    let remainder = size % chunk_size in
    if size == 0 then chunk_size else if remainder == 0 then chunk_size else remainder

-- The loop that cuts the data into chunks, from chunk `i` on, with the number of chunks to go.
-- `memcpy` reads `memory`, which is the data and what stands behind it.
pub create_loop : List ℕ → ℕ → ℕ → ℕ → ℕ → List Chunk
create_loop memory size chunk_size i zero = []
create_loop memory size chunk_size i (suc left) =
    let chunk_len = if left == 0 then calc_last_chunk_size size chunk_size else chunk_size in
    (take chunk_len (drop (i * chunk_size) memory) ++ replicate (chunk_size - chunk_len) 0)
    ∷ create_loop memory size chunk_size (suc i) left

abbrev pub or_default : ℕ → ℕ
or_default chunk_size = if chunk_size == 0 then default_chunk_size else chunk_size

-- `identifier_create`: a NULL buffer is `none`, and `beyond` what the memory behind the buffer
-- holds.
unfoldable pub create : Option (List ℕ) → List ℕ → ℕ → Identifier
unfolding create_loop
create none beyond chunk_size = record {
  chunks = replicate (or_default chunk_size) 0 ∷ [];
  size = 0;
  chunk_size = or_default chunk_size;
}
create (some bytes) beyond chunk_size =
    let cs = or_default chunk_size in
    record {
      chunks = create_loop (bytes ++ beyond) (length bytes) cs 0 (calc_nchunk (length bytes) cs);
      size = length bytes;
      chunk_size = cs;
    }

-- `identifier_create_from_raw`: the memory from the pointer on, or `none` for NULL, and `len`.
unfoldable pub create_from_raw : Option (List ℕ) → ℕ → ℕ → Identifier
unfolding create_loop
create_from_raw none len chunk_size = record {
  chunks = [];
  size = len;
  chunk_size = or_default chunk_size;
}
create_from_raw (some memory) len chunk_size =
    let cs = or_default chunk_size in
    record {
      chunks = if len == 0 then [] else create_loop memory len cs 0 (calc_nchunk len cs);
      size = len;
      chunk_size = cs;
    }

-- The copying loop of `identifier_to_buffer` and `identifier_get_data`.
pub copy_loop : List Chunk → ℕ → ℕ → ℕ → List ℕ
copy_loop [] size chunk_size offset = []
copy_loop (chunk ∷ []) size chunk_size offset = take (size - offset) chunk
copy_loop (chunk ∷ next ∷ chunks) size chunk_size offset =
    take chunk_size chunk ++ copy_loop (next ∷ chunks) size chunk_size (offset + chunk_size)

-- `identifier_to_buffer`: `buffer_create` zeroes the `size` bytes that the loop writes to.
unfoldable pub to_buffer : Identifier → List ℕ
unfolding copy_loop
to_buffer id =
    let written = copy_loop id.chunks id.size id.chunk_size 0 in
    written ++ replicate (id.size - length written) 0

-- `identifier_get_data`, and `identifier_get_data_copy` in the same words: NULL for no data.
unfoldable pub get_data : Identifier → Option (List ℕ)
unfolding copy_loop
get_data id = if id.size == 0 then none else some (copy_loop id.chunks id.size id.chunk_size 0)

-- The loop of `identifier_compare` and what follows it.
unfoldable pub compare_chunks : List Chunk → List Chunk → Ordering
compare_chunks [] [] = Ordering.eq
compare_chunks [] (b ∷ b_rest) = Ordering.lt
compare_chunks (a ∷ a_rest) [] = Ordering.gt
compare_chunks (a ∷ a_rest) (b ∷ b_rest) =
    or_else (Chunk.compare (some a) (some b)) (compare_chunks a_rest b_rest)

-- `identifier_compare`
unfoldable pub compare : Option Identifier → Option Identifier → Ordering
compare none none = Ordering.eq
compare none (some b) = Ordering.lt
compare (some a) none = Ordering.gt
compare (some a) (some b) = compare_chunks a.chunks b.chunks

-- `identifier_get_chunk` and `identifier_chunk_count`
abbrev pub get_chunk : Identifier → ℕ → Option Chunk
get_chunk id index = if ltb index (length id.chunks) then get_elem? id.chunks index else none
