-- ===== src/Identifier/Sized.antt =====
-- Every chunk of a created identifier has the chunk size, and what its comparison says.
use wave_db.Base.{
  ℕ, zero, suc, ◌+◌, ◌-◌, ◌*◌, ◌/◌, ◌<◌, ◌≤◌, ◌≡◌, ◌∙◌, arith, false, some, List, ◌++◌, ◌==◌,
  length, take, drop, replicate, length-take, length-drop, length-append, length-replicate,
}
use wave_db.Chunk.Order.{lexicographic}
use wave_db.Identifier.{calc_last_chunk_size, create_loop, or_default, create, compare}
use wave_db.Identifier.Chunking.{last_chunk, calc_nchunk-suc, suc_mul, or_default_pos}
use wave_db.Identifier.Ordered.{padded, IsChunked, compare_chunks-lexicographic}
use native.Mathlib.Nat.{mod-lt}

length-padded_piece :
    (k cs o : ℕ) (memory : List ℕ)
    → k ≤ cs
    → o + k ≤ length memory
    → length (take k (drop o memory) ++ replicate (cs - k) 0) ≡ cs
length-padded_piece k cs o memory h room = omega (
  arith,
  length-append (take k (drop o memory)) (replicate (cs - k) 0),
  length-take k (drop o memory),
  length-drop o memory,
  length-replicate {A = ℕ} (cs - k) 0,
)

create_loop-IsChunked :
    (memory : List ℕ) (n cs i left : ℕ)
    → n ≤ length memory
    → i * cs + left * cs < n
    → calc_last_chunk_size n cs ≡ n - (i * cs + left * cs)
    → calc_last_chunk_size n cs ≤ cs
    → IsChunked cs (create_loop memory n cs i (suc left))
unfolding create_loop
create_loop-IsChunked memory n cs i zero whole start last most = (
  length-padded_piece (calc_last_chunk_size n cs) cs (i * cs) memory most
      (omega (arith, start, last)),
  tt,
)
create_loop-IsChunked memory n cs i (suc left) whole start last most =
    let e : (suc left == 0) ≡ false = ground arith in
    (
      rw e (
          length-padded_piece cs cs (i * cs) memory (omega arith)
            (omega (arith, start, suc_mul left cs))),
      create_loop-IsChunked memory n cs (suc i) left whole
          (omega (arith, start, suc_mul left cs, suc_mul i cs))
          (last ∙ omega (arith, suc_mul left cs, suc_mul i cs)) most,
    )

last_le : (n cs : ℕ) → 0 < cs → calc_last_chunk_size n cs ≤ cs
unfolding calc_last_chunk_size
last_le n cs some_size = let r = mod-lt n some_size in ground (arith, r)

create-IsChunked :
    (bytes beyond : List ℕ) (chunk_size : ℕ)
    → 0 < length bytes
    → IsChunked (or_default chunk_size) (create (some bytes) beyond chunk_size).chunks
unfolding create
create-IsChunked bytes beyond chunk_size some_bytes =
    let n = length bytes in
    let cs = or_default chunk_size in
    let q = (n - 1) / cs in
    let l = last_chunk n cs some_bytes (or_default_pos chunk_size) in
    let z : 0 * cs ≡ 0 = omega arith in
    rw (calc_nchunk-suc n cs some_bytes) (
      create_loop-IsChunked (bytes ++ beyond) n cs 0 q (omega (arith, length-append bytes beyond))
        (omega (arith, l.0, z)) (l.1 ∙ omega (arith, z)) (last_le n cs (or_default_pos chunk_size)))

-- Identifiers made from non-empty buffers with one chunk size compare as the bytes of their padded
-- chunks do, lexicographically.
pub compare-create :
    (a b beyond beyond' : List ℕ) (chunk_size : ℕ)
    → 0 < length a
    → 0 < length b
    → compare (some (create (some a) beyond chunk_size)) (some (create (some b) beyond' chunk_size))
      ≡ lexicographic
          (padded (create (some a) beyond chunk_size).chunks)
          (padded (create (some b) beyond' chunk_size).chunks)
unfolding compare
compare-create a b beyond beyond' chunk_size h k =
    compare_chunks-lexicographic _ _ (or_default chunk_size) (or_default_pos chunk_size)
      (create-IsChunked a beyond chunk_size h) (create-IsChunked b beyond' chunk_size k)
