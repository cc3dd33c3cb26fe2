-- ===== src/PageFile/Codec.antt =====
-- Reading what `serialize_superblock` writes.
use wave_db.Base.{
  ℕ, ◌+◌, ◌^◌, ◌<◌, ◌≡◌, ◌∙◌, sym, ap, arith, true, some, List, ◌++◌, ◌==◌, length, take, drop,
  length-append, take-append_left, drop-append_left,
}
use wave_db.Base.LittleEndian.{to_le, length-to_le, read_le-to_le}
use wave_db.TransactionId.{InRange}
use wave_db.PageFile.{
  Superblock, page_file_magic, head, fields, superblock_with, read_head, with_stale,
  deserialize_superblock,
}
use mathlib.Core.List.{append_assoc}

-- A superblock of the file's magic, whose fields fit their words.
pub record IsSuperblock (sb : Superblock) : Type 0 where
  pub magic : sb.magic ≡ page_file_magic
  pub version : sb.version < 2 ^ 16
  pub root_offset : sb.root_offset < 2 ^ 64
  pub root_size : sb.root_size < 2 ^ 64
  pub revision : sb.revision < 2 ^ 64
  pub last_txn : InRange sb.last_txn
  pub stale_region_offset : sb.stale_region_offset < 2 ^ 64
  pub stale_region_size : sb.stale_region_size < 2 ^ 64

head-append : (sb : Superblock) (xs ys : List ℕ) → head sb xs ++ ys ≡ head sb (xs ++ ys)
unfolding head
head-append sb xs ys = simp append_assoc

length-head :
    (sb : Superblock) (rest : List ℕ)
    → length sb.magic ≡ 4
    → length (head sb rest) ≡ 54 + length rest
unfolding head
length-head sb rest h = simp (length-append, length-to_le, h) (omega arith)

pub length-fields : (sb : Superblock) → length sb.magic ≡ 4 → length (fields sb) ≡ 70
unfolding fields
length-fields sb h =
    length-head sb _ h
    ∙ omega (
      arith,
      length-append (to_le 8 sb.stale_region_offset) (to_le 8 sb.stale_region_size),
      length-to_le 8 sb.stale_region_offset,
      length-to_le 8 sb.stale_region_size,
    )

take-fields :
    (sb : Superblock) (rest : List ℕ)
    → length sb.magic ≡ 4
    → take 70 (fields sb ++ rest) ≡ fields sb
take-fields sb rest h =
    ap (λ n. take n (fields sb ++ rest)) (sym (length-fields sb h))
    ∙ take-append_left (fields sb) rest

take-length : (n : ℕ) (xs rest : List ℕ) → length xs ≡ n → take n (xs ++ rest) ≡ xs
take-length n xs rest h = ap (λ k. take k (xs ++ rest)) (sym h) ∙ take-append_left xs rest

drop-length : (n : ℕ) (xs rest : List ℕ) → length xs ≡ n → drop n (xs ++ rest) ≡ rest
drop-length n xs rest h = ap (λ k. drop k (xs ++ rest)) (sym h) ∙ drop-append_left xs rest

read_head-head :
    (sb : Superblock) (rest : List ℕ)
    → IsSuperblock sb
    → read_head (head sb rest) ≡ (with_stale sb 0 0, rest)
unfolding read_head head
read_head-head sb rest h =
    let m : length sb.magic ≡ 4 = ap length h.magic in
    let r8 = to_le 8 sb.last_txn.count ++ rest in
    let r7 = to_le 8 sb.last_txn.nanos ++ r8 in
    let r6 = to_le 8 sb.last_txn.time ++ r7 in
    let r5 = to_le 8 sb.revision ++ r6 in
    let r4 = to_le 8 sb.root_size ++ r5 in
    let r3 = to_le 8 sb.root_offset ++ r4 in
    let r2 = to_le 2 sb.version ++ r3 in
    simp (
      take-length 4 sb.magic r2 m,
      drop-length 4 sb.magic r2 m,
      read_le-to_le 2 sb.version r3 h.version,
      read_le-to_le 8 sb.root_offset r4 h.root_offset,
      read_le-to_le 8 sb.root_size r5 h.root_size,
      read_le-to_le 8 sb.revision r6 h.revision,
      read_le-to_le 8 sb.last_txn.time r7 h.last_txn.time,
      read_le-to_le 8 sb.last_txn.nanos r8 h.last_txn.nanos,
      read_le-to_le 8 sb.last_txn.count rest h.last_txn.count,
    )

module _ (xxh32 : List ℕ → ℕ) (xxh32-lt : (bytes : List ℕ) → xxh32 bytes < 2 ^ 32) where
  superblock_with-head :
      (sb : Superblock) (rest : List ℕ)
      → superblock_with xxh32 sb rest
        ≡ head sb (
            to_le 8 sb.stale_region_offset
            ++ (to_le 8 sb.stale_region_size ++ (to_le 4 (xxh32 (fields sb)) ++ rest)))
  unfolding superblock_with fields
  superblock_with-head sb rest =
      head-append sb _ _
      ∙ ap (head sb)
          (append_assoc (to_le 8 sb.stale_region_offset) (to_le 8 sb.stale_region_size) _)

  take-superblock_with :
      (sb : Superblock) (rest : List ℕ)
      → length sb.magic ≡ 4
      → take 70 (superblock_with xxh32 sb rest) ≡ fields sb
  unfolding superblock_with
  take-superblock_with sb rest m = take-fields sb _ m

  -- A superblock is read back whatever stands behind its checksum.
  pub deserialize_superblock-superblock_with :
      (sb : Superblock) (rest : List ℕ)
      → IsSuperblock sb
      → deserialize_superblock xxh32 (superblock_with xxh32 sb rest) ≡ some sb
  unfolding deserialize_superblock
  deserialize_superblock-superblock_with sb rest h =
      let crc = xxh32 (fields sb) in
      let small : crc < 256 ^ 4 = xxh32-lt (fields sb) in
      let at70 = to_le 4 crc ++ rest in
      let at62 = to_le 8 sb.stale_region_size ++ at70 in
      let at54 = to_le 8 sb.stale_region_offset ++ at62 in
      let same : (crc == crc) ≡ true = ground arith in
      let laid = superblock_with-head sb rest in
      let covered : take 70 (head sb at54) ≡ fields sb =
        ap (take 70) (sym laid) ∙ take-superblock_with sb rest (ap length h.magic) in
      ap (deserialize_superblock xxh32) laid
      ∙ simp (
        read_head-head sb at54 h,
        covered,
        same,
        read_le-to_le 8 sb.stale_region_offset at62 h.stale_region_offset,
        read_le-to_le 8 sb.stale_region_size at70 h.stale_region_size,
        read_le-to_le 4 crc rest small,
      )
