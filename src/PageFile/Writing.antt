-- ===== src/PageFile/Writing.antt =====
-- `page_file_write_superblock` and the opening of a new file.
use wave_db.Base.{
  ℕ, ◌+◌, ◌-◌, ◌*◌, ◌%◌, ◌^◌, ◌<◌, ◌≤◌, ◌≡◌, ◌∙◌, refl, sym, ap, arith, true, not, Option, some,
  List, ◌++◌, leb, ◌==◌, length, replicate, length-append, length-replicate, if_elim,
}
use wave_db.Base.LittleEndian.{to_le, length-to_le}
use wave_db.TransactionId.{TransactionId, InRange}
use wave_db.StaleRegion.Codec.{serialize}
use wave_db.PageFile.{
  Superblock, is_magic, PageFile, Io, page_file_version, next_superblock, with_stale, fields,
  superblock_with, checked, candidate, blob_block, inline_block, put_slot, write_superblock,
}
use wave_db.PageFile.Codec.{IsSuperblock, length-fields, deserialize_superblock-superblock_with}
use wave_db.PageFile.Atomic.{IsCurrent, Outcome, Tears, current-Reads, put_slot-Outcome}
use mathlib.Core.Path.{subst}

checked-good :
    (sb : Superblock)
    → IsSuperblock sb
    → sb.version ≤ page_file_version
    → checked (some sb) ≡ some sb
unfolding checked is_magic
checked-good sb h v =
    let m : is_magic sb.magic ≡ true = ap is_magic h.magic in
    let t : leb sb.version page_file_version ≡ true = ground (arith, v) in rw (m, t) refl

-- The superblock that a write makes, and the block that carries it.
abbrev pub inline_superblock : PageFile → ℕ → ℕ → Option TransactionId → Superblock
inline_superblock pf root_offset root_size id =
    with_stale (next_superblock pf root_offset root_size id) 88 (length (serialize pf.stale_mgr))

abbrev pub apart_superblock : PageFile → ℕ → ℕ → Option TransactionId → Superblock
apart_superblock pf root_offset root_size id =
    with_stale (next_superblock pf root_offset root_size id) (blob_block pf * pf.block_size)
      (length (serialize pf.stale_mgr))

-- What the superblock says fits its words, and the revision does not wrap around.
pub record IsInRange (pf : PageFile) (offset size : ℕ) (id : Option TransactionId) : Type 0 where
  pub root_offset : offset < 2 ^ 64
  pub root_size : size < 2 ^ 64
  pub last_txn : InRange (next_superblock pf 0 0 id).last_txn
  pub revision : pf.revision + 1 < 2 ^ 64
  pub blob_offset : blob_block pf * pf.block_size < 2 ^ 64
  pub blob_size : length (serialize pf.stale_mgr) < 2 ^ 64

pub named-IsSuperblock :
    (pf : PageFile) (root_offset root_size : ℕ) (id : Option TransactionId) (at : ℕ)
    → IsInRange pf root_offset root_size id
    → at < 2 ^ 64
    → IsSuperblock (
        with_stale
          (next_superblock pf root_offset root_size id)
          at
          (length (serialize pf.stale_mgr)))
named-IsSuperblock pf root_offset root_size id at r h = record {
  magic = refl;
  version = omega arith;
  root_offset = r.root_offset;
  root_size = r.root_size;
  revision = omega arith;
  last_txn = r.last_txn;
  stale_region_offset = h;
  stale_region_size = r.blob_size;
}

inline_length :
    (blob : List ℕ) (block_size : ℕ)
    → 88 + length blob ≤ block_size
    → 74 + length (replicate 14 0 ++ (blob ++ replicate (block_size - (88 + length blob)) 0))
      ≡ block_size
inline_length blob block_size fits = omega (
  arith,
  fits,
  length-append (replicate 14 0) (blob ++ replicate (block_size - (88 + length blob)) 0),
  length-append blob (replicate (block_size - (88 + length blob)) 0),
  length-replicate {A = ℕ} (block_size - (88 + length blob)) 0,
)

module _ (xxh32 : List ℕ → ℕ) (xxh32-lt : (bytes : List ℕ) → xxh32 bytes < 2 ^ 32) where
  length-superblock_with :
      (sb : Superblock) (rest : List ℕ)
      → length sb.magic ≡ 4
      → length (superblock_with xxh32 sb rest) ≡ 74 + length rest
  unfolding superblock_with
  length-superblock_with sb rest h =
      length-append (fields sb) (to_le 4 (xxh32 (fields sb)) ++ rest)
      ∙ omega (
        arith,
        length-fields sb h,
        length-append (to_le 4 (xxh32 (fields sb))) rest,
        length-to_le 4 (xxh32 (fields sb)),
      )

  pub candidate-superblock_with :
      (sb : Superblock) (rest : List ℕ) (block_size : ℕ)
      → IsSuperblock sb
      → sb.version ≤ page_file_version
      → 74 + length rest ≡ block_size
      → candidate xxh32 block_size (superblock_with xxh32 sb rest) ≡ some sb
  unfolding candidate
  candidate-superblock_with sb rest block_size h v l =
      let whole : (length (superblock_with xxh32 sb rest) == block_size) ≡ true =
        let m = length-superblock_with sb rest (ap length h.magic) in ground (arith, m, l) in
      simp (
        whole,
        deserialize_superblock-superblock_with xxh32 xxh32-lt sb rest h,
        checked-good sb h v,
      )

  -- The write of a block of the next revision into its slot.
  pub put_slot-next :
      (short : Option ℕ) (pf : PageFile) (old new : Superblock) (block : List ℕ)
      → IsCurrent xxh32 pf old
      → new.revision ≡ (pf.revision + 1) % 2 ^ 64
      → pf.revision + 1 < 2 ^ 64
      → candidate xxh32 pf.block_size block ≡ some new
      → Tears xxh32 short pf block
      → Outcome xxh32 old new (put_slot short pf ((pf.revision + 1) % 2 ^ 64) block)
  put_slot-next short pf old new block c r small is tears =
      let wrap : (pf.revision + 1) % 2 ^ 64 ≡ pf.revision + 1 = omega (arith, small) in
      subst (λ n. Outcome xxh32 old new (put_slot short pf n block)) (sym wrap)
        (put_slot-Outcome xxh32 short pf old new block c (r ∙ wrap) is tears)

  -- A write whose stale regions fit the superblock's block leaves the new superblock as the one that
  -- is read, or the old one where it fails or is torn: a torn block reads as none or as before.
  pub write_superblock-inline :
      (io : Io) (pf : PageFile) (old : Superblock) (root_offset root_size : ℕ)
      (id : Option TransactionId)
      → IsCurrent xxh32 pf old
      → IsInRange pf root_offset root_size id
      → 88 + length (serialize pf.stale_mgr) ≤ pf.block_size
      → Tears xxh32 io.short pf (
          inline_block xxh32
            (inline_superblock pf root_offset root_size id)
            (serialize pf.stale_mgr)
            pf.block_size)
      → Outcome xxh32 old
          (inline_superblock pf root_offset root_size id)
          (write_superblock xxh32 io pf root_offset root_size id)
  unfolding write_superblock inline_block
  write_superblock-inline io pf old root_offset root_size id c r fits tears =
      if_elim (Outcome xxh32 old (inline_superblock pf root_offset root_size id))
        (not pf.is_writable) _ _ (λ a. (c, current-Reads xxh32 pf old c))
        (λ a.
          if_elim (Outcome xxh32 old (inline_superblock pf root_offset root_size id))
            (leb (88 + length (serialize pf.stale_mgr)) pf.block_size) _ _
            (λ b.
              let new = inline_superblock pf root_offset root_size id in
              put_slot-next io.short pf old new _ c refl r.revision
                (candidate-superblock_with new _ pf.block_size
                  (named-IsSuperblock pf root_offset root_size id 88 r (omega arith)) (omega arith)
                  (inline_length (serialize pf.stale_mgr) pf.block_size fits))
                tears)
            (λ b. absurd (ground (arith, b, fits))))
