-- ===== src/PageFile/Runs.antt =====
-- Series of writes to the superblocks of one file.
use wave_db.Base.{
  ℕ, ◌+◌, ◌*◌, ◌<◌, ◌≤◌, ◌^◌, Bool, true, false, ◌&&◌, not, Option, none, some, List, ltb, leb,
  if◌then◌else◌, length, max, if_elim,
}
use wave_db.TransactionId.{TransactionId}
use wave_db.StaleRegion.{StaleRegionMgr}
use wave_db.StaleRegion.Codec.{serialize}
use wave_db.PageFile.{
  Superblock, PageFile, Io, initial_superblock, serialize_superblock, inline_block, open_new,
  write_superblock, alloc_block,
}
use wave_db.PageFile.Atomic.{IsCurrent, Outcome, Reads, Tears, current-Reads}
use wave_db.PageFile.Writing.{
  IsInRange, inline_superblock, apart_superblock, write_superblock-inline,
}
use wave_db.PageFile.Apart.{write_superblock-apart}
use wave_db.PageFile.Opening.{open_new-IsCurrent}

-- The superblock that counts behind a write: the new one where it succeeded.
abbrev pub last : Superblock → Superblock → PageFile × Bool → Superblock
last old new (pf, true) = new
last old new (pf, false) = old

-- A new file, writes of superblocks that succeed, fail or are torn, allocations of blocks, and the
-- marking of stale regions between them; with the superblock of the last write that succeeded.
pub data Run (xxh32 : List ℕ → ℕ) : PageFile → Superblock → Type 0 where
  opened :
      (pf : PageFile)
      → 2 ≤ pf.num_superblocks
      → 74 ≤ pf.block_size
      → Run xxh32 (open_new xxh32 pf) initial_superblock
  wrote_inline :
      (io : Io) (pf : PageFile) (old : Superblock) (root_offset root_size : ℕ)
      (id : Option TransactionId)
      → Run xxh32 pf old
      → IsInRange pf root_offset root_size id
      → 88 + length (serialize pf.stale_mgr) ≤ pf.block_size
      → Tears xxh32 io.short pf (
          inline_block xxh32
            (inline_superblock pf root_offset root_size id)
            (serialize pf.stale_mgr)
            pf.block_size)
      → Run xxh32 (write_superblock xxh32 io pf root_offset root_size id).0 (
          last old
            (inline_superblock pf root_offset root_size id)
            (write_superblock xxh32 io pf root_offset root_size id))
  wrote_apart :
      (io : Io) (pf : PageFile) (old : Superblock) (root_offset root_size : ℕ)
      (id : Option TransactionId)
      → Run xxh32 pf old
      → IsInRange pf root_offset root_size id
      → 74 ≤ pf.block_size
      → pf.block_size < 88 + length (serialize pf.stale_mgr)
      → Tears xxh32 io.short pf
          (serialize_superblock xxh32 (apart_superblock pf root_offset root_size id) pf.block_size)
      → Run xxh32 (write_superblock xxh32 io pf root_offset root_size id).0 (
          last old
            (apart_superblock pf root_offset root_size id)
            (write_superblock xxh32 io pf root_offset root_size id))
  allocated :
      (extend_ok : Bool) (pf : PageFile) (sb : Superblock)
      → Run xxh32 pf sb
      → Run xxh32 (alloc_block extend_ok pf).0 sb
  marked :
      (pf : PageFile) (sb : Superblock) (mgr : StaleRegionMgr)
      → Run xxh32 pf sb
      → Run xxh32 (record pf { stale_mgr = mgr }) sb

module _ (xxh32 : List ℕ → ℕ) (xxh32-lt : (bytes : List ℕ) → xxh32 bytes < 2 ^ 32) where
  last-IsCurrent :
      (old new : Superblock) (o : PageFile × Bool)
      → Outcome xxh32 old new o
      → IsCurrent xxh32 o.0 (last old new o)
  last-IsCurrent old new (pf, true) h = h.0
  last-IsCurrent old new (pf, false) h = h.0

  same_slots :
      (pf other : PageFile) (sb : Superblock)
      → IsCurrent xxh32 pf sb
      → IsCurrent xxh32
          (record other {
            slots = pf.slots;
            block_size = pf.block_size;
            num_superblocks = pf.num_superblocks;
            revision = pf.revision;
          })
          sb
  same_slots pf other sb c = record {
    two = c.two;
    all_slots = c.all_slots;
    revision = c.revision;
    latest = c.latest;
    block = c.block;
    here = c.here;
    is = c.is;
  }

  alloc_block-IsCurrent :
      (extend_ok : Bool) (pf : PageFile) (sb : Superblock)
      → IsCurrent xxh32 pf sb
      → IsCurrent xxh32 (alloc_block extend_ok pf).0 sb
  unfolding alloc_block
  alloc_block-IsCurrent extend_ok pf sb c =
      let bid = if leb pf.block_size pf.cur_offset then pf.cur_bid + 1 else pf.cur_bid in
      let required_end = (bid + 1) * pf.block_size in
      let moved = record pf {
        cur_bid = bid;
        cur_offset = if leb pf.block_size pf.cur_offset then 0 else pf.cur_offset;
      } in
      let reserved = record pf {
        cur_bid = bid;
        cur_offset = pf.block_size;
        size = max pf.size required_end;
      } in
      if_elim {A = PageFile × Option ℕ} (λ o. IsCurrent xxh32 o.0 sb) (not pf.is_writable)
        (pf, none)
        (if ltb pf.size required_end && not extend_ok then (moved, none) else (reserved, some bid))
        (λ a. c)
        (λ a.
          if_elim {A = PageFile × Option ℕ} (λ o. IsCurrent xxh32 o.0 sb)
            (ltb pf.size required_end && not extend_ok) (moved, none) (reserved, some bid)
            (λ b. same_slots pf moved sb c) (λ b. same_slots pf reserved sb c))

  Run-IsCurrent : (pf : PageFile) (sb : Superblock) → Run xxh32 pf sb → IsCurrent xxh32 pf sb
  Run-IsCurrent _ _ (opened pf two room) = open_new-IsCurrent xxh32 xxh32-lt pf two room
  Run-IsCurrent _ _ (wrote_inline io pf old root_offset root_size id run r fits tears) =
      last-IsCurrent old _ _ (
        write_superblock-inline xxh32 xxh32-lt io pf old root_offset root_size id
          (Run-IsCurrent pf old run) r fits tears)
  Run-IsCurrent _ _ (wrote_apart io pf old root_offset root_size id run r room over tears) =
      last-IsCurrent old _ _ (
        write_superblock-apart xxh32 xxh32-lt io pf old root_offset root_size id
          (Run-IsCurrent pf old run) r room over tears)
  Run-IsCurrent _ _ (allocated extend_ok pf sb run) =
      alloc_block-IsCurrent extend_ok pf sb (Run-IsCurrent pf sb run)
  Run-IsCurrent _ _ (marked pf sb mgr run) =
      same_slots pf (record pf { stale_mgr = mgr }) sb (Run-IsCurrent pf sb run)

  -- After any series of writes of superblocks on a new file, whole, failed or torn, with allocations
  -- and other stale regions between them, the superblock that is read is that of the last write that
  -- succeeded. A torn block reads as none or as what its slot held, values fit their words, and the
  -- checksum has 32 bits.
  pub Run-Reads : (pf : PageFile) (sb : Superblock) → Run xxh32 pf sb → Reads xxh32 pf sb
  Run-Reads pf sb run = current-Reads xxh32 pf sb (Run-IsCurrent pf sb run)
