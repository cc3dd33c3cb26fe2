-- ===== src/PageFile.antt =====
-- src/Storage/page_file.c: the superblocks at the front of the page file, and the allocation of
-- blocks behind them. Words are in the machine's order, little-endian here. The blocks of nodes are
-- left out: of the file the state holds the superblocks' blocks, the stale-region blobs and the size.
-- Offsets and sizes in the file stay far below 2 ^ 64, so they are written without the wrap-around.
mod Superblocks
pub mod Codec
pub mod Latest
pub mod Atomic
pub mod Writing
pub mod Apart
pub mod Opening
pub mod Runs
unfoldable pub use Superblocks.*
use wave_db.Base.{
  ℕ, zero, suc, ◌+◌, ◌-◌, ◌*◌, ◌/◌, ◌%◌, ◌^◌, max, Bool, true, false, ◌&&◌, not, Option, none, some,
  List, [], ◌∷◌, ◌++◌, ltb, leb, ◌==◌, if◌then◌else◌, length, take, drop, replicate, set, get_or,
}
use wave_db.Base.LittleEndian.{to_le, read_le}
use wave_db.TransactionId.{TransactionId}
use wave_db.StaleRegion.{StaleRegionMgr}
use wave_db.StaleRegion.Codec.{serialize}

-- `page_file_t`, with the blocks of the superblocks, the blobs written to blocks of their own with
-- their offsets, and the size of the file.
pub record PageFile : Type 0 where
  pub slots : List (List ℕ)
  pub blobs : List (ℕ × List ℕ)
  pub size : ℕ
  pub block_size : ℕ
  pub num_superblocks : ℕ
  pub cur_bid : ℕ
  pub cur_offset : ℕ
  pub revision : ℕ
  pub stale_mgr : StaleRegionMgr
  pub is_writable : Bool

-- What the file answers to the writing of a superblock: whether it can be extended and takes the
-- blob, and the number of bytes of a short write of the block.
pub record Io : Type 0 where
  pub extend_ok : Bool
  pub blob_ok : Bool
  pub short : Option ℕ

-- What a write of `new` leaves where `old` was.
abbrev pub written : Option ℕ → List ℕ → List ℕ → List ℕ
written none new old = new
written (some k) new old = take k new ++ drop k old

-- The superblock of the next revision, without stale regions.
abbrev pub next_superblock : PageFile → ℕ → ℕ → Option TransactionId → Superblock
next_superblock pf root_offset root_size last_txn_id = record {
  magic = page_file_magic;
  version = page_file_version;
  root_offset = root_offset;
  root_size = root_size;
  revision = (pf.revision + 1) % 2 ^ 64;
  last_txn = or_zero last_txn_id;
  stale_region_offset = 0;
  stale_region_size = 0;
}
  where
    or_zero : Option TransactionId → TransactionId
    or_zero none = record { time = 0; nanos = 0; count = 0 }
    or_zero (some id) = id

-- The write of the block into the slot of its revision; the revision goes back if it fails.
unfoldable pub put_slot : Option ℕ → PageFile → ℕ → List ℕ → PageFile × Bool
put_slot short pf revision block =
    let slot = revision % pf.num_superblocks in
    let slots = set pf.slots slot (written short block (get_or pf.slots slot [])) in
    elim short [
      | none ↦ (record pf { slots = slots; revision = revision }, true)
      | some k ↦ (record pf { slots = slots }, false)
    ]

-- The fresh block at the end of the file.
abbrev pub blob_block : PageFile → ℕ
blob_block pf = (pf.size + pf.block_size - 1) / pf.block_size

-- The file with the fresh block, and with the blob in it.
abbrev pub extended : PageFile → PageFile
extended pf = record pf { size = blob_block pf * pf.block_size + pf.block_size }

abbrev pub with_blob : PageFile → List ℕ → PageFile
with_blob pf blob = record pf {
  size =
      max (blob_block pf * pf.block_size + pf.block_size)
        (blob_block pf * pf.block_size + length blob);
  blobs = pf.blobs ++ ((blob_block pf * pf.block_size, blob) ∷ []);
}

-- XXH32 with seed 0, a library's.
module _ (xxh32 : List ℕ → ℕ) where
  -- `page_file_read_superblock`: the superblock and its slot.
  unfoldable pub read_superblock : PageFile → Option (Superblock × ℕ)
  unfolding read_loop
  read_superblock pf = read_loop xxh32 pf.block_size pf.slots 0 none

  -- A blob that fits stands at 88 in the superblock's own block.
  unfoldable pub inline_block : Superblock → List ℕ → ℕ → List ℕ
  unfolding superblock_with
  inline_block sb blob block_size =
      superblock_with xxh32 sb
        (replicate 14 0 ++ (blob ++ replicate (block_size - (88 + length blob)) 0))

  -- A larger one stands in a fresh block.
  unfoldable pub write_apart : Io → PageFile → Superblock → List ℕ → PageFile × Bool
  unfolding serialize_superblock put_slot
  write_apart io pf sb blob =
      let named = with_stale sb (blob_block pf * pf.block_size) (length blob) in
      if not io.extend_ok
      then (pf, false)
      else if not io.blob_ok
      then (extended pf, false)
      else put_slot io.short (with_blob pf blob) sb.revision
          (serialize_superblock xxh32 named pf.block_size)

  -- `page_file_write_superblock`. The blob is never empty.
  unfoldable pub write_superblock : Io → PageFile → ℕ → ℕ → Option TransactionId → PageFile × Bool
  unfolding inline_block put_slot write_apart
  write_superblock io pf root_offset root_size last_txn_id =
      let sb = next_superblock pf root_offset root_size last_txn_id in
      let blob = serialize pf.stale_mgr in
      let named = with_stale sb 88 (length blob) in
      if not pf.is_writable
      then (pf, false)
      else if leb (88 + length blob) pf.block_size
      then put_slot io.short pf sb.revision (inline_block named blob pf.block_size)
      else write_apart io pf sb blob

  -- `page_file_open` for writing, of an empty file, where every call succeeds.
  unfoldable pub open_new : PageFile → PageFile
  unfolding serialize_superblock
  open_new pf = record pf {
    slots =
        replicate pf.num_superblocks (serialize_superblock xxh32 initial_superblock pf.block_size);
    size = pf.num_superblocks * pf.block_size;
    cur_bid = pf.num_superblocks;
    cur_offset = 0;
    revision = 0;
    is_writable = true;
  }

-- `page_file_alloc_block`, where the file can be extended or not.
unfoldable pub alloc_block : Bool → PageFile → PageFile × Option ℕ
alloc_block extend_ok pf =
    let bid = if leb pf.block_size pf.cur_offset then pf.cur_bid + 1 else pf.cur_bid in
    let required_end = (bid + 1) * pf.block_size in
    let moved = record pf {
      cur_bid = bid;
      cur_offset = if leb pf.block_size pf.cur_offset then 0 else pf.cur_offset;
    } in
    let reserved = record pf {
      cur_bid = bid;
      cur_offset = pf.block_size;
      size = max pf.size required_end;
    } in
    if not pf.is_writable
    then (pf, none)
    else if ltb pf.size required_end && not extend_ok
    then (moved, none)
    else (reserved, some bid)
