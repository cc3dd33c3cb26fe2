-- ===== src/Examples/Pages.antt =====
-- Runs of src/Storage/page_file.c and src/Storage/stale_region.c.
use wave_db.Base.{ℕ, ◌≡◌, inl, refl, arith, true, false, none, some, [], ◌∷◌}
use wave_db.Base.LittleEndian.{to_le, read_le, from_le}
use wave_db.Wal.Crc.{crc32, crc32-lt, crc_loop, crc_step, crc32_table}
use wave_db.StaleRegion.{StaleRegionMgr}
use wave_db.StaleRegion.Codec.{
  serialize, region_bytes, deserialize, loaded, deserialize-serialize_regions,
}
use wave_db.PageFile.{
  PageFile, Io, candidate, inline_block, superblock_with, fields, head, serialize_superblock,
  deserialize_superblock, read_head, blob_block, open_new, initial_superblock, write_superblock,
  write_apart, put_slot, alloc_block,
}
use wave_db.PageFile.Atomic.{Reads, Tears}
use wave_db.PageFile.Writing.{IsInRange, inline_superblock, apart_superblock}
use wave_db.PageFile.Apart.{alloc_block-blob}
use wave_db.PageFile.Runs.{Run, opened, wrote_apart, allocated, last, Run-Reads}

abbrev stale : StaleRegionMgr
stale = record {
  regions = record { offset = 4096; length = 128 } ∷ record { offset = 8192; length = 64 } ∷ [];
  capacity = 16;
  total_stale_bytes = 192;
}

deserialize-serialize_regions_example :
    deserialize (serialize stale) ≡ some (loaded 2 stale.regions)
deserialize-serialize_regions_example =
    deserialize-serialize_regions stale
      (
        record { offset = omega arith; length = omega arith },
        (record { offset = omega arith; length = omega arith }, tt),
      )
      (omega arith)

abbrev closed_file : ℕ → PageFile
closed_file block_size = record {
  slots = [];
  blobs = [];
  size = 0;
  block_size = block_size;
  num_superblocks = 2;
  cur_bid = 2;
  cur_offset = 0;
  revision = 0;
  stale_mgr = stale;
  is_writable = false;
}

abbrev good : Io
good = record { extend_ok = true; blob_ok = true; short = none }

-- A checksum for the runs.
abbrev page_file : ℕ → PageFile
page_file block_size = open_new crc32 (closed_file block_size)

page_file-IsInRange : IsInRange (page_file 256) 768 0 none
unfolding open_new serialize to_le
page_file-IsInRange = record {
  root_offset = omega arith;
  root_size = omega arith;
  last_txn = record { time = omega arith; nanos = omega arith; count = omega arith };
  revision = omega arith;
  blob_offset = omega arith;
  blob_size = omega arith;
}

small_file-IsInRange : IsInRange (page_file 100) 300 0 none
unfolding open_new serialize to_le
small_file-IsInRange = record {
  root_offset = omega arith;
  root_size = omega arith;
  last_txn = record { time = omega arith; nanos = omega arith; count = omega arith };
  revision = omega arith;
  blob_offset = omega arith;
  blob_size = omega arith;
}

-- A write that stops behind 60 bytes, in the checksummed part.
abbrev torn : Io
torn = record good { short = some 60 }

torn_refused :
    Tears crc32 torn.short
      (page_file 256)
      (inline_block crc32 (inline_superblock (page_file 256) 768 0 none) (serialize stale) 256)
unfolding candidate deserialize_superblock read_head superblock_with fields head
    serialize_superblock inline_block open_new serialize region_bytes to_le from_le read_le crc32
    crc_loop crc_step crc32_table
torn_refused = inl refl

-- They do not fit a block of 100, and go to a block of their own.
apart_run :
    Run crc32 (alloc_block true (write_superblock crc32 good (page_file 100) 300 0 none).0).0 (
      last initial_superblock
        (apart_superblock (page_file 100) 300 0 none)
        (write_superblock crc32 good (page_file 100) 300 0 none))
unfolding open_new serialize to_le
apart_run = allocated true (write_superblock crc32 good (page_file 100) 300 0 none).0 _ (
    wrote_apart good (page_file 100) initial_superblock 300 0 none
      (opened (closed_file 100) (omega arith) (omega arith)) small_file-IsInRange (omega arith)
      (omega arith) tt)

Run-Reads_example :
    Reads crc32 (alloc_block true (write_superblock crc32 good (page_file 100) 300 0 none).0).0 (
      last initial_superblock
        (apart_superblock (page_file 100) 300 0 none)
        (write_superblock crc32 good (page_file 100) 300 0 none))
Run-Reads_example = Run-Reads crc32 crc32-lt _ _ apart_run

-- One block behind the superblocks, and it is full.
abbrev full_file : PageFile
full_file = record (page_file 100) { size = 300; cur_bid = 2; cur_offset = 100 }

alloc_block-blob_example :
    (alloc_block true (write_superblock crc32 good full_file 200 0 none).0).1
    ≡ some (blob_block full_file)
unfolding open_new serialize to_le write_superblock write_apart put_slot
alloc_block-blob_example =
    alloc_block-blob crc32 good full_file 200 0 none refl (omega arith) refl refl (omega arith) refl
