-- ===== src/PageFile/Superblocks.antt =====
-- src/Storage/page_file.c: the bytes of a superblock, and the loop that looks for the latest. Words are in
-- the machine's order, little-endian here.
use wave_db.Base.{
  ℕ, suc, ◌-◌, Bool, false, ◌&&◌, Option, none, some, List, [], ◌∷◌, ◌++◌, ltb, leb, ◌==◌,
  if◌then◌else◌, length, take, drop, replicate,
}
use wave_db.Base.LittleEndian.{to_le, read_le}
use wave_db.TransactionId.{TransactionId}

-- `page_superblock_t`, without the checksum.
pub record Superblock : Type 0 where
  pub magic : List ℕ
  pub version : ℕ
  pub root_offset : ℕ
  pub root_size : ℕ
  pub revision : ℕ
  pub last_txn : TransactionId
  pub stale_region_offset : ℕ
  pub stale_region_size : ℕ

-- "WDBP"
abbrev pub page_file_magic : List ℕ
page_file_magic = 87 ∷ 68 ∷ 66 ∷ 80 ∷ []

abbrev pub page_file_version : ℕ
page_file_version = 1

-- The first 54 bytes of a superblock, in front of something.
unfoldable pub head : Superblock → List ℕ → List ℕ
head sb rest =
    sb.magic
    ++ (to_le 2 sb.version
        ++ (to_le 8 sb.root_offset
            ++ (to_le 8 sb.root_size
                ++ (to_le 8 sb.revision
                    ++ (to_le 8 sb.last_txn.time
                        ++ (to_le 8 sb.last_txn.nanos ++ (to_le 8 sb.last_txn.count ++ rest)))))))

-- The 70 bytes that the checksum covers.
unfoldable pub fields : Superblock → List ℕ
unfolding head
fields sb = head sb (to_le 8 sb.stale_region_offset ++ to_le 8 sb.stale_region_size)

-- The fields of the first 54 bytes, and what follows them.
unfoldable pub read_head : List ℕ → Superblock × List ℕ
read_head buf =
    let (version, at6) = read_le 2 (drop 4 buf) in
    let (root_offset, at14) = read_le 8 at6 in
    let (root_size, at22) = read_le 8 at14 in
    let (revision, at30) = read_le 8 at22 in
    let (time, at38) = read_le 8 at30 in
    let (nanos, at46) = read_le 8 at38 in
    let (count, at54) = read_le 8 at46 in
    (
      record {
        magic = take 4 buf;
        version = version;
        root_offset = root_offset;
        root_size = root_size;
        revision = revision;
        last_txn = record { time = time; nanos = nanos; count = count };
        stale_region_offset = 0;
        stale_region_size = 0;
      },
      at54,
    )

abbrev pub with_stale : Superblock → ℕ → ℕ → Superblock
with_stale sb offset size = record sb { stale_region_offset = offset; stale_region_size = size }

unfoldable pub is_magic : List ℕ → Bool
is_magic (a ∷ b ∷ c ∷ d ∷ []) = a == 87 && b == 68 && c == 66 && d == 80
is_magic other = false

-- A superblock of the right magic and version.
unfoldable pub checked : Option Superblock → Option Superblock
unfolding is_magic
checked none = none
checked (some sb) = if is_magic sb.magic && leb sb.version page_file_version then some sb else none

abbrev pub better : Option (Superblock × ℕ) → ℕ → Option Superblock → Option (Superblock × ℕ)
better best i none = best
better none i (some sb) = some (sb, i)
better (some (best, j)) i (some sb) =
    if ltb best.revision sb.revision then some (sb, i) else some (best, j)

-- The superblock of a new file, in every slot.
abbrev pub initial_superblock : Superblock
initial_superblock = record {
  magic = page_file_magic;
  version = page_file_version;
  root_offset = 0;
  root_size = 0;
  revision = 0;
  last_txn = record { time = 0; nanos = 0; count = 0 };
  stale_region_offset = 0;
  stale_region_size = 0;
}

-- XXH32 with seed 0, a library's.
module _ (xxh32 : List ℕ → ℕ) where
  -- `serialize_superblock`, with `rest` for the bytes behind the checksum.
  unfoldable pub superblock_with : Superblock → List ℕ → List ℕ
  unfolding fields
  superblock_with sb rest = fields sb ++ (to_le 4 (xxh32 (fields sb)) ++ rest)

  -- `serialize_superblock` into a block.
  unfoldable pub serialize_superblock : Superblock → ℕ → List ℕ
  unfolding superblock_with
  serialize_superblock sb block_size = superblock_with sb (replicate (block_size - 74) 0)

  -- `deserialize_superblock`: the layout with stale regions, or the one before.
  unfoldable pub deserialize_superblock : List ℕ → Option Superblock
  deserialize_superblock buf =
      let (sb, at54) = read_head buf in
      let (stale_region_offset, at62) = read_le 8 at54 in
      let (stale_region_size, at70) = read_le 8 at62 in
      if xxh32 (take 70 buf) == (read_le 4 at70).0
      then some (with_stale sb stale_region_offset stale_region_size)
      else if xxh32 (take 54 buf) == (read_le 4 at54).0
      then some (with_stale sb 0 0)
      else none

  -- What the loop of `page_file_read_superblock` makes of one block.
  unfoldable pub candidate : ℕ → List ℕ → Option Superblock
  unfolding deserialize_superblock checked
  candidate block_size block =
      if length block == block_size then checked (deserialize_superblock block) else none

  -- The loop, from slot `i` on.
  unfoldable pub read_loop :
      ℕ → List (List ℕ) → ℕ → Option (Superblock × ℕ) → Option (Superblock × ℕ)
  unfolding candidate
  read_loop block_size [] i best = best
  read_loop block_size (block ∷ slots) i best =
      read_loop block_size slots (suc i) (better best i (candidate block_size block))
