-- ===== src/StaleRegion/Codec.antt =====
-- src/Storage/stale_region.c: the blob in which the page file keeps its stale regions. Words are in
-- the machine's order, little-endian here.
use wave_db.Base.{
  ℕ, zero, suc, ◌+◌, ◌-◌, ◌*◌, ◌/◌, ◌%◌, ◌^◌, ◌<◌, ◌≡◌, ◌∙◌, refl, arith, false, Option, none, some,
  List, [], ◌∷◌, ◌++◌, ltb, if◌then◌else◌, length, drop, length-append, All,
}
use wave_db.Base.LittleEndian.{to_le, read_le, length-to_le, read_le-to_le}
use wave_db.StaleRegion.{StaleRegion, StaleRegionMgr, initial_capacity}

-- The array of regions as it lies in memory.
unfoldable pub region_bytes : List StaleRegion → List ℕ
region_bytes [] = []
region_bytes (r ∷ regions) = to_le 8 r.offset ++ (to_le 8 r.length ++ region_bytes regions)

-- `stale_region_serialize`
unfoldable pub serialize : StaleRegionMgr → List ℕ
unfolding region_bytes
serialize mgr =
    to_le 8 (length mgr.regions) ++ (to_le 8 mgr.total_stale_bytes ++ region_bytes mgr.regions)

-- The copy of `count` regions, and the loop that adds up their lengths.
unfoldable pub regions_of : ℕ → List ℕ → List StaleRegion
regions_of zero bytes = []
regions_of (suc count) bytes =
    let (offset, bytes1) = read_le 8 bytes in
    let (len, rest) = read_le 8 bytes1 in
    record { offset = offset; length = len } ∷ regions_of count rest

unfoldable pub total_loop : ℕ → List StaleRegion → ℕ
total_loop total [] = total
total_loop total (r ∷ regions) = total_loop ((total + r.length) % 2 ^ 64) regions

-- The manager of the regions that were read.
unfoldable pub loaded : ℕ → List StaleRegion → StaleRegionMgr
unfolding total_loop
loaded count regions = record {
  regions = regions;
  capacity = if ltb count initial_capacity then initial_capacity else count;
  total_stale_bytes = total_loop 0 regions;
}

-- `stale_region_deserialize`
unfoldable pub deserialize : List ℕ → Option StaleRegionMgr
unfolding regions_of loaded
deserialize bytes =
    let (count, bytes1) = read_le 8 bytes in
    if ltb (length bytes) 16
    then none
    else if ltb ((length bytes - 16) / 16) count
    then none
    else some (loaded count (regions_of count (drop 8 bytes1)))

-- Offsets and lengths of 64 bits.
pub record IsRegion (r : StaleRegion) : Type 0 where
  pub offset : r.offset < 2 ^ 64
  pub length : r.length < 2 ^ 64

length-region_bytes :
    (regions : List StaleRegion) → length (region_bytes regions) ≡ 16 * length regions
unfolding region_bytes
length-region_bytes [] = refl
length-region_bytes (r ∷ regions) =
    length-append (to_le 8 r.offset) (to_le 8 r.length ++ region_bytes regions)
    ∙ omega (
      arith,
      length-to_le 8 r.offset,
      length-to_le 8 r.length,
      length-append (to_le 8 r.length) (region_bytes regions),
      length-region_bytes regions,
    )

regions_of-region_bytes :
    (regions : List StaleRegion)
    → All IsRegion regions
    → regions_of (length regions) (region_bytes regions) ≡ regions
unfolding regions_of region_bytes
regions_of-region_bytes [] h = refl
regions_of-region_bytes (r ∷ regions) h = simp (
  read_le-to_le 8 r.offset (to_le 8 r.length ++ region_bytes regions) h.0.offset,
  read_le-to_le 8 r.length (region_bytes regions) h.0.length,
  regions_of-region_bytes regions h.1,
)

drop-zero : (xs : List ℕ) → drop 0 xs ≡ xs
drop-zero [] = refl
drop-zero (x ∷ xs) = refl

drop-to_le_again : (v : ℕ) (rest : List ℕ) → drop 8 (to_le 8 v ++ rest) ≡ rest
unfolding to_le
drop-to_le_again v rest = drop-zero rest

-- The blob gives the same regions back, with their total counted anew.
pub deserialize-serialize_regions :
    (mgr : StaleRegionMgr)
    → All IsRegion mgr.regions
    → length mgr.regions < 2 ^ 60
    → deserialize (serialize mgr) ≡ some (loaded (length mgr.regions) mgr.regions)
unfolding deserialize serialize
deserialize-serialize_regions mgr h few =
    let n = length mgr.regions in
    let tail = region_bytes mgr.regions in
    let len : length (to_le 8 n ++ (to_le 8 mgr.total_stale_bytes ++ tail)) ≡ 16 + 16 * n =
      length-append (to_le 8 n) (to_le 8 mgr.total_stale_bytes ++ tail)
      ∙ omega (
        arith,
        length-to_le 8 n,
        length-to_le 8 mgr.total_stale_bytes,
        length-append (to_le 8 mgr.total_stale_bytes) tail,
        length-region_bytes mgr.regions,
      ) in
    let long : ltb (16 + 16 * n) 16 ≡ false = ground arith in
    let fits : ltb ((16 + 16 * n - 16) / 16) n ≡ false = ground arith in
    let small : n < 256 ^ 8 = omega (arith, few) in
    simp (
      len,
      long,
      fits,
      read_le-to_le 8 n (to_le 8 mgr.total_stale_bytes ++ tail) small,
      drop-to_le_again mgr.total_stale_bytes tail,
      regions_of-region_bytes mgr.regions h,
    )
