-- ===== src/Examples/Regions.antt =====
-- Runs of src/Storage/stale_region.c.
use wave_db.Base.{ℕ, ◌≡◌, ◌||◌, ◌+◌, refl, [], ◌∷◌, arith}
use wave_db.StaleRegion
use wave_db.StaleRegion.{StaleRegion, StaleRegionMgr}
use wave_db.StaleRegion.Add.{IsValid, add_sound}
use wave_db.StaleRegion.Spaced.{within, covers}

abbrev region : ℕ → ℕ → StaleRegion
region offset length = record { offset = offset; length = length }

abbrev two_regions : StaleRegionMgr
two_regions = record {
  regions = region 100 50 ∷ region 200 50 ∷ [];
  capacity = 16;
  total_stale_bytes = 100;
}

-- A range that closes the gap merges both regions.
merges_both : (StaleRegion.add two_regions 150 50).regions ≡ region 100 150 ∷ []
unfolding StaleRegion.add
merges_both = refl

-- A range that touches neither is inserted.
inserts_front : (StaleRegion.add two_regions 10 20).regions ≡ region 10 20 ∷ two_regions.regions
unfolding StaleRegion.add
inserts_front = refl

two_regions-IsValid : IsValid two_regions
two_regions-IsValid = record {
  spaced = omega arith;
  total = refl;
  room = omega arith;
  some_room = omega arith;
}

add_sound_example :
    IsValid (StaleRegion.add two_regions 140 70)
    × ((b : ℕ)
        → covers (StaleRegion.add two_regions 140 70).regions b
          ≡ (within 140 (140 + 70) b || covers two_regions.regions b))
add_sound_example = add_sound two_regions 140 70 two_regions-IsValid (omega arith) (omega arith)
