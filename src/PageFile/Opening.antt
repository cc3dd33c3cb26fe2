-- ===== src/PageFile/Opening.antt =====
-- The opening of a new file.
use wave_db.Base.{
  ℕ, zero, suc, ◌-◌, ◌^◌, ◌<◌, ◌≤◌, ◌≡◌, ◌∙◌, refl, sym, ap, arith, inr, some, List, replicate,
  length-replicate, get_elem?, All,
}
use wave_db.PageFile.{PageFile, initial_superblock, serialize_superblock, superblock_with, open_new}
use wave_db.PageFile.Writing.{candidate-superblock_with}
use wave_db.PageFile.Latest.{Fits}
use wave_db.PageFile.Atomic.{IsCurrent}
use native.Mathlib.Nat.{zero-mod}
use mathlib.Core.Path.{subst}

All-replicate {ℓ κ} : {A : Type ℓ} (P : A → Type κ) (n : ℕ) (a : A) → P a → All P (replicate n a)
All-replicate P zero a p = tt
All-replicate P (suc n) a p = (p, All-replicate P n a p)

get_elem?-replicate {ℓ} :
    {A : Type ℓ} (n : ℕ) (a : A) → 0 < n → get_elem? (replicate n a) 0 ≡ some a
get_elem?-replicate zero a h = absurd (omega (arith, h))
get_elem?-replicate (suc n) a h = refl

module _ (xxh32 : List ℕ → ℕ) (xxh32-lt : (bytes : List ℕ) → xxh32 bytes < 2 ^ 32) where
  -- In a new file of two superblocks or more the first superblock is the latest.
  pub open_new-IsCurrent :
      (pf : PageFile)
      → 2 ≤ pf.num_superblocks
      → 74 ≤ pf.block_size
      → IsCurrent xxh32 (open_new xxh32 pf) (initial_superblock)
  unfolding open_new serialize_superblock
  open_new-IsCurrent pf two room =
      let is =
        candidate-superblock_with xxh32 xxh32-lt (initial_superblock)
          (replicate (pf.block_size - 74) 0) pf.block_size
          (record {
            magic = refl;
            version = omega arith;
            root_offset = omega arith;
            root_size = omega arith;
            revision = omega arith;
            last_txn = record { time = omega arith; nanos = omega arith; count = omega arith };
            stale_region_offset = omega arith;
            stale_region_size = omega arith;
          })
          (omega arith) (omega (arith, room, length-replicate {A = ℕ} (pf.block_size - 74) 0)) in
      record {
        two = two;
        all_slots = length-replicate {A = List ℕ} pf.num_superblocks _;
        revision = refl;
        latest =
            All-replicate _ pf.num_superblocks _
              (subst (Fits (initial_superblock)) (sym is) (inr refl));
        block = superblock_with xxh32 (initial_superblock) (replicate (pf.block_size - 74) 0);
        here =
            ap
              (λ k.
                get_elem?
                  (replicate pf.num_superblocks
                    (superblock_with xxh32 initial_superblock (replicate (pf.block_size - 74) 0)))
                  k)
              (zero-mod pf.num_superblocks)
            ∙ get_elem?-replicate pf.num_superblocks _ (omega (arith, two));
        is = is;
      }
