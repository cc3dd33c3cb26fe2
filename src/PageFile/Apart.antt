-- ===== src/PageFile/Apart.antt =====
-- Stale regions that do not fit the superblock's block.
use wave_db.Base.{
  ℕ, ◌+◌, ◌-◌, ◌*◌, ◌/◌, ◌^◌, ◌<◌, ◌≤◌, ◌≡◌, ◌∙◌, refl, sym, ap, arith, Bool, true, false, not,
  Option, none, some, List, leb, length, replicate, length-replicate, if_elim,
}
use wave_db.TransactionId.{TransactionId}
use wave_db.StaleRegion.Codec.{serialize}
use wave_db.PageFile.{
  Superblock, PageFile, Io, serialize_superblock, blob_block, extended, with_blob, put_slot,
  write_apart, write_superblock, alloc_block,
}
use wave_db.PageFile.Writing.{
  IsInRange, apart_superblock, named-IsSuperblock, candidate-superblock_with, put_slot-next,
}
use wave_db.PageFile.Atomic.{IsCurrent, Outcome, Tears, current-Reads}
use native.Mathlib.Nat.{add-mul-div_right, div-eq_of_lt}

module _ (xxh32 : List ℕ → ℕ) (xxh32-lt : (bytes : List ℕ) → xxh32 bytes < 2 ^ 32) where
  kept :
      (pf : PageFile) (old new : Superblock)
      → IsCurrent xxh32 pf old
      → Outcome xxh32 old new (pf, false)
  kept pf old new c = (c, current-Reads xxh32 pf old c)

  -- The size of the file and the blobs in it are not looked at.
  resized :
      (pf : PageFile) (old : Superblock) (size : ℕ) (blobs : List (ℕ × List ℕ))
      → IsCurrent xxh32 pf old
      → IsCurrent xxh32 (record pf { size = size; blobs = blobs }) old
  resized pf old size blobs c = record {
    two = c.two;
    all_slots = c.all_slots;
    revision = c.revision;
    latest = c.latest;
    block = c.block;
    here = c.here;
    is = c.is;
  }

  Tears-with_blob :
      (short : Option ℕ) (pf : PageFile) (blob block : List ℕ)
      → Tears xxh32 short pf block
      → Tears xxh32 short (with_blob pf blob) block
  Tears-with_blob none pf blob block h = tt
  Tears-with_blob (some k) pf blob block h = h

  -- A write whose stale regions go to a fresh block leaves the new superblock as the one that is read,
  -- or the old one where it fails or is torn: a torn block reads as none or as before.
  pub write_superblock-apart :
      (io : Io) (pf : PageFile) (old : Superblock) (root_offset root_size : ℕ)
      (id : Option TransactionId)
      → IsCurrent xxh32 pf old
      → IsInRange pf root_offset root_size id
      → 74 ≤ pf.block_size
      → pf.block_size < 88 + length (serialize pf.stale_mgr)
      → Tears xxh32 io.short pf
          (serialize_superblock xxh32 (apart_superblock pf root_offset root_size id) pf.block_size)
      → Outcome xxh32 old
          (apart_superblock pf root_offset root_size id)
          (write_superblock xxh32 io pf root_offset root_size id)
  unfolding write_superblock write_apart serialize_superblock
  write_superblock-apart io pf old root_offset root_size id c r room over tears =
      let P = Outcome xxh32 old (apart_superblock pf root_offset root_size id) in
      let new = apart_superblock pf root_offset root_size id in
      if_elim P (not pf.is_writable) _ _ (λ a. kept pf old new c)
        (λ a.
          if_elim P (leb (88 + length (serialize pf.stale_mgr)) pf.block_size) _ _
            (λ b. absurd (ground (arith, b, over)))
            (λ b.
              if_elim P (not io.extend_ok) _ _ (λ d. kept pf old new c)
                (λ d.
                  if_elim P (not io.blob_ok) _ _
                    (λ e. kept (extended pf) old new (resized pf old (extended pf).size pf.blobs c))
                    (λ e.
                      put_slot-next xxh32 xxh32-lt io.short (with_blob pf (serialize pf.stale_mgr))
                        old new (serialize_superblock xxh32 new pf.block_size)
                        (resized pf old (with_blob pf (serialize pf.stale_mgr)).size
                          (with_blob pf (serialize pf.stale_mgr)).blobs c)
                        refl r.revision
                        (candidate-superblock_with xxh32 xxh32-lt new
                          (replicate (pf.block_size - 74) 0) pf.block_size
                          (named-IsSuperblock pf root_offset root_size id
                            (blob_block pf * pf.block_size) r r.blob_offset)
                          (omega arith)
                          (omega (arith, room, length-replicate {A = ℕ} (pf.block_size - 74) 0)))
                        (Tears-with_blob io.short pf (serialize pf.stale_mgr)
                          (serialize_superblock xxh32 new pf.block_size) tears)))))

next_block :
    (pf : PageFile)
    → 0 < pf.block_size
    → pf.size ≡ (pf.cur_bid + 1) * pf.block_size
    → blob_block pf ≡ pf.cur_bid + 1
next_block pf pos last =
    let sum : pf.size + pf.block_size - 1 ≡ (pf.block_size - 1) + (pf.cur_bid + 1) * pf.block_size =
      omega (arith, last, pos) in
    let rest : pf.block_size - 1 < pf.block_size = omega (arith, pos) in
    ap (λ n. n / pf.block_size) sum
    ∙ add-mul-div_right (pf.block_size - 1) (pf.cur_bid + 1) {z = pf.block_size} pos
    ∙ ap (λ n. n + (pf.cur_bid + 1)) (div-eq_of_lt rest)
    ∙ omega arith

put_slot-alloc_block :
    (short : Option ℕ) (pf : PageFile) (revision : ℕ) (block : List ℕ)
    → pf.is_writable ≡ true
    → pf.cur_offset ≡ pf.block_size
    → (put_slot short pf revision block).1 ≡ true
    → (alloc_block true (put_slot short pf revision block).0).1 ≡ some (pf.cur_bid + 1)
unfolding put_slot alloc_block
put_slot-alloc_block none pf revision block w full h = ground (arith, w, full)
put_slot-alloc_block (some k) pf revision block w full h = cc

-- The allocation that follows does not know of the fresh block: where the current block is full and
-- is the last one of the file, `page_file_alloc_block` hands out the block of the blob.
pub alloc_block-blob :
    (xxh32 : List ℕ → ℕ) (io : Io) (pf : PageFile) (root_offset root_size : ℕ)
    (id : Option TransactionId)
    → pf.is_writable ≡ true
    → 0 < pf.block_size
    → pf.cur_offset ≡ pf.block_size
    → pf.size ≡ (pf.cur_bid + 1) * pf.block_size
    → pf.block_size < 88 + length (serialize pf.stale_mgr)
    → (write_superblock xxh32 io pf root_offset root_size id).1 ≡ true
    → (alloc_block true (write_superblock xxh32 io pf root_offset root_size id).0).1
      ≡ some (blob_block pf)
unfolding write_superblock write_apart
alloc_block-blob xxh32 io pf root_offset root_size id w pos full last over =
    let new = apart_superblock pf root_offset root_size id in
    let P : PageFile × Bool → Type 0 =
      λ o. o.1 ≡ true → (alloc_block true o.0).1 ≡ some (blob_block pf) in
    if_elim P (not pf.is_writable) _ _ (λ a d. cc)
      (λ a.
        if_elim P (leb (88 + length (serialize pf.stale_mgr)) pf.block_size) _ _
          (λ b. absurd (ground (arith, b, over)))
          (λ b.
            if_elim P (not io.extend_ok) _ _ (λ d e. cc)
              (λ d.
                if_elim P (not io.blob_ok) _ _ (λ e f. cc)
                  (λ e f.
                    put_slot-alloc_block io.short (with_blob pf (serialize pf.stale_mgr))
                      new.revision (serialize_superblock xxh32 new pf.block_size) w full f
                    ∙ ap (λ n. some n) (sym (next_block pf pos last))))))
