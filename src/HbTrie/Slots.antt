-- ===== src/HbTrie/Slots.antt =====
-- The slot of a chunk's entry after an insertion or a write, and the nodes that admit one.
use wave_db.Base.{
  ◌<◌, ◌≡◌, ◌∙◌, ap, inl, inr, Option-cases, none, some, arith, length, is_eq, if◌then◌else◌,
}
use wave_db.Chunk.{Chunk}
use wave_db.Chunk.Order.{lexicographic}
use wave_db.BsArray.Entry.{BnodeEntry, set_key}
use wave_db.Bnode
use wave_db.Bnode.{Sizes, Btree, blank}
use wave_db.Bnode.Order.{UpTo}
use wave_db.Bnode.Descent.{IsBtree}
use wave_db.Bnode.Insertion.{find-insert}
use wave_db.Bnode.Raising.{IsEntry-set_key}
use wave_db.Bnode.Amend.{rewritten}
use wave_db.Bnode.Update.{update, find-update}
use wave_db.HbTrie.{slot_of, put}

module _ {ℓ} {S : Type ℓ} where
  -- The keys of a node are in place from some key on that is not above the chunk.
  abbrev pub Admits : Btree S → Chunk → Type ℓ
  Admits tree chunk = (lo : Chunk) × IsBtree lo tree × UpTo lo chunk

  put_new :
      (sizes : Sizes) (nothing : S) (tree : Btree S) (chunk other : Chunk) (write : S → S)
      → Admits tree chunk
      → length chunk < 256
      → Bnode.find tree chunk ≡ none
      → slot_of nothing (
          Bnode.find
            (Bnode.insert sizes tree (set_key (blank (write nothing)) (some chunk)) chunk)
            other)
        ≡ (if is_eq (lexicographic chunk other)
            then write nothing
            else slot_of nothing (Bnode.find tree other))
  unfolding set_key
  put_new sizes nothing tree chunk other write (lo, valid, up) short absent =
      let e : BnodeEntry S = set_key (blank (write nothing)) (some chunk) in
      ap (slot_of nothing) (
        find-insert sizes lo tree e other valid
          (IsEntry-set_key S (blank (write nothing)) chunk short) up absent)
      ∙ ground arith

  pub put_old :
      (nothing : S) (tree : Btree S) (chunk other : Chunk) (write : S → S) (e : BnodeEntry S)
      → Admits tree chunk
      → Bnode.find tree chunk ≡ some e
      → slot_of nothing (Bnode.find (update S tree chunk write) other) ≡ (
          if is_eq (lexicographic chunk other)
          then write e.payload
          else slot_of nothing (Bnode.find tree other))
  put_old nothing tree chunk other write e (lo, valid, up) there =
      ap (slot_of nothing) (find-update lo tree chunk other write valid up)
      ∙ ap
          (λ o. slot_of nothing (
            if is_eq (lexicographic chunk other) then rewritten write o else Bnode.find tree other))
          there
      ∙ ground arith

  -- After the write, the chunk has the new slot and any other has the one it had.
  pub put-slot_of :
      (sizes : Sizes) (nothing : S) (tree : Btree S) (chunk other : Chunk) (write : S → S)
      → Admits tree chunk
      → length chunk < 256
      → slot_of nothing (Bnode.find (put sizes nothing tree chunk write) other) ≡ (
          if is_eq (lexicographic chunk other)
          then write (slot_of nothing (Bnode.find tree chunk))
          else slot_of nothing (Bnode.find tree other))
  unfolding put
  put-slot_of sizes nothing tree chunk other write a short =
      elim (Option-cases (Bnode.find tree chunk)) [
        | inl absent ↦
            rw (absent, put) (put_new sizes nothing tree chunk other write a short absent)
        | inr (e, there) ↦ rw (there, put) (put_old nothing tree chunk other write e a there)
      ]
