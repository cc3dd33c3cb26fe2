-- ===== src/HbTrie/Rewrites.antt =====
-- What a deletion does to the node at each step of its path.
use wave_db.Base.{
  ℕ, suc, ◌≡◌, ◌∙◌, refl, sym, ap, inl, inr, Option-cases, none, some, List, [], ◌∷◌, is_eq,
  if◌then◌else◌,
}
use wave_db.Chunk.{Chunk}
use wave_db.Chunk.Order.{lexicographic}
use wave_db.Bnode
use wave_db.Bnode.{Sizes, bnode_find_leaf, bnode_descend, bnode_find, bnode_search}
use wave_db.LeafEntry.{LeafEntry}
use wave_db.HbTrie.{Slot, Node, empty_slot, slot_of, slot_at, rewrite}
use wave_db.HbTrie.Slots.{Admits, put_old}
use wave_db.HbTrie.Admission.{put_value}
use wave_db.Bnode.Update.{update}
use wave_db.BsArray.Entry.{BnodeEntry}

module _ {ℓ} (V : Type ℓ) where
  pub slot_at-update :
      (d : ℕ) (node : Node V (suc d)) (chunk other : Chunk)
      (w : Slot V (Node V d) → Slot V (Node V d)) (e : BnodeEntry (Slot V (Node V d)))
      → Admits node chunk
      → Bnode.find node chunk ≡ some e
      → slot_at V d (update (Slot V (Node V d)) node chunk w) other ≡ (
          if is_eq (lexicographic chunk other)
          then w (slot_at V d node chunk)
          else slot_at V d node other)
  unfolding slot_at
  slot_at-update d node chunk other w e a there =
      put_old empty_slot node chunk other w e a there
      ∙ ap
          (λ o.
            if is_eq (lexicographic chunk other)
            then w (slot_of empty_slot o)
            else slot_of empty_slot (Bnode.find node other))
          (sym there)

  none_some {κ} : {A : Type κ} {N : Type ℓ} (n : N) → none ≡ some n → A
  none_some n h = absurd cc

  -- An entry with a child is there.
  pub there :
      (d : ℕ) (node : Node V (suc d)) (chunk : Chunk) (child : Node V d)
      → (slot_at V d node chunk).child ≡ some child
      → (e : BnodeEntry (Slot V (Node V d))) × (Bnode.find node chunk ≡ some e)
  unfolding slot_at
  there d node chunk child h = elim (Option-cases (Bnode.find node chunk)) [
    | inl absent ↦
        none_some child
          (sym (ap (λ o. (slot_of {S = Slot V (Node V d)} empty_slot o).child) absent) ∙ h)
    | inr found ↦ found
  ]

  pub rewrite-missing :
      (d : ℕ) (node : Node V (suc d)) (chunk : Chunk) (f : LeafEntry V → LeafEntry V)
      → Bnode.find node chunk ≡ none
      → rewrite V (suc d) node (chunk ∷ []) f ≡ node
  unfolding rewrite
  rewrite-missing d node chunk f h = rw (h, rewrite) refl

  pub rewrite-last :
      (d : ℕ) (node : Node V (suc d)) (chunk : Chunk) (f : LeafEntry V → LeafEntry V)
      (e : BnodeEntry (Slot V (Node V d)))
      → Bnode.find node chunk ≡ some e
      → rewrite V (suc d) node (chunk ∷ []) f
        ≡ update (Slot V (Node V d)) node chunk (put_value V f)
  unfolding rewrite
  rewrite-last d node chunk f e h = rw (h, rewrite) refl

  pub rewrite-broken :
      (d : ℕ) (node : Node V (suc d)) (chunk next : Chunk) (path : List Chunk)
      (f : LeafEntry V → LeafEntry V)
      → (slot_at V d node chunk).child ≡ none
      → rewrite V (suc d) node (chunk ∷ next ∷ path) f ≡ node
  unfolding rewrite
  rewrite-broken d node chunk next path f h = rw (h, rewrite) refl

  pub rewrite-further :
      (d : ℕ) (node : Node V (suc d)) (chunk next : Chunk) (path : List Chunk)
      (f : LeafEntry V → LeafEntry V) (child : Node V d)
      → (slot_at V d node chunk).child ≡ some child
      → rewrite V (suc d) node (chunk ∷ next ∷ path) f
        ≡ update
            (Slot V (Node V d))
            node
            chunk
            (λ slot. record slot { child = some (rewrite V d child (next ∷ path) f) })
  unfolding rewrite
  rewrite-further d node chunk next path f child h = rw (h, rewrite) refl
