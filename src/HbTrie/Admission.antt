-- ===== src/HbTrie/Admission.antt =====
-- Paths, and the nodes that admit them; the slots of a node after a write.
use wave_db.Base.{
  ℕ, zero, suc, ◌<◌, ◌≡◌, refl, sym, ap, Ordering, Bool, true, false, ◌&&◌, Option, none, some,
  List, [], ◌∷◌, length, is_eq, if◌then◌else◌,
}
use wave_db.Chunk.{Chunk}
use wave_db.Chunk.Order.{lexicographic, lexicographic-eq_iff}
use wave_db.Bnode
use wave_db.Bnode.{Sizes, bnode_find_leaf, bnode_descend, bnode_find, bnode_search}
use wave_db.LeafEntry.{LeafEntry, no_value}
use wave_db.HbTrie.{
  Slot, Node, node_create, or_create, empty_slot, slot_at, below, put, value_at, write,
}
use wave_db.HbTrie.Slots.{Admits, put-slot_of}
use mathlib.Core.Path.{subst}

-- The same chunks.
abbrev pub same_path : List Chunk → List Chunk → Bool
same_path [] [] = true
same_path [] (o ∷ other) = false
same_path (chunk ∷ path) [] = false
same_path (chunk ∷ path) (o ∷ other) = is_eq (lexicographic chunk o) && same_path path other

abbrev pub IsShort : Chunk → Type 0
IsShort chunk = length chunk < 256

abbrev pub Within {ℓ} : {N : Type ℓ} → (N → Type ℓ) → Option N → Type ℓ
Within P none = Unit
Within P (some node) = P node

module _ {ℓ} (V : Type ℓ) where
  abbrev pub put_value : {N : Type ℓ} → (LeafEntry V → LeafEntry V) → Slot V N → Slot V N
  put_value f slot = record slot { value = f slot.value }

  abbrev pub put_below :
      Sizes
      → (d : ℕ) → List Chunk
      → (LeafEntry V → LeafEntry V)
      → Slot V (Node V d)
      → Slot V (Node V d)
  put_below sizes d path f slot = record slot {
    child = some (write V sizes d (or_create V d slot.child) path f);
  }

  -- Every node that the path runs through admits its chunk.
  abbrev pub AdmitsPath : (d : ℕ) → Node V d → List Chunk → Type ℓ
  AdmitsPath zero node path = Unit
  AdmitsPath (suc d) node [] = Unit
  AdmitsPath (suc d) node (chunk ∷ []) = Admits node chunk
  AdmitsPath (suc d) node (chunk ∷ next ∷ path) =
      Admits node chunk
      × Within (λ child. AdmitsPath d child (next ∷ path)) (slot_at V d node chunk).child

  pub slot_at-create :
      (d : ℕ) (chunk : Chunk) → slot_at V d (node_create V (suc d)) chunk ≡ empty_slot
  unfolding slot_at Bnode.find bnode_find_leaf bnode_descend bnode_find bnode_search
  slot_at-create d chunk = refl

  value_at-create : (d : ℕ) (path : List Chunk) → value_at V d (node_create V d) path ≡ no_value
  unfolding value_at
  value_at-create zero path = refl
  value_at-create (suc d) [] = refl
  value_at-create (suc d) (chunk ∷ []) =
      ap (λ (s : Slot V (Node V d)). s.value) (slot_at-create d chunk)
  value_at-create (suc d) (chunk ∷ next ∷ path) =
      ap (λ (s : Slot V (Node V d)). below V (λ child. value_at V d child (next ∷ path)) s.child)
        (slot_at-create d chunk)

  pub Admits-create : (d : ℕ) (chunk : Chunk) → Admits (node_create V (suc d)) chunk
  unfolding lexicographic
  Admits-create d [] = ([], (tt, none, tt, (refl, tt)), refl)
  Admits-create d (x ∷ chunk) = ([], (tt, none, tt, (refl, tt)), refl)

  pub AdmitsPath-create : (d : ℕ) (path : List Chunk) → AdmitsPath d (node_create V d) path
  AdmitsPath-create zero path = tt
  AdmitsPath-create (suc d) [] = tt
  AdmitsPath-create (suc d) (chunk ∷ []) = Admits-create d chunk
  AdmitsPath-create (suc d) (chunk ∷ next ∷ path) = (
    Admits-create d chunk,
    subst (λ (s : Slot V (Node V d)). Within (λ child. AdmitsPath d child (next ∷ path)) s.child)
        (sym (slot_at-create d chunk)) tt,
  )

  pub slot_at-put :
      (sizes : Sizes) (d : ℕ) (node : Node V (suc d)) (chunk other : Chunk)
      (w : Slot V (Node V d) → Slot V (Node V d))
      → Admits node chunk
      → IsShort chunk
      → slot_at V d (put sizes empty_slot node chunk w) other ≡ (
          if is_eq (lexicographic chunk other)
          then w (slot_at V d node chunk)
          else slot_at V d node other)
  unfolding slot_at
  slot_at-put sizes d node chunk other w a short =
      put-slot_of sizes empty_slot node chunk other w a short

  pub same_slot :
      (d : ℕ) (node : Node V (suc d)) (chunk other : Chunk)
      → lexicographic chunk other ≡ Ordering.eq
      → slot_at V d node chunk ≡ slot_at V d node other
  same_slot d node chunk other h = ap (slot_at V d node) ((lexicographic-eq_iff chunk other).0 h)

  pub value_at-or_create :
      (d : ℕ) (child : Option (Node V d)) (path : List Chunk)
      → value_at V d (or_create V d child) path ≡ below V (λ n. value_at V d n path) child
  value_at-or_create d none path = value_at-create d path
  value_at-or_create d (some n) path = refl

  pub AdmitsPath-or_create :
      (d : ℕ) (child : Option (Node V d)) (path : List Chunk)
      → Within (λ n. AdmitsPath d n path) child
      → AdmitsPath d (or_create V d child) path
  AdmitsPath-or_create d none path h = AdmitsPath-create d path
  AdmitsPath-or_create d (some n) path h = h
