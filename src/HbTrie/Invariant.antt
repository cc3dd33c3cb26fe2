-- ===== src/HbTrie/Invariant.antt =====
-- The tries whose nodes have their keys in place, and how writes keep them so.
use wave_db.Base.{
  ℕ, zero, suc, ◌<◌, ◌≡◌, ◌∙◌, refl, sym, ap, inl, inr, Bool, true, false, Bool-cases, Option-cases,
  Option, none, some, List, [], ◌∷◌, length, is_eq, if◌then◌else◌, All,
}
use wave_db.Chunk.{Chunk}
use wave_db.Chunk.Order.{lexicographic}
use wave_db.BsArray.Entry.{BnodeEntry, set_key}
use wave_db.Bnode
use wave_db.Bnode.{Sizes, Btree, blank}
use wave_db.Bnode.Order.{UpTo, UpTo-cases}
use wave_db.Bnode.Descent.{IsBtree, bnode_find_leaf-below}
use wave_db.Bnode.Insertion.{insert-Holds}
use wave_db.Bnode.Raising.{IsEntry-set_key}
use wave_db.Bnode.Update.{update, update-IsBtree}
use wave_db.LeafEntry.{LeafEntry}
use wave_db.HbTrie.{Slot, Node, node_create, or_create, empty_slot, slot_at, put, write}
use wave_db.HbTrie.Slots.{Admits}
use wave_db.HbTrie.Admission.{
  AdmitsPath, IsShort, put_value, put_below, slot_at-put, slot_at-create, Admits-create,
  AdmitsPath-or_create,
}
use mathlib.Core.Path.{subst}

pub some_same {ℓ} : {A : Type ℓ} {a b : A} → some a ≡ some b → a ≡ b
some_same h = cc

then_case {ℓ} : {A : Type ℓ} {b : Bool} (x y : A) → b ≡ true → (if b then x else y) ≡ x
then_case x y t = rw t refl

else_case {ℓ} : {A : Type ℓ} {b : Bool} (x y : A) → b ≡ false → (if b then x else y) ≡ y
else_case x y t = rw t refl

module _ {ℓ} {S : Type ℓ} where
  -- The tree of a node has its keys in place.
  abbrev pub InPlace : Btree S → Type ℓ
  InPlace tree = (lo : Chunk) × IsBtree lo tree

  -- A key that is found is not below the start.
  pub found-Admits :
      (tree : Btree S) (chunk : Chunk) (e : BnodeEntry S)
      → InPlace tree
      → Bnode.find tree chunk ≡ some e
      → Admits tree chunk
  unfolding Bnode.find
  found-Admits tree chunk e (lo, valid) there = elim (UpTo-cases lo chunk) [
    | inl up ↦ (lo, valid, up)
    | inr less ↦
        let missing = bnode_find_leaf-below S tree.height lo none tree.root chunk valid less in
        absurd (cc (missing, there))
  ]

  pub update-InPlace :
      (tree : Btree S) (chunk : Chunk) (w : S → S)
      → Admits tree chunk
      → InPlace (update S tree chunk w)
  update-InPlace tree chunk w (lo, valid, up) = (lo, update-IsBtree lo tree chunk w valid up)

  inserted :
      (sizes : Sizes) (nothing : S) (tree : Btree S) (chunk : Chunk) (w : S → S) (lo : Chunk)
      → IsBtree lo tree
      → UpTo lo chunk
      → length chunk < 256
      → Bnode.find tree chunk ≡ none
      → InPlace (Bnode.insert sizes tree (set_key (blank (w nothing)) (some chunk)) chunk)
  unfolding set_key
  inserted sizes nothing tree chunk w lo valid up short absent =
      let e : BnodeEntry S = set_key (blank (w nothing)) (some chunk) in
      let after =
        insert-Holds sizes lo tree e valid (IsEntry-set_key S (blank (w nothing)) chunk short) up
          absent in
      (after.from, after.valid)

  pub put-InPlace :
      (sizes : Sizes) (nothing : S) (tree : Btree S) (chunk : Chunk) (w : S → S)
      → Admits tree chunk
      → length chunk < 256
      → InPlace (put sizes nothing tree chunk w)
  unfolding put
  put-InPlace sizes nothing tree chunk w (lo, valid, up) short =
      elim (Option-cases (Bnode.find tree chunk)) [
        | inl absent ↦
            rw (absent, put) (inserted sizes nothing tree chunk w lo valid up short absent)
        | inr (e, there) ↦ rw (there, put) (update-InPlace tree chunk w (lo, valid, up))
      ]

module _ {ℓ} (V : Type ℓ) where
  -- Each node, also below others.
  abbrev pub IsTrie : (d : ℕ) → Node V d → Type ℓ
  IsTrie zero node = Unit
  IsTrie (suc d) node =
      InPlace node
      × ((chunk : Chunk) (child : Node V d)
          → (slot_at V d node chunk).child ≡ some child
          → IsTrie d child)

  pub IsTrie-create : (d : ℕ) → IsTrie d (node_create V d)
  IsTrie-create zero = tt
  IsTrie-create (suc d) = (
    ((Admits-create V d []).0, (Admits-create V d []).1),
    λ chunk child h.
        absurd (cc (ap (λ (s : Slot V (Node V d)). s.child) (slot_at-create V d chunk), h)),
  )

  -- A node in which one slot was written.
  pub IsTrie-slots :
      (d : ℕ) (node after : Node V (suc d)) (chunk : Chunk)
      (w : Slot V (Node V d) → Slot V (Node V d))
      → IsTrie (suc d) node
      → InPlace after
      → ((o : Chunk)
          → slot_at V d after o ≡ (
              if is_eq (lexicographic chunk o)
              then w (slot_at V d node chunk)
              else slot_at V d node o))
      → ((child : Node V d) → (w (slot_at V d node chunk)).child ≡ some child → IsTrie d child)
      → IsTrie (suc d) after
  IsTrie-slots d node after chunk w valid in_place slots new = (
    in_place,
    λ o child h. elim (Bool-cases (is_eq (lexicographic chunk o))) [
      | inl t ↦ new child (
          sym (
            ap (λ (s : Slot V (Node V d)). s.child)
              (slots o ∙ then_case (w (slot_at V d node chunk)) (slot_at V d node o) t))
          ∙ h)
      | inr t ↦ valid.1 o child (
          sym (
            ap (λ (s : Slot V (Node V d)). s.child)
              (slots o ∙ else_case (w (slot_at V d node chunk)) (slot_at V d node o) t))
          ∙ h)
    ],
  )

  or_create-IsTrie :
      (d : ℕ) (child : Option (Node V d))
      → ((n : Node V d) → child ≡ some n → IsTrie d n)
      → IsTrie d (or_create V d child)
  or_create-IsTrie d none h = IsTrie-create d
  or_create-IsTrie d (some n) h = h n refl

  -- A write along a path keeps the keys of all nodes in place.
  pub write-IsTrie :
      (sizes : Sizes) (d : ℕ) (node : Node V d) (chunk : Chunk) (path : List Chunk)
      (f : LeafEntry V → LeafEntry V)
      → All IsShort (chunk ∷ path)
      → AdmitsPath V d node (chunk ∷ path)
      → IsTrie d node
      → IsTrie d (write V sizes d node (chunk ∷ path) f)
  unfolding write
  write-IsTrie sizes zero node chunk path f short a valid = tt
  write-IsTrie sizes (suc d) node chunk [] f short a valid =
      IsTrie-slots d node (put sizes empty_slot node chunk (put_value V f)) chunk (put_value V f)
        valid (put-InPlace sizes empty_slot node chunk (put_value V f) a short.0)
        (λ o. slot_at-put V sizes d node chunk o (put_value V f) a short.0)
        (λ child h. valid.1 chunk child h)
  write-IsTrie sizes (suc d) node chunk (next ∷ path) f short a valid =
      let child = (slot_at V d node chunk).child in
      let before = or_create-IsTrie d child (λ n h. valid.1 chunk n h) in
      let after =
        write-IsTrie sizes d (or_create V d child) next path f short.1
          (AdmitsPath-or_create V d child (next ∷ path) a.1) before in
      IsTrie-slots d node (put sizes empty_slot node chunk (put_below V sizes d (next ∷ path) f))
        chunk (put_below V sizes d (next ∷ path) f) valid
        (put-InPlace sizes empty_slot node chunk (put_below V sizes d (next ∷ path) f) a.0 short.0)
        (λ o. slot_at-put V sizes d node chunk o (put_below V sizes d (next ∷ path) f) a.0 short.0)
        (λ n h. subst (IsTrie d) (some_same h) after)
