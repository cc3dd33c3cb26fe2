-- ===== src/Bnode/Descent.antt =====
-- The lookup in a tree: it agrees with a scan of all the entries.
use wave_db.Base.{
  ℕ, zero, suc, ◌≡◌, ◌∙◌, refl, sym, ap, inl, inr, Option, none, some, List, [], ◌∷◌, ◌++◌, length,
  get_elem?, All,
}
use wave_db.Chunk.{Chunk}
use wave_db.BsArray.Entry.{BnodeEntry}
use wave_db.BsArray.Sorted.{key_of, IsSorted, scan}
use wave_db.Bnode.{Bnode, Btree, bnode_find_leaf, bnode_descend, child_index, find}
use wave_db.Bnode.Order.{Less, UpTo, Less-UpTo_trans, UpTo-cases, IsTo}
use wave_db.Bnode.Nodes.{bnode_find-scan, scan-append-IsTo, scan-append-IsPast, scan-IsPast, IsPast}
use wave_db.Bnode.Children.{child_index_at, child_index_first}
use wave_db.Bnode.Spans.{
  Before, Ends, IsSpan, Place, IsSpan-Place, IsSpan-IsSorted, IsSpan-IsTo, IsSpan-IsPast,
}
use wave_db.Bnode.Trees.{
  flatten, gather, gather-append, gather-IsPast, gather-IsTo, IsTree, IsTree-before, flatten-IsPast,
  flatten-IsTo,
}
use mathlib.Core.Path.{subst}

pub get_elem?-append {ℓ} :
    {A : Type ℓ} (xs : List A) (x : A) (ys : List A)
    → get_elem? (xs ++ (x ∷ ys)) (length xs) ≡ some x
get_elem?-append [] x ys = refl
get_elem?-append (y ∷ xs) x ys = get_elem?-append xs x ys

module _ {ℓ} (V : Type ℓ) where
  -- The child followed for a key is the one at its place.
  pub child_index-Place :
      (l : ℕ) (lo : Chunk) (hi : Option Chunk) (t : Bnode V (suc l)) (k : Chunk)
      → IsSpan (IsTree V l) (some lo) t hi
      → (p : Place (IsTree V l) (IsTree-before V l) lo hi t k) → child_index t k ≡ length p.xs
  child_index-Place l lo hi t k span p =
      ap (λ es. child_index es k) (sym p.whole)
      ∙ child_index_at p.xs p.c p.ys k
          (subst IsSorted (sym p.whole)
            (IsSpan-IsSorted (IsTree V l) (IsTree-before V l) (some lo) hi t span))
          (IsSpan-IsTo (IsTree V l) (IsTree-before V l) (some lo) (key_of p.c) p.xs p.left) p.start
          (IsSpan-IsPast (IsTree V l) (IsTree-before V l) k p.next hi p.ys p.end p.right)

  pub followed :
      (l : ℕ) (lo : Chunk) (hi : Option Chunk) (t : Bnode V (suc l)) (k : Chunk)
      → IsSpan (IsTree V l) (some lo) t hi
      → (p : Place (IsTree V l) (IsTree-before V l) lo hi t k)
      → get_elem? t (child_index t k) ≡ some p.c
  followed l lo hi t k span p =
      ap (get_elem? t) (child_index-Place l lo hi t k span p)
      ∙ ap (λ es. get_elem? es (length p.xs)) (sym p.whole)
      ∙ get_elem?-append p.xs p.c p.ys

  pub bnode_find_leaf-follow :
      (l : ℕ) (t : Bnode V (suc l)) (k : Chunk) (c : BnodeEntry (Bnode V l))
      → get_elem? t (child_index t k) ≡ some c
      → bnode_find_leaf V (suc l) t k ≡ bnode_find_leaf V l c.payload k
  unfolding bnode_find_leaf bnode_descend
  bnode_find_leaf-follow l t k c h = rw (h, bnode_find_leaf, bnode_descend) refl

  All-IsTo-UpTo :
      (es : List (BnodeEntry V)) (a b : Chunk) → UpTo a b → All (IsTo a) es → All (IsTo b) es
  All-IsTo-UpTo [] a b l h = tt
  All-IsTo-UpTo (x ∷ es) a b l h =
      (Less-UpTo_trans (key_of x) a b h.0 l, All-IsTo-UpTo es a b l h.1)

  -- The entries around a place.
  pub around :
      (l : ℕ) (lo : Chunk) (hi : Option Chunk) (t : Bnode V (suc l)) (k : Chunk)
      → (p : Place (IsTree V l) (IsTree-before V l) lo hi t k)
      → flatten V (suc l) t
        ≡ gather (flatten V l) p.xs ++ (flatten V l p.c.payload ++ gather (flatten V l) p.ys)
  around l lo hi t k p =
      ap (flatten V (suc l)) (sym p.whole) ∙ gather-append (flatten V l) p.xs (p.c ∷ p.ys)

  pub around-IsTo :
      (l : ℕ) (lo : Chunk) (hi : Option Chunk) (t : Bnode V (suc l)) (k : Chunk)
      → (p : Place (IsTree V l) (IsTree-before V l) lo hi t k)
      → All (IsTo k) (gather (flatten V l) p.xs)
  around-IsTo l lo hi t k p = All-IsTo-UpTo (gather (flatten V l) p.xs) (key_of p.c) k p.start (
      gather-IsTo (IsTree V l) (flatten V l) (IsTree-before V l) (some lo) (key_of p.c) p.xs
        (flatten-IsTo V l) p.left)

  pub around-IsPast :
      (l : ℕ) (lo : Chunk) (hi : Option Chunk) (t : Bnode V (suc l)) (k : Chunk)
      → (p : Place (IsTree V l) (IsTree-before V l) lo hi t k)
      → All (IsPast k) (gather (flatten V l) p.ys)
  around-IsPast l lo hi t k p =
      gather-IsPast (IsTree V l) (flatten V l) (IsTree-before V l) k p.next hi p.ys
        (λ lo hi c. flatten-IsPast V l k lo hi c) p.end p.right

  pub scan-Place :
      (l : ℕ) (lo : Chunk) (hi : Option Chunk) (t : Bnode V (suc l)) (k : Chunk)
      → (p : Place (IsTree V l) (IsTree-before V l) lo hi t k)
      → scan (flatten V (suc l) t) k ≡ scan (flatten V l p.c.payload) k
  scan-Place l lo hi t k p =
      ap (λ es. scan es k) (around l lo hi t k p)
      ∙ scan-append-IsTo (gather (flatten V l) p.xs)
          (flatten V l p.c.payload ++ gather (flatten V l) p.ys) k (around-IsTo l lo hi t k p)
      ∙ scan-append-IsPast (flatten V l p.c.payload) (gather (flatten V l) p.ys) k
          (around-IsPast l lo hi t k p)

  -- A key below the first separator leads to the leftmost leaf, in vain.
  pub bnode_find_leaf-below :
      (l : ℕ) (lo : Chunk) (hi : Option Chunk) (t : Bnode V l) (k : Chunk)
      → IsTree V l lo hi t
      → Less k lo
      → bnode_find_leaf V l t k ≡ none
  unfolding bnode_find_leaf bnode_descend
  bnode_find_leaf-below zero lo hi t k (b, a, from, span) less =
      bnode_find-scan t k (IsSpan-IsSorted Ends (λ lo hi c p. p.0) a hi t span)
      ∙ scan-IsPast t k (flatten-IsPast V zero k lo hi t (b, a, from, span) less)
  bnode_find_leaf-below (suc l) lo hi [] k h less = refl
  bnode_find_leaf-below (suc l) lo hi (c ∷ cs) k (b, (next, at, entry, p, rest)) less =
      let below : Less k (key_of c) = subst (Before k) at less in
      let past =
        IsSpan-IsPast (IsTree V l) (IsTree-before V l) k (some lo) hi (c ∷ cs) less
          (next, at, entry, p, rest) in
      let sorted =
        IsSpan-IsSorted (IsTree V l) (IsTree-before V l) (some lo) hi (c ∷ cs)
          (next, at, entry, p, rest) in
      bnode_find_leaf-follow l (c ∷ cs) k c
        (ap (get_elem? (c ∷ cs)) (child_index_first c cs k sorted below past.1))
      ∙ bnode_find_leaf-below l (key_of c) next c.payload k p below

  -- In a tree the lookup finds what a scan of its entries does.
  pub bnode_find_leaf-scan :
      (l : ℕ) (lo : Chunk) (hi : Option Chunk) (t : Bnode V l) (k : Chunk)
      → IsTree V l lo hi t
      → UpTo lo k
      → Before k hi
      → bnode_find_leaf V l t k ≡ scan (flatten V l t) k
  unfolding bnode_find_leaf bnode_descend
  bnode_find_leaf-scan zero lo hi t k (b, a, from, span) up to =
      bnode_find-scan t k (IsSpan-IsSorted Ends (λ lo hi c p. p.0) a hi t span)
  bnode_find_leaf-scan (suc l) lo hi t k (b, span) up to =
      let p = IsSpan-Place (IsTree V l) (IsTree-before V l) lo hi t k span up to in
      bnode_find_leaf-follow l t k p.c (followed l lo hi t k span p)
      ∙ bnode_find_leaf-scan l (key_of p.c) p.next p.c.payload k p.child p.start p.end
      ∙ sym (scan-Place l lo hi t k p)

module _ {ℓ} {V : Type ℓ} where
  -- All entries of the tree.
  abbrev pub entries : Btree V → List (BnodeEntry V)
  entries tree = flatten V tree.height tree.root

  -- The keys of the tree are in place, from lo on.
  abbrev pub IsBtree : Chunk → Btree V → Type ℓ
  IsBtree lo tree = IsTree V tree.height lo none tree.root

  -- In a tree whose keys are in place from some key on, the lookup of any key, also of one below all
  -- separators, finds what a scan of all the entries does.
  pub find-scan_all :
      (lo : Chunk) (tree : Btree V) (k : Chunk)
      → IsBtree lo tree
      → find tree k ≡ scan (entries tree) k
  unfolding find
  find-scan_all lo tree k h = elim (UpTo-cases lo k) [
    | inl up ↦ bnode_find_leaf-scan V tree.height lo none tree.root k h up tt
    | inr less ↦
        bnode_find_leaf-below V tree.height lo none tree.root k h less
        ∙ sym
            (scan-IsPast (entries tree) k (flatten-IsPast V tree.height k lo none tree.root h less))
  ]
