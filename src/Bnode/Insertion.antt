-- ===== src/Bnode/Insertion.antt =====
-- The insertion into a tree, and the lookups after it.
use wave_db.Base.{
  ℕ, zero, suc, ◌≡◌, ◌∙◌, refl, sym, ap, inl, inr, Ordering, true, false, Option, none, some, List,
  [], ◌∷◌, ◌++◌, arith, length, get_elem?, is_eq, is_lt, if◌then◌else◌, Bool-cases,
}
use wave_db.Chunk.{Chunk}
use wave_db.Chunk.Order.{lexicographic, lexicographic-eq_iff, lexicographic-flip, flip}
use wave_db.BsArray.Entry.{BnodeEntry}
use wave_db.BsArray.Sorted.{key_of, scan, is_lt→eq}
use wave_db.Bnode.{
  Sizes, Bnode, Btree, grow, child_index, settle, raise, insert_below, insert, find,
}
use wave_db.Bnode.Order.{UpTo, UpTo-refl, sorted_insert, sorted_insert_right, sorted_insert_left}
use wave_db.Bnode.Nodes.{IsEntry, bnode_insert-sorted_insert, All-IsPast-IsFrom}
use wave_db.Bnode.Spans.{Before, From, Ends, IsSpan-IsSorted, IsSpan-Place}
use wave_db.Bnode.Trees.{flatten, gather, IsTree, IsTree-before}
use wave_db.Bnode.Splits.{settle-IsSettled}
use wave_db.Bnode.Leaves.{IsSpan-sorted_insert}
use wave_db.Bnode.Growth.{IsGrown, leaf-IsGrown}
use wave_db.Bnode.Raising.{raise-IsGrown}
use wave_db.Bnode.Roots.{new_root-IsTree}
use wave_db.Bnode.Descent.{
  followed, child_index-Place, around, around-IsTo, around-IsPast, scan-Place, entries, IsBtree,
  find-scan_all,
}
use mathlib.Core.Path.{subst}

apart :
    (x e k : Chunk)
    → is_lt (lexicographic x e) ≡ true
    → lexicographic x k ≡ Ordering.eq
    → is_eq (lexicographic e k) ≡ false
apart x e k below same =
    let is = (lexicographic-eq_iff x k).0 same in
    let flipped = lexicographic-flip x e in
    let less = is_lt→eq (lexicographic x e) below in
    subst (λ y. is_eq (lexicographic e y) ≡ false) is (ap is_eq (flipped ∙ ap flip less))

module _ {ℓ} (V : Type ℓ) where
  insert_below-follow :
      (sizes : Sizes) (l : ℕ) (t : Bnode V (suc l)) (e : BnodeEntry V) (k : Chunk)
      (c : BnodeEntry (Bnode V l))
      → get_elem? t (child_index t k) ≡ some c
      → insert_below V sizes (suc l) t e k
        ≡ raise V sizes l t (child_index t k) c (insert_below V sizes l c.payload e k)
  unfolding insert_below
  insert_below-follow sizes l t e k c h = rw (h, insert_below) refl

  -- The insertion at and below a node.
  insert_below-IsGrown :
      (sizes : Sizes) (l : ℕ) (lo : Chunk) (hi : Option Chunk) (t : Bnode V l) (e : BnodeEntry V)
      → IsTree V l lo hi t
      → IsEntry e
      → UpTo lo (key_of e)
      → Before (key_of e) hi
      → scan (flatten V l t) (key_of e) ≡ none
      → IsGrown V l lo hi (sorted_insert e (flatten V l t)) (insert_below V sizes l t e (key_of e))
  unfolding insert_below
  insert_below-IsGrown sizes zero lo hi t e (b, a, from, span) entry up to absent =
      let i = IsSpan-sorted_insert a hi e t span entry to absent in
      let start : From lo i.start = elim (i.origin) [
        | inl same ↦ subst (From lo) (sym same) from
        | inr new ↦ subst (From lo) (sym new) up
      ] in
      subst (λ n. IsGrown V zero lo hi (sorted_insert e t) (settle sizes n))
        (sym (
          bnode_insert-sorted_insert t e (IsSpan-IsSorted Ends (λ lo hi c p. p.0) a hi t span)
            entry))
        (leaf-IsGrown V lo i.start hi (sorted_insert e t) (settle sizes (sorted_insert e t)) b start
          i.span
          (settle-IsSettled Ends (λ lo hi c p. p.0) sizes i.start hi (sorted_insert e t) i.span))
  insert_below-IsGrown sizes (suc l) lo hi t e (b, span) entry up to absent =
      let k = key_of e in
      let p = IsSpan-Place (IsTree V l) (IsTree-before V l) lo hi t k span up to in
      let below =
        insert_below-IsGrown sizes l (key_of p.c) p.next p.c.payload e p.child entry p.start p.end
          (sym (scan-Place V l lo hi t k p) ∙ absent) in
      let grown =
        raise-IsGrown V sizes l lo hi k t (sorted_insert e (flatten V l p.c.payload))
          (insert_below V sizes l p.c.payload e k) b p below in
      let order : gather (flatten V l) p.xs
            ++ (sorted_insert e (flatten V l p.c.payload) ++ gather (flatten V l) p.ys)
          ≡ sorted_insert e (flatten V (suc l) t) =
        sym (
          ap (sorted_insert e) (around V l lo hi t k p)
          ∙ sorted_insert_right e (gather (flatten V l) p.xs)
              (flatten V l p.c.payload ++ gather (flatten V l) p.ys) (around-IsTo V l lo hi t k p)
          ∙ ap (λ n. gather (flatten V l) p.xs ++ n)
              (sorted_insert_left e (flatten V l p.c.payload) (gather (flatten V l) p.ys) (
                All-IsPast-IsFrom (gather (flatten V l) p.ys) k
                  (around-IsPast V l lo hi t k p)))) in
      let code : insert_below V sizes (suc l) t e k
          ≡ raise V sizes l t (length p.xs) p.c (insert_below V sizes l p.c.payload e k) =
        insert_below-follow sizes l t e k p.c (followed V l lo hi t k span p)
        ∙ ap (λ n. raise V sizes l t n p.c (insert_below V sizes l p.c.payload e k))
            (child_index-Place V l lo hi t k span p) in
      subst (λ n. IsGrown V (suc l) lo hi n (insert_below V sizes (suc l) t e k)) order
        (subst
          (λ o.
            IsGrown V (suc l) lo hi
              (gather (flatten V l) p.xs
                ++ (sorted_insert e (flatten V l p.c.payload) ++ gather (flatten V l) p.ys))
              o)
          (sym code) grown)

module _ {ℓ} {V : Type ℓ} where
  -- A tree whose keys are in place, from lo or from a key above it on, and its entries.
  pub record Holds (lo : Chunk) (es : List (BnodeEntry V)) (tree : Btree V) : Type ℓ where
    pub from : Chunk
    pub above : UpTo lo from
    pub valid : IsBtree from tree
    pub whole : entries tree ≡ es

  grown-Holds :
      (l : ℕ) (lo : Chunk) (es : List (BnodeEntry V)) (out : Bnode V l × Option (Chunk × Bnode V l))
      → IsGrown V l lo none es out
      → Holds lo es (grow l out)
  unfolding grow
  grown-Holds l lo es (t, none) (tree, order) = record {
    from = lo;
    above = UpTo-refl lo;
    valid = tree;
    whole = order;
  }
  grown-Holds l lo es (t, some (m, r)) s =
      let (tree, order) = new_root-IsTree V l lo es t m r s in
      record { from = s.f; above = s.start; valid = tree; whole = order }

  -- Into a tree whose keys are in place from lo on, the insertion of an entry whose key is at or above
  -- lo and not in the tree leaves a tree whose keys are in place, which holds the same entries and the
  -- new one, in order, whatever was split on the way.
  pub insert-Holds :
      (sizes : Sizes) (lo : Chunk) (tree : Btree V) (e : BnodeEntry V)
      → IsBtree lo tree
      → IsEntry e
      → UpTo lo (key_of e)
      → find tree (key_of e) ≡ none
      → Holds lo (sorted_insert e (entries tree)) (insert sizes tree e (key_of e))
  unfolding insert
  insert-Holds sizes lo tree e h entry up absent =
      grown-Holds tree.height lo (sorted_insert e (entries tree))
        (insert_below V sizes tree.height tree.root e (key_of e))
        (insert_below-IsGrown V sizes tree.height lo none tree.root e h entry up tt
          (sym (find-scan_all lo tree (key_of e) h) ∙ absent))

  scan-sorted_insert :
      (e : BnodeEntry V) (es : List (BnodeEntry V)) (k : Chunk)
      → scan (sorted_insert e es) k
        ≡ (if is_eq (lexicographic (key_of e) k) then some e else scan es k)
  unfolding sorted_insert
  scan-sorted_insert e [] k = refl
  scan-sorted_insert e (x ∷ es) k =
      elim (Bool-cases (is_lt (lexicographic (key_of x) (key_of e)))) [
        | inr above ↦ rw above refl
        | inl below ↦ rw below (
            ground (
              arith,
              scan-sorted_insert e es k,
              λ (h : lexicographic (key_of x) k ≡ Ordering.eq).
                  apart (key_of x) (key_of e) k below h,
            ))
      ]

  -- After the insertion of an entry, whose key is at or above lo and not found before, into a tree
  -- whose keys are in place from lo on, every lookup finds the new entry under its key, and what it
  -- found before under any other.
  pub find-insert :
      (sizes : Sizes) (lo : Chunk) (tree : Btree V) (e : BnodeEntry V) (k : Chunk)
      → IsBtree lo tree
      → IsEntry e
      → UpTo lo (key_of e)
      → find tree (key_of e) ≡ none
      → find (insert sizes tree e (key_of e)) k
        ≡ (if is_eq (lexicographic (key_of e) k) then some e else find tree k)
  find-insert sizes lo tree e k h entry up absent =
      let after = insert-Holds sizes lo tree e h entry up absent in
      find-scan_all after.from (insert sizes tree e (key_of e)) k after.valid
      ∙ ap (λ es. scan es k) after.whole
      ∙ scan-sorted_insert e (entries tree) k
      ∙ ap (λ found. if is_eq (lexicographic (key_of e) k) then some e else found)
          (sym (find-scan_all lo tree k h))
