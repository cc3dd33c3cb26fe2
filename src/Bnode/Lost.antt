-- ===== src/Bnode/Lost.antt =====
-- A leftmost leaf with keys below the first separator: what its split leaves behind.
use wave_db.Base.{
  zero, suc, ◌<◌, ◌≡◌, ◌∙◌, sym, ap, inl, inr, Option, none, some, List, [], ◌∷◌, length, get_elem?,
  All,
}
use wave_db.Chunk.{Chunk}
use wave_db.BsArray.Entry.{BnodeEntry, entry_cmp, set_key}
use wave_db.BsArray.Sorted.{key_of, IsKeyed, IsUnder, IsSorted, scan, set_key-IsKeyed}
use wave_db.Bnode.{
  Bnode, blank, bnode_insert_bnode_child, bnode_split, bnode_find_leaf, bnode_descend,
}
use wave_db.Bnode.Order.{Less, Less-trans, sorted_insert_front}
use wave_db.Bnode.Nodes.{
  bnode_find-scan, bnode_insert-sorted_insert, scan-IsPast, IsPast, All-IsPast-IsFrom,
}
use wave_db.Bnode.Children.{child_index_first}
use wave_db.Bnode.Spans.{Ends, IsSpan, IsSpan-IsPast, IsSpan-IsSorted}
use wave_db.Bnode.Trees.{IsTree}
use wave_db.Bnode.Splits.{bnode_split-IsSettled}
use wave_db.Bnode.Descent.{bnode_find_leaf-follow}
use wave_db.Bnode.Raising.{IsEntry-set_key}
use mathlib.Core.Path.{subst}

module _ {ℓ} (V : Type ℓ) where
  IsKeyed-payload :
      {C : Type ℓ} (c : BnodeEntry C) (child : C)
      → IsKeyed c
      → IsKeyed (record c { payload = child })
  unfolding entry_cmp
  IsKeyed-payload c child h = record { key = h.key; cmp = h.cmp }

  All-IsPast :
      {C : Type ℓ} (m : Chunk) (c : BnodeEntry C) (cs : List (BnodeEntry C))
      → Less m (key_of c)
      → All (IsUnder c) cs
      → All (IsPast m) cs
  All-IsPast m c [] less h = tt
  All-IsPast m c (x ∷ cs) less h =
      (Less-trans m (key_of c) (key_of x) less h.0, All-IsPast m c cs less h.1)

  first_leaf :
      (c : BnodeEntry (Bnode V zero)) (cs : List (BnodeEntry (Bnode V zero))) (k : Chunk)
      → IsSorted (c ∷ cs)
      → IsSorted c.payload
      → Less k (key_of c)
      → bnode_find_leaf V (suc zero) (c ∷ cs) k ≡ scan c.payload k
  unfolding bnode_find_leaf bnode_descend
  first_leaf c cs k sorted leaf below =
      bnode_find_leaf-follow V zero (c ∷ cs) k c (
        ap (get_elem? (c ∷ cs))
          (child_index_first c cs k sorted below (All-IsPast k c cs below sorted.1)))
      ∙ bnode_find-scan c.payload k leaf

  in_front :
      (c : BnodeEntry (Bnode V zero)) (cs : List (BnodeEntry (Bnode V zero))) (m : Chunk)
      (right : Bnode V zero)
      → IsSorted (c ∷ cs)
      → length m < 256
      → Less m (key_of c)
      → bnode_insert_bnode_child (c ∷ cs) m right ≡ set_key (blank right) (some m) ∷ c ∷ cs
  unfolding bnode_insert_bnode_child set_key
  in_front c cs m right sorted short less =
      bnode_insert-sorted_insert (c ∷ cs) (set_key (blank right) (some m)) sorted
        (IsEntry-set_key V (blank right) m short)
      ∙ sorted_insert_front (set_key (blank right) (some m)) (c ∷ cs)
          (All-IsPast-IsFrom (c ∷ cs) m (less, All-IsPast m c cs less sorted.1))

  -- The right half is what the lookup of a key below m is led to.
  first_right :
      (c : BnodeEntry (Bnode V zero)) (cs : List (BnodeEntry (Bnode V zero))) (right : Bnode V zero)
      (m k : Chunk)
      → IsSorted (c ∷ cs)
      → length m < 256
      → All (IsPast m) cs
      → Less m (key_of c)
      → Less k m
      → IsSorted right
      → All (IsPast k) right
      → bnode_find_leaf V (suc zero) (set_key (blank right) (some m) ∷ c ∷ cs) k ≡ none
  unfolding set_key
  first_right c cs right m k sorted short past less below leaf none_there =
      let d : BnodeEntry (Bnode V zero) = set_key (blank right) (some m) in
      first_leaf d (c ∷ cs) k (set_key-IsKeyed (blank right) m short, (less, past), sorted) leaf
        below
      ∙ scan-IsPast right k none_there

  Halves : Option (List (BnodeEntry V) × Chunk × List (BnodeEntry V)) → Type ℓ
  Halves none = Unit {ℓ}
  Halves (some (left, m, right)) = IsSpan Ends (some m) right none × (length m < 256)

  split_halves :
      (a : Option Chunk) (es left right : List (BnodeEntry V)) (m : Chunk)
      → IsSpan Ends a es none
      → bnode_split es ≡ some (left, m, right)
      → IsSpan Ends (some m) right none × (length m < 256)
  unfolding Halves
  split_halves a es left right m span split =
      elim (bnode_split-IsSettled Ends (λ lo hi c p. p.0) a none es span) [
        | inl refused ↦ absurd (cc (refused, split))
        | inr (lower, middle, upper, is, settled) ↦
            subst Halves (sym is ∙ split) (settled.1, settled.2)
      ]

  -- In a tree of two levels a key below the first separator is looked up in the first leaf. Once that
  -- leaf was split at a key m below that separator, and the right half was put beside it as the code
  -- does, no key below m is found any more, even if the leaf held it.
  pub bnode_split-lost :
      (lo k m : Chunk) (c : BnodeEntry (Bnode V zero)) (cs : List (BnodeEntry (Bnode V zero)))
      (left right : Bnode V zero)
      → IsSorted (c ∷ cs)
      → IsTree V zero lo none c.payload
      → bnode_split c.payload ≡ some (left, m, right)
      → Less m (key_of c)
      → Less k m
      → (bnode_find_leaf V (suc zero) (c ∷ cs) k ≡ scan c.payload k)
        × (bnode_find_leaf V
              (suc zero)
              (bnode_insert_bnode_child (record c { payload = left } ∷ cs) m right)
              k
            ≡ none)
  bnode_split-lost lo k m c cs left right sorted (b, a, from, span) split less below =
      let ends = λ (lo : Chunk) (hi : Option Chunk) (c : V) (p : Ends lo hi c). p.0 in
      let settled = split_halves a c.payload left right m span split in
      let d : BnodeEntry (Bnode V zero) = set_key (blank right) (some m) in
      let kept : BnodeEntry (Bnode V zero) = record c { payload = left } in
      let after : IsSorted (kept ∷ cs) = (IsKeyed-payload c left sorted.0, sorted.1, sorted.2) in
      let past = All-IsPast m kept cs less sorted.1 in
      (
        first_leaf c cs k sorted (IsSpan-IsSorted Ends ends a none c.payload span)
            (Less-trans k m (key_of c) below less),
        ap (λ n. bnode_find_leaf V (suc zero) n k) (in_front kept cs m right after settled.1 less)
            ∙ first_right kept cs right m k after settled.1 past less below
                (IsSpan-IsSorted Ends ends (some m) none right settled.0)
                (IsSpan-IsPast Ends ends k (some m) none right below settled.0),
      )
