-- ===== src/Bnode/Raising.antt =====
-- What becomes of an inner node above a child that has grown.
use wave_db.Base.{
  ℕ, suc, ◌<◌, ◌≡◌, ◌∙◌, refl, sym, ap, Option, none, some, List, [], ◌∷◌, ◌++◌, length, set,
}
use wave_db.Chunk.{Chunk}
use wave_db.BsArray.Entry.{BnodeEntry, set_key}
use wave_db.BsArray.Sorted.{key_of}
use wave_db.Bnode.{Sizes, Bnode, blank, bnode_insert_bnode_child, settle, raise}
use wave_db.Bnode.Order.{Less, Less-UpTo, sorted_insert, sorted_insert_right, sorted_insert_front}
use wave_db.Bnode.Nodes.{IsEntry, bnode_insert-sorted_insert, All-IsPast-IsFrom}
use wave_db.Bnode.Spans.{
  Before, Ends, Before-Less_trans, IsSpan, IsSpan-join, IsSpan-IsTo, IsSpan-IsPast, IsSpan-IsSorted,
  IsSpan-Ends, Place,
}
use wave_db.Bnode.Trees.{flatten, gather, gather-append, IsTree, IsTree-before}
use wave_db.Bnode.Splits.{settle-IsSettled}
use mathlib.Core.List.{append_assoc}
use wave_db.Bnode.Growth.{IsGrown, inner-IsGrown}
use mathlib.Core.Path.{subst}

module _ {ℓ} (V : Type ℓ) where
  pub set-append :
      {A : Type ℓ} (xs : List A) (x y : A) (ys : List A)
      → set (xs ++ (x ∷ ys)) (length xs) y ≡ xs ++ (y ∷ ys)
  set-append [] x y ys = refl
  set-append (z ∷ xs) x y ys = ap (λ l. z ∷ l) (set-append xs x y ys)

  pub IsEntry-payload :
      {C : Type ℓ} (e : BnodeEntry C) (child : C)
      → IsEntry e
      → IsEntry (record e { payload = child })
  unfolding set_key
  IsEntry-payload {C = C} e child h = record {
    key = h.key;
    short = h.short;
    same = ap (λ (x : BnodeEntry C). record x { payload = child }) h.same;
  }

  pub IsEntry-set_key :
      {C : Type ℓ} (e : BnodeEntry C) (key : Chunk)
      → length key < 256
      → IsEntry (set_key e (some key))
  unfolding set_key
  IsEntry-set_key e key h = record { key = refl; short = h; same = refl }

  -- The right half goes next to the left one.
  pub beside :
      {C : Type ℓ} (P : Chunk → Option Chunk → C → Type ℓ)
      (before : (lo : Chunk) (hi : Option Chunk) (c : C) → P lo hi c → Before lo hi)
      (a next b : Option Chunk) (xs : List (BnodeEntry C)) (c : BnodeEntry C)
      (ys : List (BnodeEntry C)) (m : Chunk) (right : C)
      → IsSpan P a xs (some (key_of c))
      → IsEntry c
      → P (key_of c) (some m) c.payload
      → length m < 256
      → P m next right
      → IsSpan P next ys b
      → bnode_insert_bnode_child (xs ++ (c ∷ ys)) m right
        ≡ xs ++ (c ∷ set_key (blank right) (some m) ∷ ys)
  unfolding bnode_insert_bnode_child set_key
  beside {C} P before a next b xs c ys m right left entry p short q rest =
      let d : BnodeEntry C = set_key (blank right) (some m) in
      let ends = λ (lo : Chunk) (hi : Option Chunk) (c : C) (p : Ends lo hi c). p.0 in
      let less : Less (key_of c) m = before (key_of c) (some m) c.payload p in
      let on = before m next right q in
      let sorted = IsSpan-IsSorted Ends ends a b (xs ++ (c ∷ ys)) (
        IsSpan-join Ends ends a (some (key_of c)) b xs (c ∷ ys)
          (IsSpan-Ends P before a (some (key_of c)) xs left)
          (
            next,
            refl,
            entry,
            (Before-Less_trans (key_of c) m next (Less-UpTo (key_of c) m less) on, tt),
            IsSpan-Ends P before next b ys rest,
          )) in
      let low = IsSpan-IsTo P before a m (xs ++ (c ∷ [])) (
        IsSpan-join P before a (some (key_of c)) (some m) xs (c ∷ []) left
          (some m, refl, entry, p, (refl, tt))) in
      bnode_insert-sorted_insert (xs ++ (c ∷ ys)) d sorted (IsEntry-set_key (blank right) m short)
      ∙ ap (sorted_insert d) (sym (append_assoc xs (c ∷ []) ys))
      ∙ sorted_insert_right d (xs ++ (c ∷ [])) ys low
      ∙ ap (λ l. (xs ++ (c ∷ [])) ++ l)
          (sorted_insert_front d ys
            (All-IsPast-IsFrom ys m (IsSpan-IsPast P before m next b ys on rest)))
      ∙ append_assoc xs (c ∷ []) (d ∷ ys)

  pub replaced :
      (l : ℕ) (lo : Chunk) (hi : Option Chunk) (k : Chunk) (t : Bnode V (suc l))
      (p : Place (IsTree V l) (IsTree-before V l) lo hi t k) (c : BnodeEntry (Bnode V l))
      → set t (length p.xs) c ≡ p.xs ++ (c ∷ p.ys)
  replaced l lo hi k t p c =
      ap (λ n. set n (length p.xs) c) (sym p.whole) ∙ set-append p.xs p.c c p.ys

  -- The entry made for a right half.
  pub blank_key :
      {C : Type ℓ} (r : C) (m : Chunk) → some m ≡ some (key_of (set_key (blank r) (some m)))
  unfolding set_key
  blank_key r m = refl

  pub blank_payload : {C : Type ℓ} (r : C) (m : Chunk) → (set_key (blank r) (some m)).payload ≡ r
  unfolding set_key
  blank_payload r m = refl

  pub blank_tree :
      (l : ℕ) (hi : Option Chunk) (r : Bnode V l) (m : Chunk)
      → IsTree V l m hi r
      → IsTree V l (key_of (set_key (blank r) (some m))) hi (set_key (blank r) (some m)).payload
  unfolding set_key
  blank_tree l hi r m h = h

  -- An inner node above a grown child is grown.
  pub raise-IsGrown :
      (sizes : Sizes) (l : ℕ) (lo : Chunk) (hi : Option Chunk) (k : Chunk) (t : Bnode V (suc l))
      (es : List (BnodeEntry V)) (out : Bnode V l × Option (Chunk × Bnode V l))
      → Before lo hi
      → (p : Place (IsTree V l) (IsTree-before V l) lo hi t k)
      → IsGrown V l (key_of p.c) p.next es out
      → IsGrown V
          (suc l)
          lo
          hi
          (gather (flatten V l) p.xs ++ (es ++ gather (flatten V l) p.ys))
          (raise V sizes l t (length p.xs) p.c out)
  unfolding raise
  raise-IsGrown sizes l lo hi k t es (child, none) b p (tree, order) =
      let c : BnodeEntry (Bnode V l) = record p.c { payload = child } in
      let entry = IsEntry-payload p.c child p.entry in
      let span =
        IsSpan-join (IsTree V l) (IsTree-before V l) (some lo) (some (key_of c)) hi p.xs (c ∷ p.ys)
          p.left (p.next, refl, entry, tree, p.right) in
      subst
        (λ n.
          IsTree V (suc l) lo hi n
          × (flatten V (suc l) n ≡ gather (flatten V l) p.xs ++ (es ++ gather (flatten V l) p.ys)))
        (sym (replaced l lo hi k t p c))
        (
          (b, span),
          gather-append (flatten V l) p.xs (c ∷ p.ys)
              ∙ ap (λ n. gather (flatten V l) p.xs ++ (n ++ gather (flatten V l) p.ys)) order,
        )
  raise-IsGrown sizes l lo hi k t es (child, some (m, r)) b p h =
      let c : BnodeEntry (Bnode V l) = record p.c { payload = child } in
      let d : BnodeEntry (Bnode V l) = set_key (blank r) (some m) in
      let entry = IsEntry-payload p.c child p.entry in
      let span =
        IsSpan-join (IsTree V l) (IsTree-before V l) (some lo) (some (key_of c)) hi p.xs
          (c ∷ d ∷ p.ys) p.left
          (
            some m,
            refl,
            entry,
            h.left,
            (
              p.next,
              blank_key r m,
              IsEntry-set_key (blank r) m h.short,
              blank_tree l p.next r m h.right,
              p.right,
            ),
          ) in
      let place : bnode_insert_bnode_child (set t (length p.xs) c) m r ≡ p.xs ++ (c ∷ d ∷ p.ys) =
        ap (λ n. bnode_insert_bnode_child n m r) (replaced l lo hi k t p c)
        ∙ beside (IsTree V l) (IsTree-before V l) (some lo) p.next hi p.xs c p.ys m r p.left entry
            h.left h.short h.right p.right in
      let all : gather (flatten V l) (p.xs ++ (c ∷ d ∷ p.ys))
          ≡ gather (flatten V l) p.xs ++ (es ++ gather (flatten V l) p.ys) =
        gather-append (flatten V l) p.xs (c ∷ d ∷ p.ys)
        ∙ ap
            (λ n.
              gather (flatten V l) p.xs
              ++ (flatten V l child ++ (flatten V l n ++ gather (flatten V l) p.ys)))
            (blank_payload r m)
        ∙ ap (λ n. gather (flatten V l) p.xs ++ n)
            (sym (append_assoc (flatten V l child) (flatten V l r) (gather (flatten V l) p.ys)))
        ∙ ap (λ n. gather (flatten V l) p.xs ++ (n ++ gather (flatten V l) p.ys)) h.order in
      subst
        (λ n.
          IsGrown V (suc l) lo hi (gather (flatten V l) p.xs ++ (es ++ gather (flatten V l) p.ys))
            (settle sizes n))
        (sym place)
        (subst (λ n. IsGrown V (suc l) lo hi n (settle sizes (p.xs ++ (c ∷ d ∷ p.ys)))) all
          (inner-IsGrown V l lo hi (p.xs ++ (c ∷ d ∷ p.ys)) (settle sizes (p.xs ++ (c ∷ d ∷ p.ys)))
            b span
            (settle-IsSettled (IsTree V l) (IsTree-before V l) sizes (some lo) hi
              (p.xs ++ (c ∷ d ∷ p.ys)) span)))
