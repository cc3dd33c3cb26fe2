-- ===== src/Bnode/Update.antt =====
-- A write to the entry of a key through the pointer that the lookup returns, as hbtrie_insert in
-- src/HBTrie/hbtrie.c makes one.
use wave_db.Base.{
  ℕ, zero, suc, ◌≡◌, ◌∙◌, refl, sym, ap, inl, inr, Option, none, some, List, [], ◌∷◌, ◌++◌, length,
  set, get_elem?, All, is_eq, if◌then◌else◌,
}
use wave_db.Chunk.{Chunk}
use wave_db.Chunk.Order.{lexicographic}
use wave_db.BsArray.Entry.{BnodeEntry}
use wave_db.BsArray.Sorted.{key_of, IsSorted, scan}
use wave_db.Bnode.{Bnode, Btree, bnode_find, bnode_search, child_index, find}
use wave_db.Bnode.Order.{Less, UpTo, UpTo-refl, trichotomy, IsTo, Less-not_UpTo}
use wave_db.Bnode.Nodes.{
  scan-same, scan-append-IsTo, scan-IsPast, bnode_find-scan, bnode_search_at, All-IsPast-IsFrom,
}
use wave_db.Bnode.Children.{All-IsTo-trans, bnode_find-index}
use wave_db.Bnode.Spans.{
  Before, Before-cases, Ends, IsSpan, IsSpan-join, IsSpan-IsTo, IsSpan-IsSorted, IsSpan-IsPast,
  Place, IsSpan-Place,
}
use wave_db.Bnode.Trees.{flatten, gather, gather-append, IsTree, IsTree-before}
use wave_db.Bnode.Descent.{
  followed, child_index-Place, around, around-IsTo, around-IsPast, entries, IsBtree, find-scan_all,
}
use wave_db.Bnode.Raising.{IsEntry-payload, set-append, replaced}
use wave_db.Bnode.Amend.{rewritten, amend, amend_around, amended, amend-none, scan-amend}
use mathlib.Core.Path.{subst}

module _ {ℓ} (V : Type ℓ) where
  -- The write in a leaf, at what the lookup in it gave.
  write_at : List (BnodeEntry V) → (V → V) → Option (BnodeEntry V) × ℕ → List (BnodeEntry V)
  write_at node f (none, index) = node
  write_at node f (some entry, index) = set node index (record entry { payload = f entry.payload })

  update_below : (l : ℕ) → Bnode V l → Chunk → (V → V) → Bnode V l
  unfolding write_at
  update_below zero node key f = write_at node f (bnode_find node key)
  update_below (suc l) node key f = elim (get_elem? node (child_index node key)) [
    | none ↦ node
    | some entry ↦
        set node (child_index node key)
          (record entry { payload = update_below l entry.payload key f })
  ]

  unfoldable pub update : Btree V → Chunk → (V → V) → Btree V
  unfolding update_below
  update tree key f = record tree { root = update_below tree.height tree.root key f }

  -- The write in a leaf.
  record Written (a hi : Option Chunk) (t : List (BnodeEntry V)) (k : Chunk) (f : V → V)
      (out : List (BnodeEntry V)) : Type ℓ where
    span : IsSpan Ends a out hi
    order : out ≡ amend V t k f

  write_at-Place :
      (lo : Chunk) (hi : Option Chunk) (t : List (BnodeEntry V)) (k : Chunk) (f : V → V)
      → IsSpan Ends (some lo) t hi
      → (p : Place Ends (λ lo hi c p. p.0) lo hi t k) → key_of p.c ≡ k
      → Written (some lo) hi t k f (write_at t f (bnode_find t k))
  unfolding write_at
  write_at-Place lo hi t k f span p same =
      let ends = λ (lo : Chunk) (hi : Option Chunk) (c : V) (p : Ends lo hi c). p.0 in
      let c : BnodeEntry V = record p.c { payload = f p.c.payload } in
      let low : All (IsTo k) p.xs =
        subst (λ a. All (IsTo a) p.xs) same
          (IsSpan-IsTo Ends ends (some lo) (key_of p.c) p.xs p.left) in
      let past = IsSpan-IsPast Ends ends k p.next hi p.ys p.end p.right in
      let found : (bnode_find t k).0 ≡ some p.c =
        bnode_find-scan t k (IsSpan-IsSorted Ends ends (some lo) hi t span)
        ∙ ap (λ l. scan l k) (sym p.whole)
        ∙ scan-append-IsTo p.xs (p.c ∷ p.ys) k low
        ∙ scan-same p.c p.ys k same in
      let index : (bnode_find t k).1 ≡ length p.xs =
        bnode_find-index t k
        ∙ ap (λ l. bnode_search l (some k)) (sym p.whole)
        ∙ bnode_search_at p.xs (p.c ∷ p.ys) k
            (subst IsSorted (sym p.whole) (IsSpan-IsSorted Ends ends (some lo) hi t span)) low
            (subst (λ a. UpTo k a) (sym same) (UpTo-refl k), All-IsPast-IsFrom p.ys k past) in
      let code : write_at t f (bnode_find t k) ≡ p.xs ++ (c ∷ p.ys) =
        ap (λ o. write_at t f (o, (bnode_find t k).1)) found
        ∙ ap (λ n. set t n c) index
        ∙ ap (λ l. set l (length p.xs) c) (sym p.whole)
        ∙ set-append V p.xs p.c c p.ys in
      record {
        span =
            subst (λ n. IsSpan Ends (some lo) n hi) (sym code)
              (IsSpan-join Ends ends (some lo) (some (key_of c)) hi p.xs (c ∷ p.ys) p.left (
                p.next,
                refl,
                IsEntry-payload V p.c (f p.c.payload) p.entry,
                (p.child.0, tt),
                p.right,
              ));
        order =
            code
            ∙ sym (amended V p.xs p.c p.ys k f low past same)
            ∙ ap (λ n. amend V n k f) p.whole;
      }

  absent_after :
      (lo : Chunk) (hi : Option Chunk) (t : List (BnodeEntry V)) (k : Chunk)
      → (p : Place Ends (λ lo hi c p. p.0) lo hi t k) → Less (key_of p.c) k
      → scan t k ≡ none
  absent_after lo hi t k p less =
      let ends = λ (lo : Chunk) (hi : Option Chunk) (c : V) (p : Ends lo hi c). p.0 in
      let low =
        All-IsTo-trans p.xs (key_of p.c) k less
          (IsSpan-IsTo Ends ends (some lo) (key_of p.c) p.xs p.left) in
      ap (λ l. scan l k) (sym p.whole)
      ∙ scan-append-IsTo p.xs (p.c ∷ p.ys) k low
      ∙ scan-append-IsTo (p.c ∷ []) p.ys k (less, tt)
      ∙ scan-IsPast p.ys k (IsSpan-IsPast Ends ends k p.next hi p.ys p.end p.right)

  unchanged :
      (a hi : Option Chunk) (t : List (BnodeEntry V)) (k : Chunk) (f : V → V)
      → IsSpan Ends a t hi
      → scan t k ≡ none
      → Written a hi t k f (write_at t f (bnode_find t k))
  unfolding write_at
  unchanged a hi t k f span absent =
      let found =
        bnode_find-scan t k (IsSpan-IsSorted Ends (λ lo hi c p. p.0) a hi t span) ∙ absent in
      let code : write_at t f (bnode_find t k) ≡ t =
        ap (λ o. write_at t f (o, (bnode_find t k).1)) found in
      record {
        span = subst (λ n. IsSpan Ends a n hi) (sym code) span;
        order = code ∙ sym (amend-none V t k f absent);
      }

  write_at-Written :
      (a hi : Option Chunk) (t : List (BnodeEntry V)) (k : Chunk) (f : V → V)
      → IsSpan Ends a t hi
      → Before k hi
      → Written a hi t k f (write_at t f (bnode_find t k))
  write_at-Written a hi t k f span to = elim (Before-cases k a) [
    | inl before ↦
        unchanged a hi t k f span
          (scan-IsPast t k (IsSpan-IsPast Ends (λ lo hi c p. p.0) k a hi t before span))
    | inr (m, is, up) ↦
        let from = subst (λ x. IsSpan Ends x t hi) is span in
        let p = IsSpan-Place Ends (λ lo hi c p. p.0) m hi t k from up to in
        elim (trichotomy (key_of p.c) k) [
          | inl less ↦ unchanged a hi t k f span (absent_after m hi t k p less)
          | inr (inl same) ↦
              subst (λ x. Written x hi t k f (write_at t f (bnode_find t k))) (sym is)
                (write_at-Place m hi t k f from p same)
          | inr (inr more) ↦ Less-not_UpTo k (key_of p.c) more p.start
        ]
  ]

  update_below-follow :
      (l : ℕ) (t : Bnode V (suc l)) (k : Chunk) (f : V → V) (c : BnodeEntry (Bnode V l))
      → get_elem? t (child_index t k) ≡ some c
      → update_below (suc l) t k f
        ≡ set t (child_index t k) (record c { payload = update_below l c.payload k f })
  unfolding update_below
  update_below-follow l t k f c h = rw (h, update_below) refl

  -- The write keeps a tree in place, and changes the entries of its key only.
  update_below-IsTree :
      (l : ℕ) (lo : Chunk) (hi : Option Chunk) (t : Bnode V l) (k : Chunk) (f : V → V)
      → IsTree V l lo hi t
      → UpTo lo k
      → Before k hi
      → IsTree V l lo hi (update_below l t k f)
        × (flatten V l (update_below l t k f) ≡ amend V (flatten V l t) k f)
  unfolding update_below
  update_below-IsTree zero lo hi t k f (b, a, from, span) up to =
      let w = write_at-Written a hi t k f span to in ((b, a, from, w.span), w.order)
  update_below-IsTree (suc l) lo hi t k f (b, span) up to =
      let p = IsSpan-Place (IsTree V l) (IsTree-before V l) lo hi t k span up to in
      let (tree, order) =
        update_below-IsTree l (key_of p.c) p.next p.c.payload k f p.child p.start p.end in
      let c : BnodeEntry (Bnode V l) = record p.c { payload = update_below l p.c.payload k f } in
      let whole =
        IsSpan-join (IsTree V l) (IsTree-before V l) (some lo) (some (key_of c)) hi p.xs (c ∷ p.ys)
          p.left
          (
            p.next,
            refl,
            IsEntry-payload V p.c (update_below l p.c.payload k f) p.entry,
            tree,
            p.right,
          ) in
      let code : update_below (suc l) t k f ≡ p.xs ++ (c ∷ p.ys) =
        update_below-follow l t k f p.c (followed V l lo hi t k span p)
        ∙ ap (λ n. set t n c) (child_index-Place V l lo hi t k span p)
        ∙ replaced V l lo hi k t p c in
      subst
        (λ n. IsTree V (suc l) lo hi n × (flatten V (suc l) n ≡ amend V (flatten V (suc l) t) k f))
        (sym code)
        (
          (b, whole),
          gather-append (flatten V l) p.xs (c ∷ p.ys)
              ∙ ap (λ n. gather (flatten V l) p.xs ++ (n ++ gather (flatten V l) p.ys)) order
              ∙ sym (
                  amend_around V (gather (flatten V l) p.xs) (flatten V l p.c.payload)
                    (gather (flatten V l) p.ys) k f (around-IsTo V l lo hi t k p)
                    (around-IsPast V l lo hi t k p))
              ∙ ap (λ n. amend V n k f) (sym (around V l lo hi t k p)),
        )

module _ {ℓ} {V : Type ℓ} where
  pub update-IsBtree :
      (lo : Chunk) (tree : Btree V) (k : Chunk) (f : V → V)
      → IsBtree lo tree
      → UpTo lo k
      → IsBtree lo (update V tree k f)
  unfolding update
  update-IsBtree lo tree k f h up =
      (update_below-IsTree V tree.height lo none tree.root k f h up tt).0

  entries-update :
      (lo : Chunk) (tree : Btree V) (k : Chunk) (f : V → V)
      → IsBtree lo tree
      → UpTo lo k
      → entries (update V tree k f) ≡ amend V (entries tree) k f
  unfolding update
  entries-update lo tree k f h up =
      (update_below-IsTree V tree.height lo none tree.root k f h up tt).1

  -- After the write the lookup of its key finds the new payload, and every other what it found before.
  pub find-update :
      (lo : Chunk) (tree : Btree V) (k other : Chunk) (f : V → V)
      → IsBtree lo tree
      → UpTo lo k
      → find (update V tree k f) other
        ≡ (if is_eq (lexicographic k other) then rewritten f (find tree k) else find tree other)
  find-update lo tree k other f h up =
      find-scan_all lo (update V tree k f) other (update-IsBtree lo tree k f h up)
      ∙ ap (λ es. scan es other) (entries-update lo tree k f h up)
      ∙ scan-amend V (entries tree) k other f
      ∙ ap (λ o. if is_eq (lexicographic k other) then rewritten f o else scan (entries tree) other)
          (sym (find-scan_all lo tree k h))
      ∙ ap (λ o. if is_eq (lexicographic k other) then rewritten f (find tree k) else o)
          (sym (find-scan_all lo tree other h))
