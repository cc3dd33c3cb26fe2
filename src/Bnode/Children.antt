-- ===== src/Bnode/Children.antt =====
-- The child that the descent follows in a node whose keys ascend.
use wave_db.Base.{
  ℕ, suc, ◌-◌, ◌≡◌, ◌∙◌, refl, sym, ap, inl, inr, Option, none, some, List, [], ◌∷◌, ◌++◌, arith,
  ◌==◌, if◌then◌else◌, length, All, All-snoc, length-append,
}
use wave_db.Chunk.{Chunk}
use wave_db.BsArray.Entry.{BnodeEntry}
use wave_db.BsArray.Sorted.{key_of, IsSorted}
use wave_db.Bnode.{bnode_search, bnode_find, child_index}
use wave_db.Bnode.Order.{Less, UpTo, Less-trans, UpTo-refl, Less-not_UpTo, trichotomy, IsTo}
use wave_db.Bnode.Nodes.{
  bnode_find-scan, bnode_search_at, scan-append-IsTo, scan-IsPast, scan-same, IsPast,
  All-IsPast-IsFrom,
}
use mathlib.Core.List.{append_assoc}
use mathlib.Core.Path.{subst}

module _ {ℓ} {V : Type ℓ} where
  place : Option (BnodeEntry V) → ℕ → ℕ
  place none index = if index == 0 then 0 else index - 1
  place (some entry) index = index

  pub bnode_find-index :
      (entries : List (BnodeEntry V)) (k : Chunk)
      → (bnode_find entries k).1 ≡ bnode_search entries (some k)
  unfolding bnode_find
  bnode_find-index entries k = refl

  child_index-place :
      (entries : List (BnodeEntry V)) (k : Chunk) (found : Option (BnodeEntry V)) (n : ℕ)
      → (bnode_find entries k).0 ≡ found
      → (bnode_find entries k).1 ≡ n
      → child_index entries k ≡ place found n
  unfolding child_index place
  child_index-place entries k none n f i = rw (f, i, child_index) refl
  child_index-place entries k (some e) n f i = rw (f, i, child_index) refl

  child_index_same :
      (xs : List (BnodeEntry V)) (c : BnodeEntry V) (ys : List (BnodeEntry V)) (k : Chunk)
      → IsSorted (xs ++ (c ∷ ys))
      → All (IsTo (key_of c)) xs
      → key_of c ≡ k
      → All (IsPast k) ys
      → child_index (xs ++ (c ∷ ys)) k ≡ length xs
  unfolding place
  child_index_same xs c ys k s low same past =
      child_index-place (xs ++ (c ∷ ys)) k (some c) (length xs)
        (bnode_find-scan (xs ++ (c ∷ ys)) k s
          ∙ scan-append-IsTo xs (c ∷ ys) k (subst (λ a. All (IsTo a) xs) same low)
          ∙ scan-same c ys k same)
        (bnode_find-index (xs ++ (c ∷ ys)) k
          ∙ bnode_search_at xs (c ∷ ys) k s (subst (λ a. All (IsTo a) xs) same low)
              (subst (λ a. UpTo k a) (sym same) (UpTo-refl k), All-IsPast-IsFrom ys k past))

  pub All-IsTo-trans :
      (xs : List (BnodeEntry V)) (a b : Chunk) → Less a b → All (IsTo a) xs → All (IsTo b) xs
  All-IsTo-trans [] a b l h = tt
  All-IsTo-trans (x ∷ xs) a b l h = (Less-trans (key_of x) a b h.0 l, All-IsTo-trans xs a b l h.1)

  child_index_after :
      (xs : List (BnodeEntry V)) (c : BnodeEntry V) (ys : List (BnodeEntry V)) (k : Chunk)
      → IsSorted (xs ++ (c ∷ ys))
      → All (IsTo (key_of c)) xs
      → Less (key_of c) k
      → All (IsPast k) ys
      → child_index (xs ++ (c ∷ ys)) k ≡ length xs
  unfolding place
  child_index_after xs c ys k s low less past =
      let to = All-IsTo-trans xs (key_of c) k less low in
      let together = append_assoc xs (c ∷ []) ys in
      child_index-place (xs ++ (c ∷ ys)) k none (suc (length xs))
        (bnode_find-scan (xs ++ (c ∷ ys)) k s
          ∙ scan-append-IsTo xs (c ∷ ys) k to
          ∙ scan-append-IsTo (c ∷ []) ys k (less, tt)
          ∙ scan-IsPast ys k past)
        (bnode_find-index (xs ++ (c ∷ ys)) k
          ∙ ap (λ l. bnode_search l (some k)) (sym together)
          ∙ bnode_search_at (xs ++ (c ∷ [])) ys k (subst IsSorted (sym together) s)
              (All-snoc (IsTo k) xs c to less) (All-IsPast-IsFrom ys k past)
          ∙ omega (arith, length-append xs (c ∷ [])))
      ∙ ground arith

  -- The child followed is the last one whose key is not above the key sought.
  pub child_index_at :
      (xs : List (BnodeEntry V)) (c : BnodeEntry V) (ys : List (BnodeEntry V)) (k : Chunk)
      → IsSorted (xs ++ (c ∷ ys))
      → All (IsTo (key_of c)) xs
      → UpTo (key_of c) k
      → All (IsPast k) ys
      → child_index (xs ++ (c ∷ ys)) k ≡ length xs
  unfolding place
  child_index_at xs c ys k s low here past = elim (trichotomy (key_of c) k) [
    | inl less ↦ child_index_after xs c ys k s low less past
    | inr (inl same) ↦ child_index_same xs c ys k s low same past
    | inr (inr more) ↦ Less-not_UpTo k (key_of c) more here
  ]

  -- The first one, for a key below all of them.
  pub child_index_first :
      (c : BnodeEntry V) (ys : List (BnodeEntry V)) (k : Chunk)
      → IsSorted (c ∷ ys)
      → Less k (key_of c)
      → All (IsPast k) ys
      → child_index (c ∷ ys) k ≡ 0
  unfolding place
  child_index_first c ys k s below past =
      child_index-place (c ∷ ys) k none 0
        (bnode_find-scan (c ∷ ys) k s ∙ scan-IsPast (c ∷ ys) k (below, past))
        (bnode_find-index (c ∷ ys) k
          ∙ bnode_search_at [] (c ∷ ys) k s tt (All-IsPast-IsFrom (c ∷ ys) k (below, past)))
