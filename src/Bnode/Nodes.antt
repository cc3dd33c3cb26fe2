-- ===== src/Bnode/Nodes.antt =====
-- The search, the lookup and the insertion in one node whose keys ascend.
use wave_db.Base.{
  ℕ, zero, suc, ◌≤◌, ◌<◌, ◌≡◌, ◌∙◌, refl, sym, ap, inl, inr, Option, none, some, List, [], ◌∷◌,
  ◌++◌, arith, ltb, if◌then◌else◌, length, take, drop, get_elem?, All, is_lt, is_eq,
  take-append_left, drop-append_left,
}
use wave_db.Chunk.{Chunk}
use wave_db.Chunk.Order.{lexicographic-flip, lexicographic-eq_iff}
use wave_db.BsArray.{search, find, cmp_at}
use wave_db.BsArray.Entry.{BnodeEntry, get_key, set_key}
use wave_db.BsArray.Search.{search_bound}
use wave_db.BsArray.Sorted.{
  key_of, IsKeyed, IsUnder, IsSorted, IsSorted-IsPartitioned, Below, NotBelow, search_split, scan,
  set_key-IsKeyed,
}
use wave_db.BsArray.Find.{find-scan, IsSorted-right}
use wave_db.Bnode.{bnode_search, bnode_find, bnode_insert}
use wave_db.Bnode.Order.{
  Less, UpTo, Less-UpTo, UpTo-cases, UpTo-Less_trans, IsFrom, IsTo, sorted_insert,
  sorted_insert_right, sorted_insert_front,
}
use mathlib.Core.Path.{subst}

module _ {ℓ} {V : Type ℓ} where
  -- The entry has a key of at most 255 bytes, and the inline bytes that `bnode_entry_set_key` makes.
  pub record IsEntry (e : BnodeEntry V) : Type ℓ where
    pub key : e.key ≡ some (key_of e)
    pub short : length (key_of e) < 256
    pub same : set_key e (some (key_of e)) ≡ e

  pub IsEntry-IsKeyed : (e : BnodeEntry V) → IsEntry e → IsKeyed e
  IsEntry-IsKeyed e h = subst IsKeyed h.same (set_key-IsKeyed e (key_of e) h.short)

  pub bnode_search-search :
      (entries : List (BnodeEntry V)) (key : Option Chunk)
      → bnode_search entries key ≡ search entries key
  unfolding bnode_search search
  bnode_search-search [] key = refl
  bnode_search-search (e ∷ entries) key = ground arith

  -- A place that splits the entries at a key is the only one.
  one_place :
      (xs ys : List (BnodeEntry V)) (k : Chunk) (n : ℕ)
      → n ≤ length (xs ++ ys)
      → All (Below k) (take n (xs ++ ys))
      → All (NotBelow k) (drop n (xs ++ ys))
      → All (Below k) xs
      → All (NotBelow k) ys
      → n ≡ length xs
  one_place [] ys k zero i b a bx ay = refl
  one_place [] [] k (suc n) i b a bx ay = absurd (omega (arith, i))
  one_place [] (y ∷ ys) k (suc n) i b a bx ay =
      let l = b.0 in let m = ay.0 in absurd (ground (arith, l, m))
  one_place (x ∷ xs) ys k zero i b a bx ay =
      let l = bx.0 in let m = a.0 in absurd (ground (arith, l, m))
  one_place (x ∷ xs) ys k (suc n) i b a bx ay =
      ap suc (one_place xs ys k n (omega (arith, i)) b.1 a bx.1 ay)

  All-Below :
      (xs ys : List (BnodeEntry V)) (k : Chunk)
      → IsSorted (xs ++ ys)
      → All (IsTo k) xs
      → All (Below k) xs
  All-Below [] ys k s h = tt
  All-Below (x ∷ xs) ys k s h = (ap is_lt (s.0.cmp k ∙ h.0), All-Below xs ys k s.2 h.1)

  All-NotBelow :
      (ys : List (BnodeEntry V)) (k : Chunk) → IsSorted ys → All (IsFrom k) ys → All (NotBelow k) ys
  All-NotBelow [] k s h = tt
  All-NotBelow (y ∷ ys) k s h = (ap is_lt (s.0.cmp k) ∙ h.0, All-NotBelow ys k s.2 h.1)

  -- The search finds the place.
  pub bnode_search_at :
      (xs ys : List (BnodeEntry V)) (k : Chunk)
      → IsSorted (xs ++ ys)
      → All (IsTo k) xs
      → All (IsFrom k) ys
      → bnode_search (xs ++ ys) (some k) ≡ length xs
  bnode_search_at xs ys k s b a =
      let (inside, _, _) =
        search_bound (xs ++ ys) (some k) (IsSorted-IsPartitioned (xs ++ ys) k s) in
      let split = search_split (xs ++ ys) k s in
      bnode_search-search (xs ++ ys) (some k)
      ∙ one_place xs ys k (search (xs ++ ys) (some k)) inside split.0 split.1
          (All-Below xs ys k s b) (All-NotBelow ys k (IsSorted-right xs ys s) a)

  -- Sorted entries on both sides of a key.
  pub record Cut (entries : List (BnodeEntry V)) (k : Chunk) : Type ℓ where
    pub left : List (BnodeEntry V)
    pub right : List (BnodeEntry V)
    pub whole : left ++ right ≡ entries
    pub below : All (IsTo k) left
    pub above : All (IsFrom k) right

  All-IsFrom :
      (e : BnodeEntry V) (xs : List (BnodeEntry V)) (k : Chunk)
      → UpTo k (key_of e)
      → All (IsUnder e) xs
      → All (IsFrom k) xs
  All-IsFrom e [] k h u = tt
  All-IsFrom e (x ∷ xs) k h u = (
    Less-UpTo k (key_of x) (UpTo-Less_trans k (key_of e) (key_of x) h u.0),
    All-IsFrom e xs k h u.1,
  )

  pub cut : (entries : List (BnodeEntry V)) (k : Chunk) → IsSorted entries → Cut entries k
  cut [] k s = record { left = []; right = []; whole = refl; below = tt; above = tt }
  cut (e ∷ entries) k s = elim (UpTo-cases k (key_of e)) [
    | inl up ↦ record {
      left = [];
      right = e ∷ entries;
      whole = refl;
      below = tt;
      above = (up, All-IsFrom e entries k up s.1);
    }
    | inr less ↦
        let c = cut entries k s.2 in
        record {
          left = e ∷ c.left;
          right = c.right;
          whole = ap (λ l. e ∷ l) c.whole;
          below = (less, c.below);
          above = c.above;
        }
  ]

  -- `bnode_insert` is the insertion into a sorted list.
  pub bnode_insert-sorted_insert :
      (entries : List (BnodeEntry V)) (e : BnodeEntry V)
      → IsSorted entries
      → IsEntry e
      → bnode_insert entries e ≡ sorted_insert e entries
  unfolding bnode_insert
  bnode_insert-sorted_insert entries e s h =
      let c = cut entries (key_of e) s in
      let place : bnode_search entries (get_key e) ≡ length c.left =
        ap (bnode_search entries) h.key
        ∙ ap (λ l. bnode_search l (some (key_of e))) (sym c.whole)
        ∙ bnode_search_at c.left c.right (key_of e) (subst IsSorted (sym c.whole) s) c.below
            c.above in
      ap (λ n. take n entries ++ (e ∷ drop n entries)) place
      ∙ ap (λ l. take (length c.left) l ++ (e ∷ drop (length c.left) l)) (sym c.whole)
      ∙ ap (λ l. l ++ (e ∷ drop (length c.left) (c.left ++ c.right)))
          (take-append_left c.left c.right)
      ∙ ap (λ l. c.left ++ (e ∷ l)) (drop-append_left c.left c.right)
      ∙ ap (λ l. c.left ++ l) (sym (sorted_insert_front e c.right c.above))
      ∙ sym (sorted_insert_right e c.left c.right c.below)
      ∙ ap (sorted_insert e) c.whole

  -- `bnode_find` is the scan for the key.
  pub bnode_find-scan :
      (entries : List (BnodeEntry V)) (k : Chunk)
      → IsSorted entries
      → (bnode_find entries k).0 ≡ scan entries k
  unfolding bnode_find find
  bnode_find-scan entries k s =
      ap
        (λ n.
          if ltb n (length entries)
          then if is_eq (cmp_at entries n (some k)) then get_elem? entries n else none
          else none)
        (bnode_search-search entries (some k))
      ∙ find-scan (record { entries = entries; capacity = 0 }) k s

  pub scan-append-IsTo :
      (xs ys : List (BnodeEntry V)) (k : Chunk) → All (IsTo k) xs → scan (xs ++ ys) k ≡ scan ys k
  scan-append-IsTo [] ys k h = refl
  scan-append-IsTo (x ∷ xs) ys k h = rw (h.0) (scan-append-IsTo xs ys k h.1)

  -- Strictly above a key.
  abbrev pub IsPast : Chunk → BnodeEntry V → Type 0
  IsPast k e = Less k (key_of e)

  pub scan-IsPast : (xs : List (BnodeEntry V)) (k : Chunk) → All (IsPast k) xs → scan xs k ≡ none
  scan-IsPast [] k h = refl
  scan-IsPast (x ∷ xs) k h = rw (lexicographic-flip k (key_of x), h.0) (scan-IsPast xs k h.1)

  pub scan-append-IsPast :
      (xs ys : List (BnodeEntry V)) (k : Chunk) → All (IsPast k) ys → scan (xs ++ ys) k ≡ scan xs k
  scan-append-IsPast [] ys k h = scan-IsPast ys k h
  scan-append-IsPast (x ∷ xs) ys k h = ground (arith, scan-append-IsPast xs ys k h)

  pub All-IsPast-IsFrom :
      (xs : List (BnodeEntry V)) (k : Chunk) → All (IsPast k) xs → All (IsFrom k) xs
  All-IsPast-IsFrom [] k h = tt
  All-IsPast-IsFrom (x ∷ xs) k h = (Less-UpTo k (key_of x) h.0, All-IsPast-IsFrom xs k h.1)

  pub scan-same :
      (c : BnodeEntry V) (ys : List (BnodeEntry V)) (k : Chunk)
      → key_of c ≡ k
      → scan (c ∷ ys) k ≡ some c
  scan-same c ys k same = rw ((lexicographic-eq_iff (key_of c) k).1 same) refl
