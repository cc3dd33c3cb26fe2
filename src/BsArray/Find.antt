-- ===== src/BsArray/Find.antt =====
-- `bs_array_find` on a sorted array agrees with a linear scan.
use wave_db.Base.{
  ℕ, ◌≡◌, ◌∙◌, refl, sym, ap, Ordering, none, some, List, [], ◌∷◌, ◌++◌, arith, All, take, drop,
  take-append-drop,
}
use wave_db.Chunk.{Chunk}
use wave_db.Chunk.Order.{lexicographic, lexicographic_trans, lexicographic-flip, flip}
use wave_db.BsArray.{BsArray, search, find}
use wave_db.BsArray.Entry.{BnodeEntry}
use wave_db.BsArray.Sorted.{
  key_of, IsUnder, IsSorted, Below, NotBelow, search_split, scan, front, found_at,
}
use mathlib.Core.Path.{subst}

-- Above the key stays above.
after_gt :
    (a b k : List ℕ)
    → lexicographic a k ≡ Ordering.gt
    → lexicographic a b ≡ Ordering.lt
    → lexicographic b k ≡ Ordering.gt
after_gt a b k h l =
    lexicographic-flip k b
    ∙ ap flip (lexicographic_trans k a b (lexicographic-flip a k ∙ ap flip h) l)

module _ {ℓ} {V : Type ℓ} where
  pub IsSorted-right : (xs ys : List (BnodeEntry V)) → IsSorted (xs ++ ys) → IsSorted ys
  IsSorted-right [] ys s = s
  IsSorted-right (x ∷ xs) ys s = IsSorted-right xs ys s.2

  scan-append-Below :
      (xs ys : List (BnodeEntry V)) (k : Chunk)
      → IsSorted (xs ++ ys)
      → All (Below k) xs
      → scan (xs ++ ys) k ≡ scan ys k
  scan-append-Below [] ys k s h = refl
  scan-append-Below (x ∷ xs) ys k s h =
      ground (arith, s.0.cmp k, h.0, scan-append-Below xs ys k s.2 h.1)

  scan_above :
      (e : BnodeEntry V) (ys : List (BnodeEntry V)) (k : Chunk)
      → lexicographic (key_of e) k ≡ Ordering.gt
      → All (IsUnder e) ys
      → scan ys k ≡ none
  scan_above e [] k h u = refl
  scan_above e (f ∷ ys) k h u =
      ground (arith, after_gt (key_of e) (key_of f) k h u.0, scan_above e ys k h u.1)

  scan-front :
      (ys : List (BnodeEntry V)) (k : Chunk)
      → IsSorted ys
      → All (NotBelow k) ys
      → scan ys k ≡ front ys k
  scan-front [] k s h = refl
  scan-front (e ∷ ys) k s h = ground (
    arith,
    s.0.cmp k,
    h.0,
    λ (g : lexicographic (key_of e) k ≡ Ordering.gt). scan_above e ys k g s.1,
  )

  -- On a sorted array `bs_array_find` returns what a linear scan for the key does.
  pub find-scan :
      (arr : BsArray V) (k : Chunk) → IsSorted arr.entries → (find arr k).0 ≡ scan arr.entries k
  unfolding find
  find-scan arr k s =
      found_at n arr.entries k
      ∙ sym (scan-front right k (IsSorted-right left right whole) split.1)
      ∙ sym (scan-append-Below left right k whole split.0)
      ∙ ap (λ l. scan l k) (take-append-drop n arr.entries)
    where
      n : ℕ
      n = search arr.entries (some k)

      left : List (BnodeEntry V)
      left = take n arr.entries

      right : List (BnodeEntry V)
      right = drop n arr.entries

      split : All (Below k) left × All (NotBelow k) right
      split = search_split arr.entries k s

      whole : IsSorted (left ++ right)
      whole = subst IsSorted (sym (take-append-drop n arr.entries)) s
