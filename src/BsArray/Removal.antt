-- ===== src/BsArray/Removal.antt =====
-- `bs_array_remove_at` keeps a sorted array sorted, and removes what is found at one key.
use wave_db.Base.{
  ℕ, zero, suc, ◌≡◌, ◌∙◌, refl, sym, ap, none, some, List, [], ◌∷◌, ◌++◌, arith, All, is_eq, take,
  drop, if◌then◌else◌, get_elem?,
}
use wave_db.Chunk.{Chunk}
use wave_db.Chunk.Order.{lexicographic, lexicographic-flip, lexicographic-eq_iff}
use wave_db.BsArray.{BsArray, remove_at}
use wave_db.BsArray.Entry.{BnodeEntry}
use wave_db.BsArray.Sorted.{key_of, IsKeyed, IsUnder, IsSorted, scan}
use mathlib.Core.Path.{subst}
use wave_db.BsArray.Changes.{IsOver, scan-place}
use native.Mathlib.Numerals.{add-one}

module _ {ℓ} {V : Type ℓ} where
  All-unplace :
      (x e : BnodeEntry V) (xs ys : List (BnodeEntry V))
      → All (IsUnder x) (xs ++ (e ∷ ys))
      → All (IsUnder x) (xs ++ ys) × IsUnder x e
  All-unplace x e [] ys h = (h.1, h.0)
  All-unplace x e (y ∷ xs) ys h = let (a, b) = All-unplace x e xs ys h.1 in ((h.0, a), b)

  unplace_sound :
      (xs ys : List (BnodeEntry V)) (e : BnodeEntry V)
      → IsSorted (xs ++ (e ∷ ys))
      → IsSorted (xs ++ ys) × All (IsOver e) xs × IsKeyed e × All (IsUnder e) ys
  unplace_sound [] ys e s = (s.2, tt, s.0, s.1)
  unplace_sound (x ∷ xs) ys e s =
      let (a, b, c, d) = unplace_sound xs ys e s.2 in
      let (u, v) = All-unplace x e xs ys s.1 in ((s.0, u, a), (v, b), c, d)

  scan_gone :
      (xs ys : List (BnodeEntry V)) (e : BnodeEntry V)
      → All (IsOver e) xs
      → All (IsUnder e) ys
      → scan (xs ++ ys) (key_of e) ≡ none
  scan_gone [] [] e h k = refl
  scan_gone [] (y ∷ ys) e h k =
      ground (arith, k.0, lexicographic-flip (key_of e) (key_of y), scan_gone [] ys e h k.1)
  scan_gone (x ∷ xs) ys e h k = ground (arith, h.0, scan_gone xs ys e h.1 k)

  split_at :
      (entries : List (BnodeEntry V)) (i : ℕ) (e : BnodeEntry V)
      → get_elem? entries i ≡ some e
      → entries ≡ take i entries ++ (e ∷ drop (suc i) entries)
  split_at [] i e h = cc
  split_at (x ∷ entries) zero e h = ground arith
  split_at (x ∷ entries) (suc i) e h = ap (λ l. x ∷ l) (split_at entries i e h)

  removed-entries :
      (arr arr' : BsArray V) (i : ℕ) (e : BnodeEntry V)
      → remove_at arr i ≡ (some e, arr')
      → (get_elem? arr.entries i ≡ some e)
        × (arr'.entries ≡ take i arr.entries ++ drop (suc i) arr.entries)
        × (arr'.capacity ≡ arr.capacity)
  unfolding remove_at
  removed-entries arr arr' i e h = ground (arith, add-one i)

  remaining_sound :
      (entries : List (BnodeEntry V)) (i : ℕ) (e : BnodeEntry V)
      → IsSorted entries
      → get_elem? entries i ≡ some e
      → IsSorted (take i entries ++ drop (suc i) entries)
        × ((k : Chunk)
            → scan (take i entries ++ drop (suc i) entries) k
              ≡ (if is_eq (lexicographic (key_of e) k) then none else scan entries k))
  remaining_sound entries i e s h = (parts.0, remaining)
    where
      left : List (BnodeEntry V)
      left = take i entries

      right : List (BnodeEntry V)
      right = drop (suc i) entries

      whole : entries ≡ left ++ (e ∷ right)
      whole = split_at entries i e h

      parts : IsSorted (left ++ right) × All (IsOver e) left × IsKeyed e × All (IsUnder e) right
      parts = unplace_sound left right e (subst IsSorted whole s)

      remaining :
          (k : Chunk)
          → scan (left ++ right) k
            ≡ (if is_eq (lexicographic (key_of e) k) then none else scan entries k)
      remaining k = ground (
        arith,
        ap (λ l. scan l k) whole,
        scan-place left right e k parts.1,
        scan_gone left right e parts.1 parts.3,
        lexicographic-eq_iff (key_of e) k,
      )

  -- A removal within bounds from a sorted array leaves it sorted and of the same capacity, returns
  -- the entry that stood at the index, and only at that entry's key something is found no more.
  remove_at-IsSorted :
      (arr arr' : BsArray V) (i : ℕ) (e : BnodeEntry V)
      → IsSorted arr.entries
      → remove_at arr i ≡ (some e, arr')
      → (get_elem? arr.entries i ≡ some e)
        × IsSorted arr'.entries
        × ((k : Chunk)
            → scan arr'.entries k
              ≡ (if is_eq (lexicographic (key_of e) k) then none else scan arr.entries k))
        × (arr'.capacity ≡ arr.capacity)
  remove_at-IsSorted arr arr' i e s h =
      let (at, same, cap) = removed-entries arr arr' i e h in
      let (sorted, found) = remaining_sound arr.entries i e s at in
      (at, subst IsSorted (sym same) sorted, λ k. ap (λ l. scan l k) same ∙ found k, cap)
