-- ===== src/BsArray/Changes.antt =====
-- `bs_array_insert` keeps a sorted array sorted, and changes what is found at one key.
use wave_db.Base.{
  ℕ, ◌≡◌, ◌≤◌, ◌↔◌, true, false, length, ◌∙◌, refl, sym, ap, Bool, Option, none, some, List, [],
  ◌∷◌, ◌++◌, arith, All, is_eq, take, drop, take-append-drop, if◌then◌else◌,
}
use wave_db.Chunk.{Chunk}
use wave_db.Chunk.Order.{lexicographic, lexicographic-flip, lexicographic-eq_iff}
use wave_db.BsArray.{BsArray, search, insert}
use wave_db.BsArray.Entry.{BnodeEntry}
use wave_db.BsArray.Sorted.{
  key_of, IsKeyed, IsUnder, IsSorted, Below, NotBelow, search_split, scan, is_lt→eq,
}
use wave_db.BsArray.Find.{IsSorted-right}
use mathlib.Core.Path.{subst}

module _ {ℓ} {V : Type ℓ} where
  abbrev pub IsOver : BnodeEntry V → BnodeEntry V → Type 0
  IsOver e f = IsUnder f e

  All-place :
      (x e : BnodeEntry V) (xs ys : List (BnodeEntry V))
      → All (IsUnder x) (xs ++ ys)
      → IsUnder x e
      → All (IsUnder x) (xs ++ (e ∷ ys))
  All-place x e [] ys h u = (u, h)
  All-place x e (y ∷ xs) ys h u = (h.0, All-place x e xs ys h.1 u)

  place-IsSorted :
      (xs ys : List (BnodeEntry V)) (e : BnodeEntry V)
      → IsKeyed e
      → IsSorted (xs ++ ys)
      → All (IsOver e) xs
      → All (IsUnder e) ys
      → IsSorted (xs ++ (e ∷ ys))
  place-IsSorted [] ys e ke s h k = (ke, k, s)
  place-IsSorted (x ∷ xs) ys e ke s h k =
      (s.0, All-place x e xs ys s.1 h.0, place-IsSorted xs ys e ke s.2 h.1 k)

  pub scan-place :
      (xs ys : List (BnodeEntry V)) (e : BnodeEntry V) (k : Chunk)
      → All (IsOver e) xs
      → scan (xs ++ (e ∷ ys)) k
        ≡ (if is_eq (lexicographic (key_of e) k) then some e else scan (xs ++ ys) k)
  scan-place [] ys e k h = refl
  scan-place (x ∷ xs) ys e k h = ground (
    arith,
    h.0,
    lexicographic-eq_iff (key_of x) k,
    lexicographic-flip (key_of x) (key_of e),
    scan-place xs ys e k h.1,
  )

  Below-IsOver :
      (xs ys : List (BnodeEntry V)) (e : BnodeEntry V)
      → IsSorted (xs ++ ys)
      → All (Below (key_of e)) xs
      → All (IsOver e) xs
  Below-IsOver [] ys e s h = tt
  Below-IsOver (x ∷ xs) ys e s h =
      (sym (s.0.cmp (key_of e)) ∙ is_lt→eq _ h.0, Below-IsOver xs ys e s.2 h.1)

  -- What is not below the key and does not have it is above it.
  NotBelow-IsUnder :
      (ys : List (BnodeEntry V)) (e : BnodeEntry V)
      → IsSorted ys
      → All (NotBelow (key_of e)) ys
      → scan ys (key_of e) ≡ none
      → All (IsUnder e) ys
  NotBelow-IsUnder [] e s h fresh = tt
  NotBelow-IsUnder (y ∷ ys) e s h fresh = (
    ground (arith, s.0.cmp (key_of e), h.0, lexicographic-flip (key_of y) (key_of e)),
    NotBelow-IsUnder ys e s.2 h.1 (ground arith),
  )

  scan_right :
      (xs ys : List (BnodeEntry V)) (k : Chunk) → scan (xs ++ ys) k ≡ none → scan ys k ≡ none
  scan_right [] ys k h = h
  scan_right (x ∷ xs) ys k h = scan_right xs ys k (ground arith)

  -- The array with an entry placed where the search says.
  abbrev pub placed : List (BnodeEntry V) → BnodeEntry V → List (BnodeEntry V)
  placed entries e =
      take (search entries (some (key_of e))) entries
      ++ (e ∷ drop (search entries (some (key_of e))) entries)

  placed_sound :
      (entries : List (BnodeEntry V)) (e : BnodeEntry V)
      → IsSorted entries
      → IsKeyed e
      → scan entries (key_of e) ≡ none
      → IsSorted (placed entries e)
        × ((k : Chunk)
            → scan (placed entries e) k
              ≡ (if is_eq (lexicographic (key_of e) k) then some e else scan entries k))
  placed_sound entries e s ke fresh = (
    place-IsSorted left right e ke whole over under,
    λ k.
        scan-place left right e k over
        ∙ ap (λ l. if is_eq (lexicographic (key_of e) k) then some e else scan l k) join,
  )
    where
      n : ℕ
      n = search entries (some (key_of e))

      left : List (BnodeEntry V)
      left = take n entries

      right : List (BnodeEntry V)
      right = drop n entries

      join : left ++ right ≡ entries
      join = take-append-drop n entries

      whole : IsSorted (left ++ right)
      whole = subst IsSorted (sym join) s

      split : All (Below (key_of e)) left × All (NotBelow (key_of e)) right
      split = search_split entries (key_of e) s

      over : All (IsOver e) left
      over = Below-IsOver left right e whole split.0

      under : All (IsUnder e) right
      under =
          NotBelow-IsUnder right e (IsSorted-right left right whole) split.1
            (scan_right left right (key_of e) (ap (λ l. scan l (key_of e)) join ∙ fresh))

  abbrev at_key : List (BnodeEntry V) → BnodeEntry V → Option Chunk → List (BnodeEntry V)
  at_key entries e key =
      take (search entries key) entries ++ (e ∷ drop (search entries key) entries)

  insert-at_key :
      (ok : Bool) (arr arr' : BsArray V) (e : BnodeEntry V)
      → insert ok arr e ≡ some arr'
      → arr'.entries ≡ at_key arr.entries e e.key
  unfolding insert
  insert-at_key ok arr arr' e h = ground arith

  -- An insertion fails exactly where the array is full and `realloc` fails.
  pub insert-none_iff :
      (ok : Bool) (arr : BsArray V) (e : BnodeEntry V)
      → (insert ok arr e ≡ none) ↔ ((ok ≡ false) × (arr.capacity ≤ length arr.entries))
  unfolding insert
  insert-none_iff true arr e = ground arith
  insert-none_iff false arr e = ground arith

  -- An insertion of a key that a sorted array does not hold, where it succeeds, leaves the array
  -- sorted; the new entry is found at its key, and at any other key what was found before.
  pub insert-IsSorted :
      (ok : Bool) (arr arr' : BsArray V) (e : BnodeEntry V)
      → IsSorted arr.entries
      → IsKeyed e
      → scan arr.entries (key_of e) ≡ none
      → insert ok arr e ≡ some arr'
      → IsSorted arr'.entries
        × ((k : Chunk)
            → scan arr'.entries k
              ≡ (if is_eq (lexicographic (key_of e) k) then some e else scan arr.entries k))
  insert-IsSorted ok arr arr' e s ke fresh h =
      let same : arr'.entries ≡ placed arr.entries e =
        insert-at_key ok arr arr' e h ∙ ap (at_key arr.entries e) ke.key in
      rw same (placed_sound arr.entries e s ke fresh)
