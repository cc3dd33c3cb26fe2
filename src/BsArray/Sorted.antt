-- ===== src/BsArray/Sorted.antt =====
-- Sorted arrays: the search splits them, and `bs_array_find` agrees with a linear scan.
use wave_db.Base.{
  ℕ, zero, suc, ◌≤◌, ◌<◌, ◌≡◌, ◌∙◌, refl, sym, Ordering, true, false, Option, none, some, List, [],
  ◌∷◌, arith, ltb, if◌then◌else◌, length, take, drop, get_elem?, All, is_lt, is_eq,
}
use wave_db.Chunk.{Chunk}
use wave_db.Chunk.Order.{lexicographic, lexicographic_trans, compare-lexicographic}
use wave_db.BsArray.{cmp_at, search}
use wave_db.BsArray.Entry.{BnodeEntry, entry_cmp, set_key, entry_cmp-set_key}
use wave_db.BsArray.Search.{IsBelow, IsPartitioned, search_bound}

pub is_lt→eq : (o : Ordering) → is_lt o ≡ true → o ≡ Ordering.lt
is_lt→eq Ordering.lt h = refl
is_lt→eq Ordering.eq h = cc
is_lt→eq Ordering.gt h = cc

module _ {ℓ} {V : Type ℓ} where
  -- The bytes of an entry's key.
  abbrev pub key_of : BnodeEntry V → Chunk
  key_of e = elim e.key [ none ↦ [] | some k ↦ k ]

  -- The entry has a key, and its inline bytes compare as the key does.
  pub record IsKeyed (e : BnodeEntry V) : Type 0 where
    pub key : e.key ≡ some (key_of e)
    pub cmp : (other : Chunk) → entry_cmp e (some other) ≡ lexicographic (key_of e) other

  -- An entry made by `bnode_entry_set_key`, of a key of at most 255 bytes, is keyed.
  pub set_key-IsKeyed :
      (e : BnodeEntry V) (k : Chunk) → length k < 256 → IsKeyed (set_key e (some k))
  unfolding set_key
  set_key-IsKeyed e k h = record {
    key = refl;
    cmp = λ other. entry_cmp-set_key e k (some other) h ∙ compare-lexicographic k other;
  }

  abbrev pub IsUnder : BnodeEntry V → BnodeEntry V → Type 0
  IsUnder e f = lexicographic (key_of e) (key_of f) ≡ Ordering.lt

  -- Keys strictly ascend.
  abbrev pub IsSorted : List (BnodeEntry V) → Type ℓ
  IsSorted [] = Unit
  IsSorted (e ∷ entries) = IsKeyed e × All (IsUnder e) entries × IsSorted entries

  head_below :
      (e : BnodeEntry V) (entries : List (BnodeEntry V)) (k : Chunk) (j : ℕ)
      → IsKeyed e
      → All (IsUnder e) entries
      → IsSorted entries
      → j < length entries
      → IsBelow entries (some k) j
      → is_lt (entry_cmp e (some k)) ≡ true
  head_below e [] k j ke h s inside below = absurd (omega arith)
  head_below e (f ∷ entries) k zero ke h s inside below =
      rw
        (
          ke.cmp k,
          lexicographic_trans (key_of e) (key_of f) k h.0 (sym (s.0.cmp k) ∙ is_lt→eq _ below),
        )
        refl
  head_below e (f ∷ entries) k (suc j) ke h s inside below =
      head_below e entries k j ke h.1 s.2 (omega arith) below

  pub IsSorted-IsPartitioned :
      (entries : List (BnodeEntry V)) (k : Chunk)
      → IsSorted entries
      → IsPartitioned entries (some k)
  IsSorted-IsPartitioned [] k s i j less inside below = absurd (omega arith)
  IsSorted-IsPartitioned (e ∷ entries) k s i zero less inside below = absurd (omega arith)
  IsSorted-IsPartitioned (e ∷ entries) k s zero (suc j) less inside below =
      head_below e entries k j s.0 s.1 s.2 (omega arith) below
  IsSorted-IsPartitioned (e ∷ entries) k s (suc i) (suc j) less inside below =
      IsSorted-IsPartitioned entries k s.2 i j (omega arith) (omega arith) below

  abbrev pub Below : Chunk → BnodeEntry V → Type 0
  Below k e = is_lt (entry_cmp e (some k)) ≡ true

  abbrev pub NotBelow : Chunk → BnodeEntry V → Type 0
  NotBelow k e = is_lt (entry_cmp e (some k)) ≡ false

  All-take :
      (entries : List (BnodeEntry V)) (n : ℕ) (k : Chunk)
      → ((i : ℕ) → i < n → i < length entries → IsBelow entries (some k) i)
      → All (Below k) (take n entries)
  All-take entries zero k h = tt
  All-take [] (suc n) k h = tt
  All-take (e ∷ entries) (suc n) k h = (
    h 0 (omega arith) (omega arith),
    All-take entries n k (λ i p q. h (suc i) (omega arith) (omega arith)),
  )

  All-drop :
      (entries : List (BnodeEntry V)) (n : ℕ) (k : Chunk)
      → ((i : ℕ) → n ≤ i → i < length entries → is_lt (cmp_at entries i (some k)) ≡ false)
      → All (NotBelow k) (drop n entries)
  All-drop [] zero k h = tt
  All-drop [] (suc n) k h = tt
  All-drop (e ∷ entries) zero k h = (
    h 0 (omega arith) (omega arith),
    All-drop entries zero k (λ i p q. h (suc i) (omega arith) (omega arith)),
  )
  All-drop (e ∷ entries) (suc n) k h =
      All-drop entries n k (λ i p q. h (suc i) (omega arith) (omega arith))

  -- The search splits a sorted array into the entries below the key and the rest.
  pub search_split :
      (entries : List (BnodeEntry V)) (k : Chunk)
      → IsSorted entries
      → All (Below k) (take (search entries (some k)) entries)
        × All (NotBelow k) (drop (search entries (some k)) entries)
  search_split entries k s =
      let (_, below, above) = search_bound entries (some k) (IsSorted-IsPartitioned entries k s) in
      (All-take entries _ k (λ i p q. below i p), All-drop entries _ k above)

  -- Linear scan for the entry with a key.
  abbrev pub scan : List (BnodeEntry V) → Chunk → Option (BnodeEntry V)
  scan [] k = none
  scan (e ∷ entries) k =
      let rest = scan entries k in if is_eq (lexicographic (key_of e) k) then some e else rest

  abbrev pub front : List (BnodeEntry V) → Chunk → Option (BnodeEntry V)
  front [] k = none
  front (e ∷ entries) k = if is_eq (entry_cmp e (some k)) then some e else none

  pub found_at :
      (n : ℕ) (entries : List (BnodeEntry V)) (k : Chunk)
      → (if ltb n (length entries)
          then if is_eq (cmp_at entries n (some k)) then get_elem? entries n else none
          else none)
        ≡ front (drop n entries) k
  found_at zero [] k = refl
  found_at (suc n) [] k = ground arith
  found_at zero (e ∷ entries) k = ground arith
  found_at (suc n) (e ∷ entries) k = ground (arith, found_at n entries k)
