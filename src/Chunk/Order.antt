-- ===== src/Chunk/Order.antt =====
-- `compare` is the lexicographic order of byte strings, a total order.
use wave_db.Base.{
  ℕ, ◌≡◌, ◌↔◌, refl, ap, Ordering, Option, none, some, List, [], ◌∷◌, ◌++◌, ltb, arith,
  if◌then◌else◌, length, take,
}
use wave_db.Chunk.{Chunk, compare_bytes, compare, inline_key_compare}

take-append : (a b : List ℕ) → take (length a) (a ++ b) ≡ a
take-append [] b = refl
take-append (x ∷ a) b = ap (λ l. x ∷ l) (take-append a b)

-- The order of byte strings, by recursion on both.
unfoldable pub lexicographic : List ℕ → List ℕ → Ordering
lexicographic [] [] = Ordering.eq
lexicographic [] (y ∷ b) = Ordering.lt
lexicographic (x ∷ a) [] = Ordering.gt
lexicographic (x ∷ a) (y ∷ b) =
    if ltb x y then Ordering.lt else if ltb y x then Ordering.gt else lexicographic a b

compare_bytes-lexicographic : (a b : List ℕ) → compare_bytes a b ≡ lexicographic a b
unfolding compare_bytes lexicographic
compare_bytes-lexicographic [] [] = refl
compare_bytes-lexicographic [] (y ∷ b) = ground arith
compare_bytes-lexicographic (x ∷ a) [] = ground arith
compare_bytes-lexicographic (x ∷ a) (y ∷ b) = ground (arith, compare_bytes-lexicographic a b)

-- `compare` of two chunks is the lexicographic order of their bytes, a proper prefix coming first.
pub compare-lexicographic : (a b : Chunk) → compare (some a) (some b) ≡ lexicographic a b
unfolding compare
compare-lexicographic a b = compare_bytes-lexicographic a b

pub lexicographic-eq_iff : (a b : List ℕ) → (lexicographic a b ≡ Ordering.eq) ↔ (a ≡ b)
unfolding lexicographic
lexicographic-eq_iff [] [] = ground arith
lexicographic-eq_iff [] (y ∷ b) = ground arith
lexicographic-eq_iff (x ∷ a) [] = ground arith
lexicographic-eq_iff (x ∷ a) (y ∷ b) = ground (arith, lexicographic-eq_iff a b)

pub lexicographic_refl : (a : List ℕ) → lexicographic a a ≡ Ordering.eq
lexicographic_refl a = (lexicographic-eq_iff a a).1 refl

abbrev pub flip : Ordering → Ordering
flip Ordering.lt = Ordering.gt
flip Ordering.eq = Ordering.eq
flip Ordering.gt = Ordering.lt

pub lexicographic-flip : (a b : List ℕ) → lexicographic b a ≡ flip (lexicographic a b)
unfolding lexicographic
lexicographic-flip [] [] = refl
lexicographic-flip [] (y ∷ b) = refl
lexicographic-flip (x ∷ a) [] = refl
lexicographic-flip (x ∷ a) (y ∷ b) = ground (arith, lexicographic-flip a b)

pub lexicographic_trans :
    (a b c : List ℕ)
    → lexicographic a b ≡ Ordering.lt
    → lexicographic b c ≡ Ordering.lt
    → lexicographic a c ≡ Ordering.lt
unfolding lexicographic
lexicographic_trans [] [] c h k = cc
lexicographic_trans [] (y ∷ b) [] h k = cc
lexicographic_trans [] (y ∷ b) (z ∷ c) h k = refl
lexicographic_trans (x ∷ a) [] c h k = cc
lexicographic_trans (x ∷ a) (y ∷ b) [] h k = cc
lexicographic_trans (x ∷ a) (y ∷ b) (z ∷ c) h k = ground (arith, lexicographic_trans a b c)

pub compare-eq_iff : (a b : Option Chunk) → (compare a b ≡ Ordering.eq) ↔ (a ≡ b)
unfolding compare
compare-eq_iff none none = ground arith
compare-eq_iff none (some b) = ground arith
compare-eq_iff (some a) none = ground arith
compare-eq_iff (some a) (some b) =
    ground (arith, compare_bytes-lexicographic a b, lexicographic-eq_iff a b)

pub compare-flip : (a b : Option Chunk) → compare b a ≡ flip (compare a b)
unfolding compare
compare-flip none none = refl
compare-flip none (some b) = refl
compare-flip (some a) none = refl
compare-flip (some a) (some b) =
    cc (compare_bytes-lexicographic a b, compare_bytes-lexicographic b a, lexicographic-flip a b)

pub compare_trans :
    (a b c : Option Chunk)
    → compare a b ≡ Ordering.lt
    → compare b c ≡ Ordering.lt
    → compare a c ≡ Ordering.lt
unfolding compare
compare_trans none none c h k = cc
compare_trans none (some b) none h k = cc
compare_trans none (some b) (some c) h k = refl
compare_trans (some a) none c h k = cc
compare_trans (some a) (some b) none h k = cc
compare_trans (some a) (some b) (some c) h k = ground (
  arith,
  compare_bytes-lexicographic a b,
  compare_bytes-lexicographic b c,
  compare_bytes-lexicographic a c,
  lexicographic_trans a b c,
)

-- `compare` of chunks and NULL pointers is a total order: it is `eq` only on equal arguments, it
-- turns round with its arguments, and it is transitive.
pub compare_total_order :
    (a b c : Option Chunk)
    → ((compare a b ≡ Ordering.eq) ↔ (a ≡ b))
      × (compare b a ≡ flip (compare a b))
      × (compare a b ≡ Ordering.lt → compare b c ≡ Ordering.lt → compare a c ≡ Ordering.lt)
compare_total_order a b c = (compare-eq_iff a b, compare-flip a b, compare_trans a b c)

-- What `inline_key_compare` says of a whole key, `compare` says of it.
pub inline_key_compare-compare :
    (key : Chunk) (chunk : Option Chunk) (spare : List ℕ)
    → inline_key_compare (some (key ++ spare)) (length key) chunk ≡ compare (some key) chunk
unfolding inline_key_compare compare
inline_key_compare-compare key chunk spare = rw (take-append key spare)
