-- ===== src/Bnode/Order.antt =====
-- The order of keys, and the insertion into a sorted list.
use wave_db.Base.{
  ◌≡◌, ◌⊎◌, ◌∙◌, refl, sym, ap, inl, inr, Ordering, false, List, [], ◌∷◌, ◌++◌, arith,
  if◌then◌else◌, All, is_lt, Bool-cases,
}
use wave_db.Chunk.{Chunk}
use wave_db.Chunk.Order.{
  lexicographic, lexicographic-eq_iff, lexicographic-flip, lexicographic_trans, lexicographic_refl,
  flip,
}
use wave_db.BsArray.Entry.{BnodeEntry}
use wave_db.BsArray.Sorted.{key_of, is_lt→eq}
use mathlib.Core.Path.{subst}

-- Strictly below, and at most.
abbrev pub Less : Chunk → Chunk → Type 0
Less a b = lexicographic a b ≡ Ordering.lt

abbrev pub UpTo : Chunk → Chunk → Type 0
UpTo a b = is_lt (lexicographic b a) ≡ false

pub trichotomy : (a b : Chunk) → Less a b ⊎ ((a ≡ b) ⊎ Less b a)
trichotomy a b = elim (cases (lexicographic a b)) [
  | inl less ↦ inl less
  | inr (inl same) ↦ inr (inl ((lexicographic-eq_iff a b).0 same))
  | inr (inr more) ↦ inr (inr (lexicographic-flip a b ∙ ap flip more))
]
  where
    cases : (o : Ordering) → (o ≡ Ordering.lt) ⊎ ((o ≡ Ordering.eq) ⊎ (o ≡ Ordering.gt))
    cases Ordering.lt = inl refl
    cases Ordering.eq = inr (inl refl)
    cases Ordering.gt = inr (inr refl)

pub Less-trans : (a b c : Chunk) → Less a b → Less b c → Less a c
Less-trans a b c h k = lexicographic_trans a b c h k

pub Less-UpTo : (a b : Chunk) → Less a b → UpTo a b
Less-UpTo a b h = ap is_lt (lexicographic-flip a b ∙ ap flip h)

pub UpTo-refl : (a : Chunk) → UpTo a a
UpTo-refl a = ap is_lt (lexicographic_refl a)

-- Not both.
pub Less-not_UpTo {ℓ} : {A : Type ℓ} (a b : Chunk) → Less a b → UpTo b a → A
Less-not_UpTo a b h k = absurd (ground (arith, h, k))

pub UpTo-Less_trans : (a b c : Chunk) → UpTo a b → Less b c → Less a c
UpTo-Less_trans a b c h k = elim (trichotomy a b) [
  | inl less ↦ Less-trans a b c less k
  | inr (inl same) ↦ subst (λ x. Less x c) (sym same) k
  | inr (inr more) ↦ Less-not_UpTo b a more h
]

pub Less-UpTo_trans : (a b c : Chunk) → Less a b → UpTo b c → Less a c
Less-UpTo_trans a b c h k = elim (trichotomy b c) [
  | inl less ↦ Less-trans a b c h less
  | inr (inl same) ↦ subst (Less a) same h
  | inr (inr more) ↦ Less-not_UpTo c b more k
]

pub UpTo-trans : (a b c : Chunk) → UpTo a b → UpTo b c → UpTo a c
UpTo-trans a b c h k = elim (trichotomy a b) [
  | inl less ↦ Less-UpTo a c (Less-UpTo_trans a b c less k)
  | inr (inl same) ↦ subst (λ x. UpTo x c) (sym same) k
  | inr (inr more) ↦ Less-not_UpTo b a more h
]

-- At most, or strictly above.
pub UpTo-cases : (a b : Chunk) → UpTo a b ⊎ Less b a
UpTo-cases a b = elim (Bool-cases (is_lt (lexicographic b a))) [
  | inl below ↦ inr (is_lt→eq (lexicographic b a) below)
  | inr above ↦ inl above
]

module _ {ℓ} {V : Type ℓ} where
  -- An entry is at or above a key, and below one.
  abbrev pub IsFrom : Chunk → BnodeEntry V → Type 0
  IsFrom lo e = UpTo lo (key_of e)

  abbrev pub IsTo : Chunk → BnodeEntry V → Type 0
  IsTo hi e = Less (key_of e) hi

  -- The insertion of an entry in front of the first key that is not below its own.
  unfoldable pub sorted_insert : BnodeEntry V → List (BnodeEntry V) → List (BnodeEntry V)
  sorted_insert e [] = e ∷ []
  sorted_insert e (x ∷ xs) =
      let rest = x ∷ sorted_insert e xs in
      if is_lt (lexicographic (key_of x) (key_of e)) then rest else e ∷ x ∷ xs

  -- Behind smaller keys, and in front of the others.
  pub sorted_insert_right :
      (e : BnodeEntry V) (xs ys : List (BnodeEntry V))
      → All (IsTo (key_of e)) xs
      → sorted_insert e (xs ++ ys) ≡ xs ++ sorted_insert e ys
  unfolding sorted_insert
  sorted_insert_right e [] ys h = refl
  sorted_insert_right e (x ∷ xs) ys h = rw (h.0) (ap (λ l. x ∷ l) (sorted_insert_right e xs ys h.1))

  pub sorted_insert_front :
      (e : BnodeEntry V) (ys : List (BnodeEntry V))
      → All (IsFrom (key_of e)) ys
      → sorted_insert e ys ≡ e ∷ ys
  unfolding sorted_insert
  sorted_insert_front e [] h = refl
  sorted_insert_front e (y ∷ ys) h = rw (h.0) refl

  pub sorted_insert_left :
      (e : BnodeEntry V) (xs ys : List (BnodeEntry V))
      → All (IsFrom (key_of e)) ys
      → sorted_insert e (xs ++ ys) ≡ sorted_insert e xs ++ ys
  unfolding sorted_insert
  sorted_insert_left e [] ys h = sorted_insert_front e ys h
  sorted_insert_left e (x ∷ xs) ys h =
      elim (Bool-cases (is_lt (lexicographic (key_of x) (key_of e)))) [
        | inl t ↦ rw t (ap (λ l. x ∷ l) (sorted_insert_left e xs ys h))
        | inr t ↦ rw t refl
      ]

  pub All-sorted_insert {κ} :
      (P : BnodeEntry V → Type κ) (e : BnodeEntry V) (xs : List (BnodeEntry V))
      → P e
      → All P xs
      → All P (sorted_insert e xs)
  unfolding sorted_insert
  All-sorted_insert P e [] p h = (p, tt)
  All-sorted_insert P e (x ∷ xs) p h =
      elim (Bool-cases (is_lt (lexicographic (key_of x) (key_of e)))) [
        | inl t ↦ rw t (h.0, All-sorted_insert P e xs p h.1)
        | inr t ↦ rw t (p, h)
      ]
