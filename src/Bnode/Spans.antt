-- ===== src/Bnode/Spans.antt =====
-- Lists of entries that span a range of keys, each entry up to the key of the next.
use wave_db.Base.{◌≡◌, ◌⊎◌, refl, sym, ap, inl, inr, Option, none, some, List, [], ◌∷◌, ◌++◌, All}
use wave_db.Chunk.{Chunk}
use wave_db.BsArray.Entry.{BnodeEntry}
use wave_db.BsArray.Sorted.{key_of, IsSorted}
use wave_db.Bnode.Order.{
  Less, UpTo, Less-trans, Less-UpTo, Less-UpTo_trans, UpTo-Less_trans, Less-not_UpTo, UpTo-cases,
  IsTo,
}
use wave_db.Bnode.Nodes.{IsEntry, IsEntry-IsKeyed, IsPast}
use mathlib.Core.Path.{subst}

-- Below an upper end of a range, which may be open.
abbrev pub Before : Chunk → Option Chunk → Type 0
Before k none = Unit
Before k (some hi) = Less k hi

abbrev pub From : Chunk → Option Chunk → Type 0
From lo none = Unit
From lo (some a) = UpTo lo a

pub Before-Less_trans : (a b : Chunk) (hi : Option Chunk) → UpTo a b → Before b hi → Before a hi
Before-Less_trans a b none h k = tt
Before-Less_trans a b (some hi) h k = UpTo-Less_trans a b hi h k

pub From-Before : (k lo : Chunk) (a : Option Chunk) → Less k lo → From lo a → Before k a
From-Before k lo none h f = tt
From-Before k lo (some a) h f = Less-UpTo_trans k lo a h f

-- Below the end, or an end that is at most the key.
pub Before-cases :
    (k : Chunk) (hi : Option Chunk) → Before k hi ⊎ ((m : Chunk) × (hi ≡ some m) × UpTo m k)
Before-cases k none = inl tt
Before-cases k (some m) = elim (UpTo-cases m k) [ inl up ↦ inr (m, refl, up) | inr less ↦ inl less ]

-- A payload says nothing more.
abbrev pub Ends {ℓ} : {C : Type ℓ} → Chunk → Option Chunk → C → Type ℓ
Ends lo hi c = Before lo hi × Unit {ℓ}

pub some-injective : (a b : Chunk) → some a ≡ some b → a ≡ b
some-injective a b h = cc

module _ {ℓ} {C : Type ℓ} (P : Chunk → Option Chunk → C → Type ℓ) where
  -- The entries start at a, each payload is as it should be between its key and that of the next
  -- entry, and the last one ends at b.
  abbrev pub IsSpan : Option Chunk → List (BnodeEntry C) → Option Chunk → Type ℓ
  IsSpan a [] b = (a ≡ b) × Unit {ℓ}
  IsSpan a (e ∷ es) b =
      (next : Option Chunk) × (a ≡ some (key_of e))
      × IsEntry e
      × P (key_of e) next e.payload
      × IsSpan next es b

  module _ (before : (lo : Chunk) (hi : Option Chunk) (c : C) → P lo hi c → Before lo hi) where
    pub IsSpan-join :
        (a m b : Option Chunk) (xs ys : List (BnodeEntry C))
        → IsSpan a xs m
        → IsSpan m ys b
        → IsSpan a (xs ++ ys) b
    IsSpan-join a m b [] ys h k = subst (λ x. IsSpan x ys b) (sym h.0) k
    IsSpan-join a m b (x ∷ xs) ys (next, at, entry, p, rest) k =
        (next, at, entry, p, IsSpan-join next m b xs ys rest k)

    pub IsSpan-part :
        (a b : Option Chunk) (xs ys : List (BnodeEntry C))
        → IsSpan a (xs ++ ys) b
        → (m : Option Chunk) × IsSpan a xs m × IsSpan m ys b
    IsSpan-part a b [] ys h = (a, (refl, tt), h)
    IsSpan-part a b (x ∷ xs) ys (next, at, entry, p, rest) =
        let (m, left, right) = IsSpan-part next b xs ys rest in
        (m, (next, at, entry, p, left), right)

    All-IsPast-trans :
        (a b : Chunk) (xs : List (BnodeEntry C)) → Less a b → All (IsPast b) xs → All (IsPast a) xs
    All-IsPast-trans a b [] l h = tt
    All-IsPast-trans a b (x ∷ xs) l h =
        (Less-trans a b (key_of x) l h.0, All-IsPast-trans a b xs l h.1)

    -- All keys are above what is below the start.
    pub IsSpan-IsPast :
        (k : Chunk) (a b : Option Chunk) (xs : List (BnodeEntry C))
        → Before k a
        → IsSpan a xs b
        → All (IsPast k) xs
    IsSpan-IsPast k a b [] l h = tt
    IsSpan-IsPast k a b (x ∷ xs) l (next, at, entry, p, rest) =
        let below : Less k (key_of x) = subst (Before k) at l in
        let further =
          IsSpan-IsPast (key_of x) next b xs (before (key_of x) next x.payload p) rest in
        (below, All-IsPast-trans k (key_of x) xs below further)

    pub IsSpan-before :
        (a b : Option Chunk) (x : BnodeEntry C) (xs : List (BnodeEntry C))
        → IsSpan a (x ∷ xs) b
        → Before (key_of x) b
    IsSpan-before a b x [] (next, at, entry, p, rest) =
        subst (Before (key_of x)) rest.0 (before (key_of x) next x.payload p)
    IsSpan-before a b x (y ∷ ys) (next, at, entry, p, rest) =
        let step : Less (key_of x) (key_of y) =
          subst (Before (key_of x)) rest.1 (before (key_of x) next x.payload p) in
        Before-Less_trans (key_of x) (key_of y) b (Less-UpTo (key_of x) (key_of y) step)
          (IsSpan-before next b y ys rest)

    -- All keys are below the end.
    pub IsSpan-IsTo :
        (a : Option Chunk) (hi : Chunk) (xs : List (BnodeEntry C))
        → IsSpan a xs (some hi)
        → All (IsTo hi) xs
    IsSpan-IsTo a hi [] h = tt
    IsSpan-IsTo a hi (x ∷ xs) h = (IsSpan-before a (some hi) x xs h, IsSpan-IsTo h.0 hi xs h.4)

    pub IsSpan-IsSorted :
        (a b : Option Chunk) (xs : List (BnodeEntry C)) → IsSpan a xs b → IsSorted xs
    IsSpan-IsSorted a b [] h = tt
    IsSpan-IsSorted a b (x ∷ xs) (next, at, entry, p, rest) = (
      IsEntry-IsKeyed x entry,
      IsSpan-IsPast (key_of x) next b xs (before (key_of x) next x.payload p) rest,
      IsSpan-IsSorted next b xs rest,
    )

    -- A span of subtrees is one of keys.
    pub IsSpan-Ends :
        (a b : Option Chunk) (es : List (BnodeEntry C))
        → IsSpan a es b
        → wave_db.Bnode.Spans.IsSpan Ends a es b
    IsSpan-Ends a b [] h = h
    IsSpan-Ends a b (x ∷ xs) (next, at, entry, p, rest) =
        (next, at, entry, (before (key_of x) next x.payload p, tt), IsSpan-Ends next b xs rest)

    -- The place of a key: the last entry whose key is not above it.
    pub record Place (lo : Chunk) (hi : Option Chunk) (es : List (BnodeEntry C)) (k : Chunk)
        : Type ℓ where
      pub xs : List (BnodeEntry C)
      pub c : BnodeEntry C
      pub ys : List (BnodeEntry C)
      pub next : Option Chunk
      pub whole : xs ++ (c ∷ ys) ≡ es
      pub left : IsSpan (some lo) xs (some (key_of c))
      pub entry : IsEntry c
      pub child : P (key_of c) next c.payload
      pub right : IsSpan next ys hi
      pub start : UpTo (key_of c) k
      pub end : Before k next

    pub IsSpan-Place :
        (lo : Chunk) (hi : Option Chunk) (es : List (BnodeEntry C)) (k : Chunk)
        → IsSpan (some lo) es hi
        → UpTo lo k
        → Before k hi
        → Place lo hi es k
    IsSpan-Place lo hi [] k h l b = Less-not_UpTo k lo (subst (Before k) (sym h.0) b) l
    IsSpan-Place lo hi (e ∷ es) k (next, at, entry, p, rest) l b = elim (Before-cases k next) [
      | inl here ↦ record {
        xs = [];
        c = e;
        ys = es;
        next = next;
        whole = refl;
        left = (at, tt);
        entry = entry;
        child = p;
        right = rest;
        start = subst (λ a. UpTo a k) (some-injective lo (key_of e) at) l;
        end = here;
      }
      | inr (m, is, up) ↦
          let further = IsSpan-Place m hi es k (subst (λ a. IsSpan a es hi) is rest) up b in
          record {
            xs = e ∷ further.xs;
            c = further.c;
            ys = further.ys;
            next = further.next;
            whole = ap (λ l. e ∷ l) further.whole;
            left = (
              next,
              at,
              entry,
              p,
              subst (λ a. IsSpan a further.xs (some (key_of further.c))) (sym is) further.left,
            );
            entry = further.entry;
            child = further.child;
            right = further.right;
            start = further.start;
            end = further.end;
          }
    ]
