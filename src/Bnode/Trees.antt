-- ===== src/Bnode/Trees.antt =====
-- The entries of a tree from left to right, and the trees whose keys are in place.
use wave_db.Base.{
  ℕ, zero, suc, ◌≡◌, ◌∙◌, refl, sym, ap, Option, some, List, [], ◌∷◌, ◌++◌, All, All-append,
}
use wave_db.Chunk.{Chunk}
use wave_db.BsArray.Entry.{BnodeEntry}
use wave_db.BsArray.Sorted.{key_of}
use wave_db.Bnode.{Bnode}
use wave_db.Bnode.Order.{Less, Less-UpTo, IsTo}
use wave_db.Bnode.Nodes.{IsPast}
use wave_db.Bnode.Children.{All-IsTo-trans}
use wave_db.Bnode.Spans.{
  Before, From, Ends, Before-Less_trans, From-Before, IsSpan, IsSpan-before, IsSpan-IsPast,
  IsSpan-IsTo,
}
use mathlib.Core.List.{append_assoc}
use mathlib.Core.Path.{subst}

-- The entries below those of a list.
abbrev pub gather {ℓ} :
    {C V : Type ℓ} → (C → List (BnodeEntry V)) → List (BnodeEntry C) → List (BnodeEntry V)
gather f [] = []
gather f (e ∷ es) = f e.payload ++ gather f es

pub gather-append {ℓ} :
    {C V : Type ℓ} (f : C → List (BnodeEntry V)) (xs ys : List (BnodeEntry C))
    → gather f (xs ++ ys) ≡ gather f xs ++ gather f ys
gather-append f [] ys = refl
gather-append f (x ∷ xs) ys =
    ap (λ l. f x.payload ++ l) (gather-append f xs ys)
    ∙ sym (append_assoc (f x.payload) (gather f xs) (gather f ys))

module _ {ℓ} {C V : Type ℓ} (P : Chunk → Option Chunk → C → Type ℓ) (f : C → List (BnodeEntry V))
    (before : (lo : Chunk) (hi : Option Chunk) (c : C) → P lo hi c → Before lo hi) where
  pub gather-IsPast :
      (k : Chunk) (a b : Option Chunk) (es : List (BnodeEntry C))
      → ((lo : Chunk) (hi : Option Chunk) (c : C) → P lo hi c → Less k lo → All (IsPast k) (f c))
      → Before k a
      → IsSpan P a es b
      → All (IsPast k) (gather f es)
  gather-IsPast k a b [] under l h = tt
  gather-IsPast k a b (x ∷ xs) under l (next, at, entry, p, rest) =
      let below : Less k (key_of x) = subst (Before k) at l in
      let on =
        Before-Less_trans k (key_of x) next (Less-UpTo k (key_of x) below)
          (before (key_of x) next x.payload p) in
      All-append (IsPast k) (f x.payload) (gather f xs) (under (key_of x) next x.payload p below)
        (gather-IsPast k next b xs under on rest)

  pub gather-IsTo :
      (a : Option Chunk) (hi : Chunk) (es : List (BnodeEntry C))
      → ((lo m : Chunk) (c : C) → P lo (some m) c → All (IsTo m) (f c))
      → IsSpan P a es (some hi)
      → All (IsTo hi) (gather f es)
  gather-IsTo a hi [] under h = tt
  gather-IsTo a hi (x ∷ []) under (next, at, entry, p, rest) =
      All-append (IsTo hi) (f x.payload) []
        (under (key_of x) hi x.payload (subst (λ m. P (key_of x) m x.payload) rest.0 p)) tt
  gather-IsTo a hi (x ∷ y ∷ ys) under (next, at, entry, p, rest) =
      let first =
        under (key_of x) (key_of y) x.payload (subst (λ m. P (key_of x) m x.payload) rest.1 p) in
      let less : Less (key_of y) hi = IsSpan-before P before next (some hi) y ys rest in
      All-append (IsTo hi) (f x.payload) (gather f (y ∷ ys))
        (All-IsTo-trans (f x.payload) (key_of y) hi less first)
        (gather-IsTo next hi (y ∷ ys) under rest)

module _ {ℓ} (V : Type ℓ) where
  abbrev pub flatten : (l : ℕ) → Bnode V l → List (BnodeEntry V)
  flatten zero t = t
  flatten (suc l) t = gather (flatten l) t

  -- The keys of a tree are from lo up to hi; each separator is the lower bound of its child.
  abbrev pub IsTree : (l : ℕ) → Chunk → Option Chunk → Bnode V l → Type ℓ
  IsTree zero lo hi t = Before lo hi × (a : Option Chunk) × From lo a × IsSpan Ends a t hi
  IsTree (suc l) lo hi t = Before lo hi × IsSpan (IsTree l) (some lo) t hi

  pub IsTree-before :
      (l : ℕ) (lo : Chunk) (hi : Option Chunk) (t : Bnode V l) → IsTree l lo hi t → Before lo hi
  IsTree-before zero lo hi t h = h.0
  IsTree-before (suc l) lo hi t h = h.0

  pub flatten-IsPast :
      (l : ℕ) (k lo : Chunk) (hi : Option Chunk) (t : Bnode V l)
      → IsTree l lo hi t
      → Less k lo
      → All (IsPast k) (flatten l t)
  flatten-IsPast zero k lo hi t (b, a, from, span) less =
      IsSpan-IsPast Ends (λ lo hi c p. p.0) k a hi t (From-Before k lo a less from) span
  flatten-IsPast (suc l) k lo hi t (b, span) less =
      gather-IsPast (IsTree l) (flatten l) (IsTree-before l) k (some lo) hi t
        (λ lo hi c p less. flatten-IsPast l k lo hi c p less) less span

  pub flatten-IsTo :
      (l : ℕ) (lo hi : Chunk) (t : Bnode V l)
      → IsTree l lo (some hi) t
      → All (IsTo hi) (flatten l t)
  flatten-IsTo zero lo hi t (b, a, from, span) = IsSpan-IsTo Ends (λ lo hi c p. p.0) a hi t span
  flatten-IsTo (suc l) lo hi t (b, span) =
      gather-IsTo (IsTree l) (flatten l) (IsTree-before l) (some lo) hi t
        (λ lo m c p. flatten-IsTo l lo m c p) span
