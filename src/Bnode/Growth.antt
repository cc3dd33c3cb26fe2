-- ===== src/Bnode/Growth.antt =====
-- What an insertion leaves of a node: the node, or two halves of it.
use wave_db.Base.{
  ℕ, zero, suc, ◌<◌, ◌≡◌, ◌∙◌, sym, ap, Option, none, some, List, [], ◌∷◌, ◌++◌, arith, length,
}
use wave_db.Chunk.{Chunk}
use wave_db.BsArray.Entry.{BnodeEntry}
use wave_db.BsArray.Sorted.{key_of}
use wave_db.Bnode.{Bnode, first_key}
use wave_db.Bnode.Order.{UpTo, UpTo-refl}
use wave_db.Bnode.Spans.{
  some-injective, Before, From, Ends, Before-Less_trans, IsSpan, IsSpan-before,
}
use wave_db.Bnode.Trees.{flatten, gather, gather-append, IsTree, IsTree-before}
use wave_db.Bnode.Splits.{IsSettled}
use mathlib.Core.Path.{subst}

module _ {ℓ} (V : Type ℓ) where
  -- A node of which the right half was split off at a key.
  pub record IsSplit (l : ℕ) (lo : Chunk) (hi : Option Chunk) (es : List (BnodeEntry V))
      (t : Bnode V l) (m : Chunk) (r : Bnode V l) : Type ℓ where
    pub f : Chunk
    pub named : first_key V l t ≡ some (some f)
    pub short_first : length f < 256
    pub start : UpTo lo f
    pub first : IsTree V l f (some m) t
    pub left : IsTree V l lo (some m) t
    pub right : IsTree V l m hi r
    pub short : length m < 256
    pub order : flatten V l t ++ flatten V l r ≡ es

  -- A node that holds some entries, split or not.
  abbrev pub IsGrown :
      (l : ℕ)
      → Chunk
      → Option Chunk
      → List (BnodeEntry V)
      → Bnode V l × Option (Chunk × Bnode V l)
      → Type ℓ
  IsGrown l lo hi es (t, none) = IsTree V l lo hi t × (flatten V l t ≡ es)
  IsGrown l lo hi es (t, some (m, r)) = IsSplit l lo hi es t m r

  ascends :
      {C : Type ℓ} (P : Chunk → Option Chunk → C → Type ℓ)
      (before : (lo : Chunk) (hi : Option Chunk) (c : C) → P lo hi c → Before lo hi) (m : Chunk)
      (hi : Option Chunk) (es : List (BnodeEntry C))
      → IsSpan P (some m) es hi
      → 0 < length es
      → Before m hi
  ascends P before m hi [] h p = absurd (omega (arith, p))
  ascends P before m hi (x ∷ es) h p =
      subst (λ a. Before a hi) (sym (some-injective m (key_of x) h.1))
        (IsSpan-before P before (some m) hi x es h)

  pub leaf-IsGrown :
      (lo : Chunk) (a hi : Option Chunk) (es : List (BnodeEntry V))
      (out : List (BnodeEntry V) × Option (Chunk × List (BnodeEntry V)))
      → Before lo hi
      → From lo a
      → IsSpan Ends a es hi
      → IsSettled Ends (λ lo hi c p. p.0) a hi es out
      → IsGrown zero lo hi es out
  leaf-IsGrown lo a hi es (t, none) b from span h =
      ((b, a, from, subst (λ l. IsSpan Ends a l hi) (sym h.0) span), h.0)
  leaf-IsGrown lo a hi es ([], some (m, r)) b from span
        (left, right, short, whole, some_left, some_right) =
      absurd (omega (arith, some_left))
  leaf-IsGrown lo a hi es (x ∷ t, some (m, r)) b from span
        (left, right, short, whole, some_left, some_right) =
      let start : UpTo lo (key_of x) = subst (From lo) left.1 from in
      let below = IsSpan-before Ends (λ lo hi c p. p.0) a (some m) x t left in
      record {
        f = key_of x;
        named = ap some left.2.key;
        short_first = left.2.short;
        start = start;
        first = (
          below,
          some (key_of x),
          UpTo-refl (key_of x),
          subst (λ y. IsSpan Ends y (x ∷ t) (some m)) left.1 left,
        );
        left = (Before-Less_trans lo (key_of x) (some m) start below, a, from, left);
        right =
            (ascends Ends (λ lo hi c p. p.0) m hi r right some_right, some m, UpTo-refl m, right);
        short = short;
        order = whole;
      }

  pub inner-IsGrown :
      (l : ℕ) (lo : Chunk) (hi : Option Chunk) (es : List (BnodeEntry (Bnode V l)))
      (out : List (BnodeEntry (Bnode V l)) × Option (Chunk × List (BnodeEntry (Bnode V l))))
      → Before lo hi
      → IsSpan (IsTree V l) (some lo) es hi
      → IsSettled (IsTree V l) (IsTree-before V l) (some lo) hi es out
      → IsGrown (suc l) lo hi (gather (flatten V l) es) out
  inner-IsGrown l lo hi es (t, none) b span h = (
    (b, subst (λ n. IsSpan (IsTree V l) (some lo) n hi) (sym h.0) span),
    ap (gather (flatten V l)) h.0,
  )
  inner-IsGrown l lo hi es ([], some (m, r)) b span
        (left, right, short, whole, some_left, some_right) =
      absurd (omega (arith, some_left))
  inner-IsGrown l lo hi es (x ∷ t, some (m, r)) b span
        (left, right, short, whole, some_left, some_right) =
      let tree : IsTree V (suc l) lo (some m) (x ∷ t) =
        (ascends (IsTree V l) (IsTree-before V l) lo (some m) (x ∷ t) left some_left, left) in
      record {
        f = lo;
        named = ap some (left.2.key ∙ sym left.1);
        short_first =
            subst (λ a. length a < 256) (sym (some-injective lo (key_of x) left.1)) left.2.short;
        start = UpTo-refl lo;
        first = tree;
        left = tree;
        right = (ascends (IsTree V l) (IsTree-before V l) m hi r right some_right, right);
        short = short;
        order = sym (gather-append (flatten V l) (x ∷ t) r) ∙ ap (gather (flatten V l)) whole;
      }
