-- ===== src/Bnode/Leaves.antt =====
-- The insertion of an entry into the span of a leaf.
use wave_db.Base.{◌≡◌, ◌⊎◌, ◌∙◌, refl, sym, inl, inr, Option, none, some, List, [], ◌∷◌}
use wave_db.Chunk.{Chunk}
use wave_db.BsArray.Entry.{BnodeEntry}
use wave_db.BsArray.Sorted.{key_of, scan}
use wave_db.Bnode.Order.{Less, Less-UpTo, trichotomy, sorted_insert}
use wave_db.Bnode.Nodes.{IsEntry, scan-same, scan-append-IsTo}
use wave_db.Bnode.Spans.{Before, Ends, IsSpan}
use mathlib.Core.Path.{subst}

module _ {ℓ} {V : Type ℓ} where
  -- The span of a leaf with one entry more.
  pub record Inserted (a b : Option Chunk) (e : BnodeEntry V) (es : List (BnodeEntry V))
      : Type ℓ where
    pub start : Option Chunk
    pub origin : (start ≡ a) ⊎ (start ≡ some (key_of e))
    pub span : IsSpan Ends start (sorted_insert e es) b

  Inserted-Before :
      (k : Chunk) (a b : Option Chunk) (e : BnodeEntry V) (es : List (BnodeEntry V))
      → (i : Inserted a b e es) → Before k a
      → Less k (key_of e)
      → Before k i.start
  Inserted-Before k a b e es i h l = elim (i.origin) [
    | inl same ↦ subst (Before k) (sym same) h
    | inr new ↦ subst (Before k) (sym new) l
  ]

  pub IsSpan-sorted_insert :
      (a b : Option Chunk) (e : BnodeEntry V) (es : List (BnodeEntry V))
      → IsSpan Ends a es b
      → IsEntry e
      → Before (key_of e) b
      → scan es (key_of e) ≡ none
      → Inserted a b e es
  unfolding sorted_insert
  IsSpan-sorted_insert a b e [] h entry l absent = record {
    start = some (key_of e);
    origin = inr refl;
    span = (b, refl, entry, (l, tt), (refl, tt));
  }
  IsSpan-sorted_insert a b e (x ∷ xs) (next, at, old, p, rest) entry l absent =
      elim (trichotomy (key_of x) (key_of e)) [
        | inl less ↦
            let i =
              IsSpan-sorted_insert next b e xs rest entry l
                (sym (scan-append-IsTo (x ∷ []) xs (key_of e) (less, tt)) ∙ absent) in
            record {
              start = a;
              origin = inl refl;
              span = rw less (
                i.start,
                at,
                old,
                (Inserted-Before (key_of x) next b e xs i p.0 less, tt),
                i.span,
              );
            }
        | inr (inl same) ↦ absurd (cc (scan-same x xs (key_of e) same, absent))
        | inr (inr more) ↦ record {
          start = some (key_of e);
          origin = inr refl;
          span =
              rw (Less-UpTo (key_of e) (key_of x) more)
                (some (key_of x), refl, entry, (more, tt), (next, refl, old, p, rest));
        }
      ]
