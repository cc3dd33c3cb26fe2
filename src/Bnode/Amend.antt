-- ===== src/Bnode/Amend.antt =====
-- Entries of which the payload under one key is replaced.
use wave_db.Base.{
  ◌≡◌, ◌∙◌, refl, ap, inl, inr, Ordering, true, false, Bool-cases, Option, none, some, List, [],
  ◌∷◌, ◌++◌, arith, All, is_eq, if◌then◌else◌,
}
use wave_db.Chunk.{Chunk}
use wave_db.Chunk.Order.{lexicographic, lexicographic-eq_iff, lexicographic-flip, flip}
use wave_db.BsArray.Entry.{BnodeEntry}
use wave_db.BsArray.Sorted.{key_of, scan}
use wave_db.Bnode.Order.{IsTo}
use wave_db.Bnode.Nodes.{IsPast}
use mathlib.Core.Path.{subst}

pub is_eq→eq : (o : Ordering) → is_eq o ≡ true → o ≡ Ordering.eq
is_eq→eq Ordering.lt h = cc
is_eq→eq Ordering.eq h = refl
is_eq→eq Ordering.gt h = cc

apart :
    (e k other : Chunk)
    → is_eq (lexicographic e k) ≡ false
    → is_eq (lexicographic e other) ≡ true
    → is_eq (lexicographic k other) ≡ false
apart e k other differs same =
    let is = (lexicographic-eq_iff e other).0 (is_eq→eq (lexicographic e other) same) in
    subst (λ y. is_eq (lexicographic k y) ≡ false) is
      (ap is_eq (lexicographic-flip e k) ∙ flipped (lexicographic e k) differs)
  where
    flipped : (o : Ordering) → is_eq o ≡ false → is_eq (flip o) ≡ false
    flipped Ordering.lt h = refl
    flipped Ordering.eq h = cc
    flipped Ordering.gt h = refl

module _ {ℓ} {V : Type ℓ} where
  -- A payload that is found, after the write.
  abbrev pub rewritten : (V → V) → Option (BnodeEntry V) → Option (BnodeEntry V)
  rewritten f none = none
  rewritten f (some e) = some (record e { payload = f e.payload })

module _ {ℓ} (V : Type ℓ) where
  -- The entries with the payload of one key replaced.
  abbrev pub amend : List (BnodeEntry V) → Chunk → (V → V) → List (BnodeEntry V)
  amend [] k f = []
  amend (e ∷ es) k f =
      (if is_eq (lexicographic (key_of e) k) then record e { payload = f e.payload } else e)
      ∷ amend es k f

  pub amend_IsTo :
      (es : List (BnodeEntry V)) (k : Chunk) (f : V → V) → All (IsTo k) es → amend es k f ≡ es
  amend_IsTo [] k f h = refl
  amend_IsTo (e ∷ es) k f h = rw (h.0) (ap (λ l. e ∷ l) (amend_IsTo es k f h.1))

  pub amend-IsPast :
      (es : List (BnodeEntry V)) (k : Chunk) (f : V → V) → All (IsPast k) es → amend es k f ≡ es
  amend-IsPast [] k f h = refl
  amend-IsPast (e ∷ es) k f h =
      rw (lexicographic-flip k (key_of e), h.0) (ap (λ l. e ∷ l) (amend-IsPast es k f h.1))

  amend-append :
      (xs ys : List (BnodeEntry V)) (k : Chunk) (f : V → V)
      → amend (xs ++ ys) k f ≡ amend xs k f ++ amend ys k f
  amend-append [] ys k f = refl
  amend-append (x ∷ xs) ys k f =
      ap
        (λ l.
          (if is_eq (lexicographic (key_of x) k) then record x { payload = f x.payload } else x)
          ∷ l)
        (amend-append xs ys k f)

  pub amend_around :
      (xs es ys : List (BnodeEntry V)) (k : Chunk) (f : V → V)
      → All (IsTo k) xs
      → All (IsPast k) ys
      → amend (xs ++ (es ++ ys)) k f ≡ xs ++ (amend es k f ++ ys)
  amend_around xs es ys k f low past =
      amend-append xs (es ++ ys) k f
      ∙ ap (λ l. l ++ amend (es ++ ys) k f) (amend_IsTo xs k f low)
      ∙ ap (λ l. xs ++ l) (amend-append es ys k f)
      ∙ ap (λ l. xs ++ (amend es k f ++ l)) (amend-IsPast ys k f past)

  pub amended :
      (xs : List (BnodeEntry V)) (c : BnodeEntry V) (ys : List (BnodeEntry V)) (k : Chunk)
      (f : V → V)
      → All (IsTo k) xs
      → All (IsPast k) ys
      → key_of c ≡ k
      → amend (xs ++ (c ∷ ys)) k f ≡ xs ++ (record c { payload = f c.payload } ∷ ys)
  amended xs c ys k f low past same =
      amend_around xs (c ∷ []) ys k f low past
      ∙ ap (λ (d : BnodeEntry V). xs ++ (d ∷ ys))
          (ap (λ o. if is_eq o then record c { payload = f c.payload } else c)
            ((lexicographic-eq_iff (key_of c) k).1 same))

  pub scan-amend :
      (es : List (BnodeEntry V)) (k other : Chunk) (f : V → V)
      → scan (amend es k f) other
        ≡ (if is_eq (lexicographic k other) then rewritten f (scan es k) else scan es other)
  scan-amend [] k other f = ground arith
  scan-amend (e ∷ es) k other f = elim (Bool-cases (is_eq (lexicographic (key_of e) k))) [
    | inl same ↦
        let is : key_of e ≡ k =
          (lexicographic-eq_iff (key_of e) k).0 (is_eq→eq (lexicographic (key_of e) k) same) in
        let other_way : lexicographic (key_of e) other ≡ lexicographic k other =
          ap (λ a. lexicographic a other) is in
        rw (same, other_way) (ground (arith, scan-amend es k other f))
    | inr differs ↦
        rw differs (ground (arith, scan-amend es k other f, apart (key_of e) k other differs))
  ]

  pub amend-none :
      (es : List (BnodeEntry V)) (k : Chunk) (f : V → V) → scan es k ≡ none → amend es k f ≡ es
  amend-none [] k f h = refl
  amend-none (e ∷ es) k f h = elim (Bool-cases (is_eq (lexicographic (key_of e) k))) [
    | inl same ↦ absurd (ground (arith, same, h))
    | inr differs ↦ rw differs (ap (λ l. e ∷ l) (amend-none es k f (ground (arith, differs, h))))
  ]
