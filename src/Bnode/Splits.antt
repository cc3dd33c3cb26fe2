-- ===== src/Bnode/Splits.antt =====
-- The split of a node: both halves hold what the node held, in order.
use wave_db.Base.{
  ℕ, zero, suc, ◌/◌, ◌<◌, ◌≡◌, ◌∙◌, refl, sym, ap, inl, inr, ◌⊎◌, Option, none, some, List, [], ◌∷◌,
  ◌++◌, arith, ltb, length, take, drop, get_elem?, Bool-cases, take-append-drop,
}
use wave_db.Chunk.{Chunk}
use wave_db.BsArray.Entry.{BnodeEntry, set_key}
use wave_db.BsArray.Sorted.{key_of}
use wave_db.Bnode.{
  Sizes, bnode_insert, moved, move_loop, halves, key_at, bnode_split, bnode_needs_split, settle,
}
use wave_db.Bnode.Order.{sorted_insert, sorted_insert_right}
use wave_db.Bnode.Nodes.{IsEntry, bnode_insert-sorted_insert}
use wave_db.Bnode.Spans.{
  Before, Ends, IsSpan-Ends, IsSpan, IsSpan-join, IsSpan-part, IsSpan-IsTo, IsSpan-IsSorted,
}
use mathlib.Core.List.{append_assoc, append-nil}
use mathlib.Core.Path.{subst}

module _ {ℓ} {C : Type ℓ} where
  moved_same : (e : BnodeEntry C) → IsEntry e → moved e ≡ e
  moved_same e h = ap (set_key e) h.key ∙ h.same

  -- The loop of the split appends the entries one by one.
  pub move_loop-append :
      (a m b : Option Chunk) (right es : List (BnodeEntry C))
      → IsSpan Ends a right m
      → IsSpan Ends m es b
      → move_loop right es ≡ right ++ es
  unfolding move_loop sorted_insert
  move_loop-append a m b right [] r h = sym (append-nil right)
  move_loop-append a m b right (e ∷ es) r (next, at, entry, p, rest) =
      let behind = subst (λ x. IsSpan Ends a right x) at r in
      let placed : bnode_insert right (moved e) ≡ right ++ (e ∷ []) =
        ap (bnode_insert right) (moved_same e entry)
        ∙ bnode_insert-sorted_insert right e (IsSpan-IsSorted Ends (λ lo hi c p. p.0) a m right r)
            entry
        ∙ ap (sorted_insert e) (sym (append-nil right))
        ∙ sorted_insert_right e right []
            (IsSpan-IsTo Ends (λ lo hi c p. p.0) a (key_of e) right behind) in
      let longer =
        IsSpan-join Ends (λ lo hi c p. p.0) a m next right (e ∷ []) r
          (next, at, entry, p, (refl, tt)) in
      ap (λ l. move_loop l es) placed
      ∙ move_loop-append a next b (right ++ (e ∷ [])) es longer rest
      ∙ append_assoc right (e ∷ []) es

  pub record At (es : List (BnodeEntry C)) (n : ℕ) : Type ℓ where
    pub x : BnodeEntry C
    pub xs : List (BnodeEntry C)
    pub rest : drop n es ≡ x ∷ xs
    pub there : get_elem? es n ≡ some x

  length-take_positive :
      (es : List (BnodeEntry C)) (n : ℕ) → 0 < n → n < length es → 0 < length (take n es)
  length-take_positive [] n p h = absurd (omega (arith, h))
  length-take_positive (e ∷ es) zero p h = absurd (omega (arith, p))
  length-take_positive (e ∷ es) (suc n) p h = omega arith

  at : (es : List (BnodeEntry C)) (n : ℕ) → n < length es → At es n
  at [] n h = absurd (omega (arith, h))
  at (e ∷ es) zero h = record { x = e; xs = es; rest = refl; there = refl }
  at (e ∷ es) (suc n) h =
      let a = at es n (omega (arith, h)) in
      record { x = a.x; xs = a.xs; rest = a.rest; there = a.there }

module _ {ℓ} {C : Type ℓ} (P : Chunk → Option Chunk → C → Type ℓ)
    (before : (lo : Chunk) (hi : Option Chunk) (c : C) → P lo hi c → Before lo hi) where
  -- What `settle` leaves of a node: the node, or two halves of it that meet at a key.
  abbrev pub IsSettled :
      Option Chunk
      → Option Chunk
      → List (BnodeEntry C)
      → List (BnodeEntry C) × Option (Chunk × List (BnodeEntry C))
      → Type ℓ
  IsSettled a b es (node, none) = node ≡ es × Unit {ℓ}
  IsSettled a b es (node, some (m, right)) =
      IsSpan P a node (some m)
      × IsSpan P (some m) right b
      × (length m < 256)
      × (node ++ right ≡ es)
      × (0 < length node)
      × (0 < length right)

  halves-IsSettled :
      (a b : Option Chunk) (es : List (BnodeEntry C)) (mid : ℕ)
      → IsSpan P a es b
      → 0 < mid
      → mid < length es
      → (m : Chunk) × (halves es mid (key_at es mid) ≡ some (take mid es, m, drop mid es))
        × IsSettled a b es (take mid es, some (m, drop mid es))
  unfolding halves key_at
  halves-IsSettled a b es mid span positive inside =
      let (m, left, right) =
        IsSpan-part P before a b (take mid es) (drop mid es)
          (subst (λ l. IsSpan P a l b) (sym (take-append-drop mid es)) span) in
      let p = at es mid inside in
      let (next, start, entry, child, further) = subst (λ l. IsSpan P m l b) p.rest right in
      let key : key_at es mid ≡ some (key_of p.x) = rw (p.there, key_at) entry.key in
      let moving : move_loop [] (drop mid es) ≡ drop mid es =
        move_loop-append m m b [] (drop mid es) (refl, tt)
          (IsSpan-Ends P before m b (drop mid es) right) in
      (
        key_of p.x,
        ap (halves es mid) key ∙ ap (λ l. some (take mid es, key_of p.x, l)) moving,
        (
          subst (λ x. IsSpan P a (take mid es) x) start left,
          subst (λ x. IsSpan P x (drop mid es) b) start right,
          entry.short,
          take-append-drop mid es,
          length-take_positive es mid positive inside,
          subst (λ l. 0 < length l) (sym p.rest) (omega arith),
        ),
      )

  pub bnode_split-IsSettled :
      (a b : Option Chunk) (es : List (BnodeEntry C))
      → IsSpan P a es b
      → (bnode_split es ≡ none)
        ⊎ ((left : List (BnodeEntry C)) × (m : Chunk) × (right : List (BnodeEntry C)) × (bnode_split
                es
              ≡ some (left, m, right))
            × IsSettled a b es (left, some (m, right)))
  unfolding bnode_split
  bnode_split-IsSettled a b es span = elim (Bool-cases (ltb (length es) 4)) [
    | inl few ↦ inl (rw few refl)
    | inr many ↦
        let (m, is, settled) =
          halves-IsSettled a b es (length es / 2) span (ground (arith, many))
            (ground (arith, many)) in
        inr (take (length es / 2) es, m, drop (length es / 2) es, rw many is, settled)
  ]

  -- What stays of a node after an insertion spans what the node did.
  pub settle-IsSettled :
      (sizes : Sizes) (a b : Option Chunk) (es : List (BnodeEntry C))
      → IsSpan P a es b
      → IsSettled a b es (settle sizes es)
  unfolding settle
  settle-IsSettled sizes a b es span = elim (Bool-cases (bnode_needs_split sizes es)) [
    | inr small ↦ rw small (refl, tt)
    | inl large ↦ elim (bnode_split-IsSettled a b es span) [
      | inl refused ↦ rw (large, refused) (refl, tt)
      | inr (left, m, right, is, settled) ↦ rw (large, is) settled
    ]
  ]
