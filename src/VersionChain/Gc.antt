-- ===== src/VersionChain/Gc.antt =====
-- `version_entry_gc`: what it removes, and which readers it leaves as they were.
use wave_db.Base.{
  ◌≡◌, ◌⊎◌, inl, inr, refl, ap, sym, ◌∙◌, Bool, true, false, not, ◌&&◌, ◌||◌, none, List, [], ◌∷◌,
  ◌++◌, reverse, arith, All, All-append, if◌then◌else◌, length, length-append, Bool-cases,
}
use wave_db.TransactionId
use wave_db.TransactionId.{TransactionId, is_le, is_lt}
use wave_db.VersionChain.{VersionEntry, walk_chain, find_visible, sweep, gc}
use mathlib.Core.List.{reverse-append, reverse-reverse}
use mathlib.Core.Path.{subst}
use native.Mathlib.Numerals.{add-one}

module _ {ℓ} {V : Type ℓ} where
  abbrev pub IsOlder : TransactionId → VersionEntry V → Type 0
  IsOlder min_active v = is_lt (TransactionId.compare v.txn_id min_active) ≡ true

  -- The versions that the loop frees, oldest first.
  freed : List (VersionEntry V) → TransactionId → List (VersionEntry V)
  freed [] min_active = []
  freed (v ∷ newer) min_active =
      let rest = freed newer min_active in
      if is_lt (TransactionId.compare v.txn_id min_active) then v ∷ rest else []

  sweep-freed :
      (xs : List (VersionEntry V)) (m : TransactionId)
      → (xs ≡ freed xs m ++ (sweep xs m).0)
        × (length (freed xs m) ≡ (sweep xs m).1)
        × All (IsOlder m) (freed xs m)
  unfolding sweep freed
  sweep-freed [] m = (refl, refl, tt)
  sweep-freed (v ∷ newer) m = elim (Bool-cases (is_lt (TransactionId.compare v.txn_id m))) [
    | inl e ↦ rw e (let (p, q, h) = sweep-freed newer m in (ap (λ t. v ∷ t) p, omega arith, (e, h)))
    | inr e ↦ rw e (refl, refl, tt)
  ]

  All-reverse {κ} :
      (P : VersionEntry V → Type κ) (xs : List (VersionEntry V)) → All P xs → All P (reverse xs)
  All-reverse P [] h = h
  All-reverse P (x ∷ xs) h =
      rw (reverse-append (x ∷ []) xs)
        (All-append P (reverse xs) (x ∷ []) (All-reverse P xs h.1) (h.0, tt))

  length-reverse : (xs : List (VersionEntry V)) → length (reverse xs) ≡ length xs
  length-reverse [] = refl
  length-reverse (x ∷ xs) =
      rw (reverse-append (x ∷ []) xs)
        (omega (arith, length-append (reverse xs) (x ∷ []), length-reverse xs))

  -- The collected chain is the head and a front part of what followed it; what was freed lies
  -- wholly below `min_active`, and `gc` returns its length.
  pub gc_split :
      (newest : VersionEntry V) (older : List (VersionEntry V)) (m : TransactionId)
      → (kept : List (VersionEntry V)) × (gone : List (VersionEntry V)) × ((gc (newest ∷ older) m).0
          ≡ newest ∷ kept)
        × (older ≡ kept ++ gone)
        × ((gc (newest ∷ older) m).1 ≡ length gone)
        × All (IsOlder m) gone
  unfolding gc
  gc_split newest older m =
      let (p, q, h) = sweep-freed (reverse older) m in
      let ks = (sweep (reverse older) m).0 in
      let fs = freed (reverse older) m in
      (
        reverse ks,
        reverse fs,
        refl,
        sym (reverse-reverse older) ∙ ap reverse p ∙ reverse-append fs ks,
        sym q ∙ sym (length-reverse fs),
        All-reverse (IsOlder m) fs h,
      )

  -- Some version of the list is at or above `min_active` and at or below `r`.
  abbrev pub reaches : List (VersionEntry V) → TransactionId → TransactionId → Bool
  reaches [] m r = false
  reaches (v ∷ older) m r =
      (not (is_lt (TransactionId.compare v.txn_id m)) && is_le (TransactionId.compare v.txn_id r))
      || reaches older m r

  -- What is below `min_active` does not reach.
  pub reaches-append :
      (kept gone : List (VersionEntry V)) (m r : TransactionId)
      → All (IsOlder m) gone
      → reaches (kept ++ gone) m r ≡ reaches kept m r
  reaches-append [] [] m r h = refl
  reaches-append [] (v ∷ gone) m r h = rw (h.0) (reaches-append [] gone m r h.1)
  reaches-append (v ∷ kept) gone m r h = rw (reaches-append kept gone m r h)

  -- A walk that stops in front of `gone` does not see it.
  walk_chain-append :
      (kept gone : List (VersionEntry V)) (m r : TransactionId)
      → reaches kept m r ≡ true
      → walk_chain (kept ++ gone) r ≡ walk_chain kept r
  unfolding walk_chain
  walk_chain-append [] gone m r h = cc
  walk_chain-append (v ∷ kept) gone m r h = ground (arith, walk_chain-append kept gone m r)

  find_visible-kept :
      (newest : VersionEntry V) (kept gone : List (VersionEntry V)) (m r : TransactionId)
      → All (IsOlder m) gone
      → (is_le (TransactionId.compare newest.txn_id r) ≡ true) ⊎ (reaches (kept ++ gone) m r ≡ true)
      → find_visible (newest ∷ kept) r ≡ find_visible (newest ∷ kept ++ gone) r
  unfolding find_visible
  find_visible-kept newest kept gone m r h (inl head) = rw head
  find_visible-kept newest kept gone m r h (inr below) =
      rw (walk_chain-append kept gone m r (sym (reaches-append kept gone m r h) ∙ below))

  -- A collection changes nothing for a reader that sees the head, or for which a version stands
  -- between `min_active` and the reader.
  pub find_visible-gc :
      (newest : VersionEntry V) (older : List (VersionEntry V)) (m r : TransactionId)
      → (is_le (TransactionId.compare newest.txn_id r) ≡ true) ⊎ (reaches older m r ≡ true)
      → find_visible (gc (newest ∷ older) m).0 r ≡ find_visible (newest ∷ older) r
  find_visible-gc newest older m r seen =
      let (kept, gone, result, split, _, h) = gc_split newest older m in
      ap (λ c. find_visible c r) result
      ∙ find_visible-kept newest kept gone m r h (
          subst
            (λ l. (is_le (TransactionId.compare newest.txn_id r) ≡ true) ⊎ (reaches l m r ≡ true))
            split seen)
      ∙ ap (λ l. find_visible (newest ∷ l) r) (sym split)

  All-freed :
      (xs : List (VersionEntry V)) (m : TransactionId)
      → All (IsOlder m) xs
      → sweep xs m ≡ ([], length xs)
  unfolding sweep
  All-freed [] m h = refl
  All-freed (v ∷ xs) m h = rw (h.0, All-freed xs m h.1) (λ i. ([], add-one (length xs) i))

  -- The reader that a collection takes its version from: it is below the head, and every other
  -- version is below `min_active`. Afterwards it finds nothing, whatever it saw before.
  pub find_visible-gc_lost :
      (newest : VersionEntry V) (older : List (VersionEntry V)) (m r : TransactionId)
      → is_le (TransactionId.compare newest.txn_id r) ≡ false
      → All (IsOlder m) older
      → (gc (newest ∷ older) m ≡ (newest ∷ [], length older))
        × (find_visible (gc (newest ∷ older) m).0 r ≡ none)
  unfolding find_visible gc walk_chain
  find_visible-gc_lost newest older m r above h =
      let e = All-freed (reverse older) m (All-reverse (IsOlder m) older h) in
      (rw (e, length-reverse), rw (e, above))
