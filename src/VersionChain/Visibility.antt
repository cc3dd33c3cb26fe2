-- ===== src/VersionChain/Visibility.antt =====
-- What a reader sees of a version chain, against the chain read as a set of writes.
use wave_db.Base.{
  ◌≡◌, ◌∙◌, refl, Ordering, Bool, true, false, Option, none, some, List, [], ◌∷◌, arith, All,
  if◌then◌else◌,
}
use wave_db.TransactionId
use wave_db.TransactionId.{TransactionId, is_le, is_lt}
use wave_db.TransactionId.Order.{compare-flip}
use wave_db.VersionChain.{VersionEntry, create, walk_chain, find_visible, add}
use mathlib.Core.Path.{subst}
use mathlib.Core.Option.{some-injective}

module _ {ℓ} {V : Type ℓ} where
  -- The fast path is the slow path at the head.
  pub find_visible-walk_chain :
      (chain : List (VersionEntry V)) (r : TransactionId)
      → find_visible chain r ≡ walk_chain chain r
  unfolding find_visible walk_chain
  find_visible-walk_chain [] r = refl
  find_visible-walk_chain (v ∷ older) r = refl

  -- Newest first: each version is strictly above all that follow it.
  abbrev pub IsSorted : List (VersionEntry V) → Type 0
  IsSorted [] = Unit {0}
  IsSorted (v ∷ older) =
      All (λ w. TransactionId.compare w.txn_id v.txn_id ≡ Ordering.lt) older × IsSorted older

  -- Of two candidates, the one with the larger identifier.
  abbrev newer : VersionEntry V → Option (VersionEntry V) → VersionEntry V
  newer v none = v
  newer v (some w) = if is_lt (TransactionId.compare v.txn_id w.txn_id) then w else v

  -- The version with the largest identifier at or below `r`, in whatever order the chain is.
  abbrev pub latest : List (VersionEntry V) → TransactionId → Option (VersionEntry V)
  latest [] r = none
  latest (v ∷ older) r =
      let rest = latest older r in
      if is_le (TransactionId.compare v.txn_id r) then some (newer v rest) else rest

  -- A tombstone shows nothing.
  abbrev pub undeleted : Option (VersionEntry V) → Option (VersionEntry V)
  undeleted none = none
  undeleted (some v) = if v.is_deleted then none else some v

  abbrev IsUnder : VersionEntry V → Option (VersionEntry V) → Type 0
  IsUnder v none = Unit {0}
  IsUnder v (some w) = TransactionId.compare w.txn_id v.txn_id ≡ Ordering.lt

  newer-IsUnder :
      (v w : VersionEntry V) (o : Option (VersionEntry V)) (visible : Bool)
      → IsUnder v o
      → IsUnder v (some w)
      → IsUnder v (if visible then some (newer w o) else o)
  newer-IsUnder v w none true under first = first
  newer-IsUnder v w (some u) true under first = ground arith
  newer-IsUnder v w o false under first = under

  latest-IsUnder :
      (v : VersionEntry V) (older : List (VersionEntry V)) (r : TransactionId)
      → All (λ w. TransactionId.compare w.txn_id v.txn_id ≡ Ordering.lt) older
      → IsUnder v (latest older r)
  latest-IsUnder v [] r h = tt
  latest-IsUnder v (w ∷ older) r h =
      newer-IsUnder v w (latest older r) _ (latest-IsUnder v older r h.1) h.0

  newer_self : (v : VersionEntry V) (o : Option (VersionEntry V)) → IsUnder v o → newer v o ≡ v
  newer_self v none h = refl
  newer_self v (some w) h = rw (compare-flip w.txn_id v.txn_id, h)

  walk_chain-latest :
      (chain : List (VersionEntry V)) (r : TransactionId)
      → IsSorted chain
      → walk_chain chain r ≡ undeleted (latest chain r)
  unfolding walk_chain
  walk_chain-latest [] r h = refl
  walk_chain-latest (v ∷ older) r h = ground (
    arith,
    walk_chain-latest older r h.1,
    newer_self v (latest older r) (latest-IsUnder v older r h.0),
  )

  -- On a sorted chain the walk from the head finds the version that is the latest for the reader,
  -- and shows it unless it is a tombstone.
  pub find_visible-latest :
      (chain : List (VersionEntry V)) (r : TransactionId)
      → IsSorted chain
      → find_visible chain r ≡ undeleted (latest chain r)
  find_visible-latest chain r h = find_visible-walk_chain chain r ∙ walk_chain-latest chain r h

  pub find_visible-cons :
      (v : VersionEntry V) (chain : List (VersionEntry V)) (r : TransactionId)
      → find_visible (v ∷ chain) r ≡ (
          if is_le (TransactionId.compare v.txn_id r)
          then if v.is_deleted then none else some v
          else find_visible chain r)
  unfolding find_visible
  find_visible-cons v chain r = rw (← find_visible-walk_chain chain r)

  -- What a reader sees after a write: the write itself, or that the key is deleted, if the reader
  -- is at or past its identifier; what it saw before, if not.
  pub find_visible-add :
      (chain : List (VersionEntry V)) (id : TransactionId) (value : Option V) (is_deleted : Bool)
      (r : TransactionId) {chain' : List (VersionEntry V)}
      → add true chain id value is_deleted ≡ some chain'
      → find_visible chain' r ≡ (
          if is_le (TransactionId.compare id r)
          then if is_deleted then none else some (create id value is_deleted)
          else find_visible chain r)
  unfolding add
  find_visible-add chain id value is_deleted r e =
      cc (find_visible-cons (create id value is_deleted) chain r)

  -- A write above every version of a sorted chain keeps it sorted.
  pub add-IsSorted :
      (chain : List (VersionEntry V)) (id : TransactionId) (value : Option V) (is_deleted : Bool)
      {chain' : List (VersionEntry V)}
      → All (λ w. TransactionId.compare w.txn_id id ≡ Ordering.lt) chain
      → IsSorted chain
      → add true chain id value is_deleted ≡ some chain'
      → IsSorted chain'
  unfolding add
  add-IsSorted chain id value is_deleted h s e = subst IsSorted (some-injective _ _ e) (h, s)
