-- ===== src/VersionChain.antt =====
-- src/HBTrie/bnode.c: the version chain of a leaf entry. The doubly linked list is a list, the
-- newest version (the head that the entry points to) first.
pub mod Visibility
pub mod Gc
use wave_db.Base.{ℕ, ◌+◌, Bool, true, false, Option, none, some, List, [], ◌∷◌, ◌++◌, reverse}
use wave_db.Base.{if◌then◌else◌}
use wave_db.TransactionId
use wave_db.TransactionId.{TransactionId, is_le, is_lt}

-- `version_entry_t`. A value is an identifier, of the type `V` here; NULL is `none`.
pub record VersionEntry {ℓ} (V : Type ℓ) : Type ℓ where
  pub txn_id : TransactionId
  pub value : Option V
  pub is_deleted : Bool

module _ {ℓ} {V : Type ℓ} where
  -- `version_entry_create`, where the pool has memory.
  abbrev pub create : TransactionId → Option V → Bool → VersionEntry V
  create txn_id value is_deleted = record {
    txn_id = txn_id;
    value = value;
    is_deleted = is_deleted;
  }

  -- The slow path of `version_entry_find_visible`, the loop from `versions->next` on.
  unfoldable pub walk_chain : List (VersionEntry V) → TransactionId → Option (VersionEntry V)
  walk_chain [] read_txn_id = none
  walk_chain (current ∷ older) read_txn_id =
      if is_le (TransactionId.compare current.txn_id read_txn_id)
      then if current.is_deleted then none else some current
      else walk_chain older read_txn_id

  -- `version_entry_find_visible`
  unfoldable pub find_visible : List (VersionEntry V) → TransactionId → Option (VersionEntry V)
  find_visible [] read_txn_id = none
  find_visible (newest ∷ older) read_txn_id =
      if is_le (TransactionId.compare newest.txn_id read_txn_id)
      then if newest.is_deleted then none else some newest
      else walk_chain older read_txn_id

  -- `version_entry_add`; `pool_ok` says whether the memory pool has room for one entry. The code
  -- returns 0 and -1; here `none` is -1.
  unfoldable pub add :
      Bool
      → List (VersionEntry V)
      → TransactionId
      → Option V
      → Bool
      → Option (List (VersionEntry V))
  add false versions txn_id value is_deleted = none
  add true versions txn_id value is_deleted = some (create txn_id value is_deleted ∷ versions)

  -- The second loop of `version_entry_gc`: `prev` by `prev` from the oldest version on, as long as
  -- the version is below `min_active`. The argument lists the versions behind the head, oldest
  -- first; the results are those that stay, in that order, and `removed_count`.
  unfoldable pub sweep : List (VersionEntry V) → TransactionId → List (VersionEntry V) × ℕ
  sweep [] min_active = ([], 0)
  sweep (current ∷ newer) min_active =
      let (kept, removed_count) = sweep newer min_active in
      if is_lt (TransactionId.compare current.txn_id min_active)
      then (kept, removed_count + 1)
      else (current ∷ newer, 0)

  -- `version_entry_gc`; the first loop, which finds the oldest version, is `reverse`.
  unfoldable pub gc : List (VersionEntry V) → TransactionId → List (VersionEntry V) × ℕ
  gc [] min_active = ([], 0)
  gc (newest ∷ older) min_active =
      let (kept, removed_count) = sweep (reverse older) min_active in
      (newest ∷ reverse kept, removed_count)
